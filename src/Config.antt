-- ===== src/Config.antt =====
-- config.h: the constants that the modules compile in.
use session_affinity_engine.Base.{ℕ}

abbrev pub num_backend_servers : ℕ
num_backend_servers = 8

abbrev pub backend_base_port : ℕ
backend_base_port = 8001

abbrev pub lb_primary_port : ℕ
lb_primary_port = 9000

abbrev pub lb_standby_port : ℕ
lb_standby_port = 9001

abbrev pub lb_heartbeat_interval_ms : ℕ
lb_heartbeat_interval_ms = 1000

abbrev pub lb_failover_threshold_ms : ℕ
lb_failover_threshold_ms = 3000

abbrev pub session_timeout_sec : ℕ
session_timeout_sec = 300

abbrev pub rate_limit_window_sec : ℕ
rate_limit_window_sec = 60

abbrev pub rate_limit_max_requests : ℕ
rate_limit_max_requests = 100

abbrev pub max_payload_size : ℕ
max_payload_size = 1024

abbrev pub spoof_detection_threshold : ℕ
spoof_detection_threshold = 50

abbrev pub spoof_detection_window_sec : ℕ
spoof_detection_window_sec = 60

abbrev pub consistent_hash_vnodes : ℕ
consistent_hash_vnodes = 150
