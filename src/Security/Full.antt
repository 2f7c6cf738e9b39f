-- ===== src/Security/Full.antt =====
-- Security::fullValidation.
use session_affinity_engine.Base.{ℕ, ◌≤◌, ◌≡◌, ◌≢◌, ◌↔◌, ◌⊎◌, true, false, arith, length}
use session_affinity_engine.Config.{max_payload_size}
use session_affinity_engine.Text.{Bytes}
use session_affinity_engine.FiveTuple.{FiveTuple}
use session_affinity_engine.Security.{
  Security, passed, validate_payload_size, validate_tuple, check_spoofing, full_validation,
}
use session_affinity_engine.Security.Tuples.{IsValidTuple, validate_tuple_iff}

validate_payload_size_iff :
    (payload : Bytes) (size : ℕ)
    → ((validate_payload_size payload size).valid ≡ true)
      ↔ ((length payload ≢ 0) × (length payload ≤ size))
unfolding validate_payload_size
validate_payload_size_iff payload size = (λ h. (ground arith, ground arith), λ h. ground arith)

-- A spoof check that passes has no message.
check_spoofing_message :
    (s : Security) (src_ip : Bytes) (now : ℕ)
    → (check_spoofing s src_ip now).1.valid ≡ true
    → check_spoofing s src_ip now ≡ ((check_spoofing s src_ip now).0, passed)
unfolding check_spoofing
check_spoofing_message s src_ip now h = ground arith

-- A request passes exactly when its payload has from 1 to 1024 bytes, its tuple is valid, and the spoof
-- check of its source address passes.
pub full_validation_iff :
    (s : Security) (ft : FiveTuple) (payload : Bytes) (now : ℕ)
    → ((full_validation s ft payload now).1.valid ≡ true) ↔ (
        (length payload ≢ 0)
        × (length payload ≤ max_payload_size)
        × IsValidTuple ft
        × ((check_spoofing s ft.src_ip now).1.valid ≡ true))
unfolding full_validation
full_validation_iff s ft payload now = (
  λ h.
      let size = (validate_payload_size_iff payload max_payload_size).0 (ground arith) in
      (size.0, size.1, (validate_tuple_iff ft).0 (ground arith), ground arith),
  λ (given, small, tuple, spoof). ground (
    arith,
    (validate_payload_size_iff payload max_payload_size).1 (given, small),
    (validate_tuple_iff ft).1 tuple,
    spoof,
  ),
)

-- The spoof check runs, and changes the trackers, only for a payload and a tuple that pass; else the
-- trackers are unchanged. The first check that fails gives the result.
pub full_validation_order :
    (s : Security) (ft : FiveTuple) (payload : Bytes) (now : ℕ)
    → (((validate_payload_size payload max_payload_size).valid ≡ false)
        × (full_validation s ft payload now ≡ (s, validate_payload_size payload max_payload_size)))
      ⊎ ((((validate_payload_size payload max_payload_size).valid ≡ true)
            × ((validate_tuple ft).valid ≡ false)
            × (full_validation s ft payload now ≡ (s, validate_tuple ft)))
          ⊎ (((validate_payload_size payload max_payload_size).valid ≡ true)
              × ((validate_tuple ft).valid ≡ true)
              × (full_validation s ft payload now ≡ check_spoofing s ft.src_ip now)))
unfolding full_validation
full_validation_order s ft payload now =
    let spoof = check_spoofing_message s ft.src_ip now in ground arith
