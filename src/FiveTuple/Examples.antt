-- ===== src/FiveTuple/Examples.antt =====
-- Tests of src/common.h, and the theorems about it at concrete tuples.
use session_affinity_engine.Base.{◌≡◌, refl, true, false, [], arith}
use session_affinity_engine.Text.{codes}
use session_affinity_engine.Text.Decimal.{to_string, stoi}
use session_affinity_engine.Text.Split.{getlines}
use session_affinity_engine.FiveTuple.{FiveTuple, to_key, serialize, deserialize}
use session_affinity_engine.FiveTuple.RoundTrip.{IsPlain, deserialize-serialize}

abbrev client : FiveTuple
client = record {
  src_ip = codes "192.168.1.100";
  src_port = 54321;
  dst_ip = codes "10.0.0.5";
  dst_port = 443;
  protocol = codes "TCP";
}

abbrev blank : FiveTuple
blank = record { src_ip = []; src_port = 0; dst_ip = []; dst_port = 0; protocol = [] }

client_key : to_key client ≡ codes "192.168.1.100:54321->10.0.0.5:443/TCP"
unfolding to_key to_string
client_key = refl

client_text : serialize client ≡ codes "192.168.1.100|54321|10.0.0.5|443|TCP"
unfolding serialize to_string
client_text = refl

-- A port out of range is refused when the texts are already written.
port_refused : deserialize (codes "1.1.1.1|70000|2.2.2.2|80|TCP") blank ≡ (
  false,
  record blank { src_ip = codes "1.1.1.1"; dst_ip = codes "2.2.2.2"; protocol = codes "TCP" },
)
unfolding deserialize getlines stoi
port_refused = refl

-- A tuple without a protocol is not read back: its text ends in a delimiter.
no_protocol : deserialize (serialize blank) blank ≡ (false, blank)
unfolding deserialize serialize getlines to_string
no_protocol = refl

client-IsPlain : IsPlain client
client-IsPlain = record {
  src_plain = omega arith;
  dst_plain = omega arith;
  protocol_plain = omega arith;
  protocol_given = cc;
  src_port_small = omega arith;
  dst_port_small = omega arith;
}

deserialize-serialize_example : deserialize (serialize client) blank ≡ (true, client)
deserialize-serialize_example = deserialize-serialize client blank client-IsPlain
