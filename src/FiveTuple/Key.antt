-- ===== src/FiveTuple/Key.antt =====
-- FiveTuple::toKey, the key of the session table, of the rate limiter and of the backends' data.
use session_affinity_engine.Base.{◌≡◌, refl, ap, arith}
use mathlib.Core.List.{tail}
use session_affinity_engine.Text.{is_digit, Lacks}
use session_affinity_engine.Text.Decimal.{to_string, to_string-Lacks, to_string_inj}
use session_affinity_engine.Text.Split.{cut_inj}
use session_affinity_engine.FiveTuple.{FiveTuple, to_key}

-- Two tuples whose addresses hold no ':' have the same key only if they are the same tuple.
pub to_key_inj :
    (a b : FiveTuple)
    → Lacks b':' a.src_ip
    → Lacks b':' b.src_ip
    → Lacks b':' a.dst_ip
    → Lacks b':' b.dst_ip
    → to_key a ≡ to_key b
    → a ≡ b
unfolding to_key is_digit
to_key_inj a b sa sb da db e =
    let c1 = cut_inj b':' a.src_ip b.src_ip _ _ sa sb e in
    let c2 =
      cut_inj b'-' (to_string a.src_port) (to_string b.src_port) _ _
        (to_string-Lacks b'-' a.src_port refl) (to_string-Lacks b'-' b.src_port refl) c1.1 in
    let c3 = cut_inj b':' a.dst_ip b.dst_ip _ _ da db (ap tail c2.1) in
    let c4 =
      cut_inj b'/' (to_string a.dst_port) (to_string b.dst_port) _ _
        (to_string-Lacks b'/' a.dst_port refl) (to_string-Lacks b'/' b.dst_port refl) c3.1 in
    ground (
      arith,
      c1.0,
      to_string_inj a.src_port b.src_port c2.0,
      c3.0,
      to_string_inj a.dst_port b.dst_port c4.0,
      c4.1,
    )
