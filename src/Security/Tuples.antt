-- ===== src/Security/Tuples.antt =====
-- Security::validateTuple, and what it means for the keys of the tuples that pass.
use session_affinity_engine.Base.{
  ℕ, ◌≡◌, ◌≢◌, ◌↔◌, ◌⊎◌, inl, inr, refl, sym, subst, true, [], ◌∷◌, ◌++◌, map, arith, All-append,
}
use session_affinity_engine.Text.{Bytes, codes, str_eq_iff, is_digit, to_upper, Lacks}
use session_affinity_engine.Text.Decimal.{to_string, to_string-Lacks}
use session_affinity_engine.FiveTuple.{FiveTuple, to_key}
use session_affinity_engine.FiveTuple.Key.{to_key_inj}
use session_affinity_engine.Security.{validate_tuple}
use session_affinity_engine.Security.Ipv4.{IsIpv4, dotted, is_valid_ipv4_iff}

pub record IsValidTuple (ft : FiveTuple) : Type 0 where
  pub src : IsIpv4 ft.src_ip
  pub dst : IsIpv4 ft.dst_ip
  pub src_port_given : ft.src_port ≢ 0
  pub dst_port_given : ft.dst_port ≢ 0
  pub known_protocol :
      (map to_upper ft.protocol ≡ codes "TCP") ⊎ (map to_upper ft.protocol ≡ codes "UDP")

-- A tuple passes exactly when both addresses are IPv4 texts, neither port is 0, and the protocol is TCP
-- or UDP in any mixture of upper and lower case.
pub validate_tuple_iff : (ft : FiveTuple) → ((validate_tuple ft).valid ≡ true) ↔ IsValidTuple ft
unfolding validate_tuple
validate_tuple_iff ft = (
  λ h. record {
    src = (is_valid_ipv4_iff ft.src_ip).0 (ground arith);
    dst = (is_valid_ipv4_iff ft.dst_ip).0 (ground arith);
    src_port_given = ground arith;
    dst_port_given = ground arith;
    known_protocol = ground (
      arith,
      str_eq_iff (map to_upper ft.protocol) (codes "TCP"),
      str_eq_iff (map to_upper ft.protocol) (codes "UDP"),
    );
  },
  λ v. ground (
    arith,
    (is_valid_ipv4_iff ft.src_ip).1 v.src,
    (is_valid_ipv4_iff ft.dst_ip).1 v.dst,
    str_eq_iff (map to_upper ft.protocol) (codes "TCP"),
    str_eq_iff (map to_upper ft.protocol) (codes "UDP"),
  ),
)

dotted-Lacks : (a b c d : ℕ) (rest : Bytes) → Lacks b':' rest → Lacks b':' (dotted a b c d rest)
unfolding is_digit
dotted-Lacks a b c d rest h =
    let last = All-append (λ e. e ≢ b':') (to_string d) rest (to_string-Lacks b':' d refl) h in
    part a _ (part b _ (part c _ last))
  where
    part : (n : ℕ) (s : Bytes) → Lacks b':' s → Lacks b':' (to_string n ++ (b'.' ∷ s))
    part n s l = All-append _ (to_string n) _ (to_string-Lacks b':' n refl) (omega arith, l)

IsIpv4-Lacks : (s : Bytes) → IsIpv4 s → Lacks b':' s
IsIpv4-Lacks s v = elim v.text [
  | inl e ↦ subst (Lacks b':') (sym e) (dotted-Lacks v.a v.b v.c v.d [] tt)
  | inr e ↦ subst (Lacks b':') (sym e) (dotted-Lacks v.a v.b v.c v.d (b'.' ∷ []) (omega arith))
]

-- Two tuples that pass validation have the same session key only if they are the same tuple.
pub to_key-validate_tuple_inj :
    (a b : FiveTuple)
    → (validate_tuple a).valid ≡ true
    → (validate_tuple b).valid ≡ true
    → to_key a ≡ to_key b
    → a ≡ b
to_key-validate_tuple_inj a b ha hb e =
    let va = (validate_tuple_iff a).0 ha in
    let vb = (validate_tuple_iff b).0 hb in
    to_key_inj a b (IsIpv4-Lacks a.src_ip va.src) (IsIpv4-Lacks b.src_ip vb.src)
      (IsIpv4-Lacks a.dst_ip va.dst) (IsIpv4-Lacks b.dst_ip vb.dst) e
