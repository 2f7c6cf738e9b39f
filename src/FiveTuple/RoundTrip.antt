-- ===== src/FiveTuple/RoundTrip.antt =====
-- FiveTuple::serialize and FiveTuple::deserialize against each other.
use session_affinity_engine.Base.{
  ◌≤◌, ◌≡◌, ◌≢◌, refl, sym, subst, true, Option, none, some, ℤ, pos, negsuc, List, [], ◌∷◌, arith,
  All,
}
use session_affinity_engine.Text.{Bytes, is_digit, Lacks}
use session_affinity_engine.Text.Decimal.{to_string, stoi, stoi-to_string, to_string-Lacks}
use session_affinity_engine.Text.Split.{getlines, getlines_token, getlines_last, getlines-Lacks}
use session_affinity_engine.FiveTuple.{FiveTuple, serialize, deserialize, store_ports, store_tokens}

-- What makes a tuple one that its serialized form carries.
pub record IsPlain (ft : FiveTuple) : Type 0 where
  pub src_plain : Lacks b'|' ft.src_ip
  pub dst_plain : Lacks b'|' ft.dst_ip
  pub protocol_plain : Lacks b'|' ft.protocol
  pub protocol_given : ft.protocol ≢ []
  pub src_port_small : ft.src_port ≤ 65535
  pub dst_port_small : ft.dst_port ≤ 65535

getlines_protocol : (p : Bytes) → p ≢ [] → Lacks b'|' p → getlines b'|' p ≡ p ∷ []
getlines_protocol [] h l = absurd (h refl)
getlines_protocol (c ∷ p) h l = getlines_last b'|' c p l

getlines-serialize :
    (ft : FiveTuple)
    → IsPlain ft
    → getlines b'|' (serialize ft)
      ≡ ft.src_ip ∷ to_string ft.src_port ∷ ft.dst_ip ∷ to_string ft.dst_port ∷ ft.protocol ∷ []
unfolding serialize is_digit
getlines-serialize ft p = rw (
  getlines_token b'|' ft.src_ip _ p.src_plain,
  getlines_token b'|' (to_string ft.src_port) _ (to_string-Lacks b'|' ft.src_port refl),
  getlines_token b'|' ft.dst_ip _ p.dst_plain,
  getlines_token b'|' (to_string ft.dst_port) _ (to_string-Lacks b'|' ft.dst_port refl),
  getlines_protocol ft.protocol p.protocol_given p.protocol_plain,
)

-- A tuple with a protocol, ports below 2 ^ 16 and no '|' in its texts is read back from its
-- serialized form, whatever the out-parameter held before.
pub deserialize-serialize :
    (ft out : FiveTuple) → IsPlain ft → deserialize (serialize ft) out ≡ (true, ft)
unfolding deserialize
deserialize-serialize ft out p = rw (getlines-serialize ft p) (
    ground
      (arith, stoi-to_string ft.src_port (omega arith), stoi-to_string ft.dst_port (omega arith)))

store_ports_sound :
    (sp dp : Option ℤ) (out ft : FiveTuple)
    → store_ports sp dp out ≡ (true, ft)
    → (ft.src_port ≤ 65535)
      × (ft.dst_port ≤ 65535)
      × (ft.src_ip ≡ out.src_ip)
      × (ft.dst_ip ≡ out.dst_ip)
      × (ft.protocol ≡ out.protocol)
unfolding store_ports
store_ports_sound none dp out ft e = ground arith
store_ports_sound (some (pos sp)) none out ft e = ground arith
store_ports_sound (some (pos sp)) (some (pos dp)) out ft e = ground arith
store_ports_sound (some (pos sp)) (some (negsuc dp)) out ft e = ground arith
store_ports_sound (some (negsuc sp)) dp out ft e = ground arith

store_tokens_sound :
    (tokens : List Bytes) (out ft : FiveTuple)
    → All (Lacks b'|') tokens
    → store_tokens tokens out ≡ (true, ft)
    → ft.protocol ≢ []
    → IsPlain ft
unfolding store_tokens
store_tokens_sound (t0 ∷ t1 ∷ t2 ∷ t3 ∷ t4 ∷ more) out ft l e h =
    let (sp, dp, e0, e2, e4) = store_ports_sound (stoi t1) (stoi t3) _ ft e in
    record {
      src_plain = subst (Lacks b'|') (sym e0) l.0;
      dst_plain = subst (Lacks b'|') (sym e2) l.1.1.0;
      protocol_plain = subst (Lacks b'|') (sym e4) l.1.1.1.1.0;
      protocol_given = h;
      src_port_small = sp;
      dst_port_small = dp;
    }
store_tokens_sound _ out ft l e h = absurd (ground arith)

-- Whatever text was accepted, if the tuple read from it has a protocol, then its ports are below
-- 2 ^ 16 and it is read back from its own serialized form.
pub deserialize_stable :
    (text : Bytes) (out ft other : FiveTuple)
    → deserialize text out ≡ (true, ft)
    → ft.protocol ≢ []
    → (ft.src_port ≤ 65535)
      × (ft.dst_port ≤ 65535)
      × (deserialize (serialize ft) other ≡ (true, ft))
unfolding deserialize
deserialize_stable text out ft other e h =
    let p : IsPlain ft =
      store_tokens_sound (getlines b'|' text) out ft (getlines-Lacks b'|' text) e h in
    (p.src_port_small, p.dst_port_small, deserialize-serialize ft other p)
