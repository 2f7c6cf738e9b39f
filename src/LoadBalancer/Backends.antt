-- ===== src/LoadBalancer/Backends.antt =====
-- The invariant of the shared system, on the servers of the ring and the backends that are online.
use session_affinity_engine.Base.{
  ℕ, zero, suc, ◌≡◌, refl, sym, ap, ◌∙◌, Bool, true, false, none, some, ℤ, pos, negsuc, List, [],
  ◌∷◌, arith, ◌==◌, if◌then◌else◌, get_elem?, set, contains, Option-cases, inl, inr,
}
use session_affinity_engine.Text.{Bytes}
use session_affinity_engine.FiveTuple.{FiveTuple, RequestStatus}
use session_affinity_engine.Ring.{ConsistentHashRing, add_server, remove_server}
use session_affinity_engine.Ring.Invariant.{
  RingInv, add_server-RingInv, remove_server-RingInv, contains-append, contains-remove_id,
}
use session_affinity_engine.RequestHandler.{RequestHandler, process_request, start, stop}
use session_affinity_engine.RequestHandler.Counts.{offline, processed, process_request_effect}
use session_affinity_engine.LoadBalancer.{
  System, evacuate, finish, take_backend_offline, bring_backend_online,
}

-- The backend with this number exists and is online.
abbrev pub is_up : List RequestHandler → ℕ → Bool
is_up backends b = elim (get_elem? backends b) [ none ↦ false | some h ↦ h.online ]

pub record SystemInv (s : System) : Type 0 where
  pub ring : RingInv s.ring
  pub agrees : (b : ℕ) → contains s.ring.active_servers b ≡ is_up s.backends b
  pub named : (b : ℕ) (h : RequestHandler) → get_elem? s.backends b ≡ some h → h.id ≡ b

pub get_elem?-set :
    (xs : List RequestHandler) (i : ℕ) (old new : RequestHandler) (j : ℕ)
    → get_elem? xs i ≡ some old
    → get_elem? (set xs i new) j ≡ (if i == j then some new else get_elem? xs j)
get_elem?-set [] i old new j e = cc
get_elem?-set (x ∷ xs) zero old new zero e = refl
get_elem?-set (x ∷ xs) zero old new (suc j) e = ground arith
get_elem?-set (x ∷ xs) (suc i) old new zero e = ground arith
get_elem?-set (x ∷ xs) (suc i) old new (suc j) e = ground (arith, get_elem?-set xs i old new j e)

is_up-set :
    (xs : List RequestHandler) (i : ℕ) (old new : RequestHandler) (j : ℕ)
    → get_elem? xs i ≡ some old
    → is_up (set xs i new) j ≡ (if i == j then new.online else is_up xs j)
is_up-set xs i old new j e = ground (arith, get_elem?-set xs i old new j e)

set-named :
    (xs : List RequestHandler) (i : ℕ) (old new : RequestHandler)
    → get_elem? xs i ≡ some old
    → new.id ≡ old.id
    → ((b : ℕ) (h : RequestHandler) → get_elem? xs b ≡ some h → h.id ≡ b)
    → (b : ℕ) (h : RequestHandler) → get_elem? (set xs i new) b ≡ some h
    → h.id ≡ b
set-named xs i old new e same named b h here =
    ground (arith, get_elem?-set xs i old new b e, named b h, named i old)

pub evacuate-SystemInv :
    (s : System) (n : ℕ) (handler : RequestHandler) (clock : ℕ → ℕ) (wall : ℕ → Bytes)
    → get_elem? s.backends n ≡ some handler
    → SystemInv s
    → SystemInv (evacuate (record s { backends = set s.backends n (stop handler) }) n clock wall)
unfolding evacuate remove_server
evacuate-SystemInv s n handler clock wall e i = record {
  ring = remove_server-RingInv s.ring n i.ring;
  agrees = λ b. ground (
    arith,
    contains-remove_id n b s.ring.active_servers,
    is_up-set s.backends n handler (stop handler) b e,
    i.agrees b,
  );
  named = set-named s.backends n handler (stop handler) e refl i.named;
}

pub contains-add_server :
    (r : ConsistentHashRing) (n b : ℕ)
    → contains (add_server r n).active_servers b
      ≡ (if n == b then true else contains r.active_servers b)
unfolding add_server
contains-add_server r n b = ground (arith, contains-append r.active_servers n b)

-- Taking a backend offline and bringing one back, whatever its id, keep the ring in agreement with the
-- backends that are online.
pub backends-SystemInv :
    (s : System) (n : ℤ) (clock : ℕ → ℕ) (wall : ℕ → Bytes)
    → SystemInv s
    → SystemInv (take_backend_offline s n clock wall) × SystemInv (bring_backend_online s n)
unfolding take_backend_offline bring_backend_online
backends-SystemInv s (negsuc n) clock wall i = (i, i)
backends-SystemInv s (pos n) clock wall i = elim (Option-cases (get_elem? s.backends n)) [
  | inl missing ↦ (rw (missing, take_backend_offline) i, rw (missing, bring_backend_online) i)
  | inr (handler, here) ↦ (
    rw (here, take_backend_offline) (evacuate-SystemInv s n handler clock wall here i),
    rw (here, bring_backend_online)
        (record {
          ring = add_server-RingInv s.ring n i.ring;
          agrees = λ b. ground (
            arith,
            contains-add_server s.ring n b,
            is_up-set s.backends n handler (start handler) b here,
            i.agrees b,
          );
          named = set-named s.backends n handler (start handler) here refl i.named;
        }),
  )
]

-- A request that is processed changes neither the names of the backends nor which are online.
process_request_keeps :
    (h : RequestHandler) (ft : FiveTuple) (stamp : Bytes)
    → ((process_request h ft stamp).0.id ≡ h.id)
      × ((process_request h ft stamp).0.online ≡ h.online)
process_request_keeps h ft stamp = elim (process_request_effect h ft stamp) [
  | offline off e ↦ (ap (λ r. r.0.id) e, ap (λ r. r.0.online) e)
  | processed n on c1 c2 c3 c4 (same, still) c5 ↦ (same, still ∙ sym on)
]

pub finish-SystemInv :
    (s : System) (ft : FiveTuple) (b : ℕ) (h : RequestHandler) (status : RequestStatus)
    (stamp : Bytes)
    → get_elem? s.backends b ≡ some h
    → SystemInv s
    → SystemInv (finish s ft b h status stamp).0
unfolding finish
finish-SystemInv s ft b h status stamp here i =
    let h' = (process_request h ft stamp).0 in
    let kept = process_request_keeps h ft stamp in
    record {
      ring = i.ring;
      agrees = λ c. i.agrees c ∙ ground (arith, is_up-set s.backends b h h' c here, kept.1);
      named = set-named s.backends b h h' here kept.0 i.named;
    }
