-- ===== src/Sessions/Stickiness.antt =====
-- Session affinity over a history of requests.
use session_affinity_engine.Base.{
  ℕ, ◌+◌, ◌≤◌, ◌≡◌, refl, sym, ap, subst, subst₂, ◌∙◌, Bool, true, false, Option, none, some, List,
  [], ◌∷◌, arith, if◌then◌else◌, contains, All, Bool-cases, inl, inr,
}
use session_affinity_engine.Text.{Bytes, str_eq, str_eq→eq}
use session_affinity_engine.Dict.{assign, find-assign_self}
use session_affinity_engine.Window.{seconds}
use session_affinity_engine.FiveTuple.{FiveTuple, to_key, RequestStatus, success}
use session_affinity_engine.Ring.{ConsistentHashRing}
use session_affinity_engine.Sessions.{
  SessionEntry, SessionManager, timeout_of, is_expired, route_request,
}
use session_affinity_engine.Sessions.Routing.{lookup, route_kept}
use session_affinity_engine.Sessions.Frame.{route_request_frame}

-- A request, with what the call for it reads from the clocks.
pub record Request : Type 0 where
  pub tuple : FiveTuple
  pub now : ℕ
  pub later : ℕ
  pub stamp : Bytes

abbrev pub answer_to :
    SessionManager → ConsistentHashRing → Request → SessionManager × RequestStatus × Option ℕ
answer_to m ring q = route_request m ring q.tuple none q.now q.later q.stamp

-- The answers to the requests of one session among all the requests.
unfoldable pub answers :
    Bytes → SessionManager → ConsistentHashRing → List Request → List (RequestStatus × Option ℕ)
answers key m ring [] = []
answers key m ring (q ∷ qs) =
    let (m', status, out) = answer_to m ring q in
    let rest = answers key m' ring qs in
    if str_eq (to_key q.tuple) key then (status, out) ∷ rest else rest

-- The session's requests follow one another, the first after `last`, with no more than `timeout`
-- seconds between them.
abbrev pub IsPrompt : Bytes → ℕ → ℕ → List Request → Type 0
IsPrompt key timeout last [] = Unit {0}
IsPrompt key timeout last (q ∷ qs) =
    (str_eq (to_key q.tuple) key ≡ true → q.later ≤ last + seconds timeout)
    × IsPrompt key timeout (if str_eq (to_key q.tuple) key then q.now else last) qs

-- The session of the key, with what stays the same through its requests.
record Settled (key : Bytes) (default timeout b last : ℕ) (m : SessionManager) : Type 0 where
  entry : SessionEntry
  here : lookup m key ≡ some entry
  unblocked : entry.blocked ≡ false
  backend : entry.backend_id ≡ b
  patience : timeout_of default entry.custom_timeout ≡ timeout
  accessed : entry.last_access ≡ last
  default_kept : m.default_timeout_sec ≡ default

module _ (key : Bytes) (default timeout b : ℕ) (ring : ConsistentHashRing)
    (up : contains ring.active_servers b ≡ true) where
  -- A prompt request of the session is kept on its backend.
  own_request :
      (last : ℕ) (m : SessionManager) (q : Request) (s : Settled key default timeout b last m)
      → to_key q.tuple ≡ key
      → q.later ≤ last + seconds timeout
      → answer_to m ring q ≡ (
        record m { sessions = assign key (record s.entry { last_access = q.now }) m.sessions },
        success,
        some b,
      )
  unfolding is_expired
  own_request last m q s own prompt =
      let young : is_expired m.default_timeout_sec s.entry q.later ≡ false =
        let t : timeout_of m.default_timeout_sec s.entry.custom_timeout ≡ timeout =
          ap (λ d. timeout_of d s.entry.custom_timeout) s.default_kept ∙ s.patience in
        ground arith in
      let kept =
        route_kept m ring q.tuple none q.now q.later q.stamp s.entry (rw own s.here)
          (s.unblocked, young) (rw s.backend up) in
      let entry' : SessionEntry = record s.entry { last_access = q.now } in
      subst₂
        (λ (k : Bytes) (c : ℕ).
          answer_to m ring q
          ≡ (record m { sessions = assign k entry' m.sessions }, success, some c))
        own s.backend kept

  Settled-affinity :
      (last : ℕ) (m : SessionManager) (qs : List Request)
      → Settled key default timeout b last m
      → IsPrompt key timeout last qs
      → All (λ a. a ≡ (success, some b)) (answers key m ring qs)
  unfolding answers
  Settled-affinity last m [] s prompt = tt
  Settled-affinity last m (q ∷ qs) s prompt = elim (Bool-cases (str_eq (to_key q.tuple) key)) [
    | inl own ↦
        let kept = own_request last m q s (str_eq→eq (to_key q.tuple) key own) (prompt.0 own) in
        let entry' : SessionEntry = record s.entry { last_access = q.now } in
        let m' : SessionManager = record m { sessions = assign key entry' m.sessions } in
        let s' : Settled key default timeout b q.now m' = record {
          entry = entry';
          here = find-assign_self key entry' m.sessions;
          unblocked = s.unblocked;
          backend = s.backend;
          patience = s.patience;
          accessed = refl;
          default_kept = s.default_kept;
        } in
        let ih = Settled-affinity q.now m' qs s' (
          subst (λ (c : Bool). IsPrompt key timeout (if c then q.now else last) qs) own prompt.1) in
        rw (own, answers)
          (subst
            (λ (r : SessionManager × RequestStatus × Option ℕ).
              All (λ a. a ≡ (success, some b)) ((r.1, r.2) ∷ answers key r.0 ring qs))
            (sym kept) (refl, ih))
    | inr other ↦
        let (same, limit) =
          route_request_frame m ring q.tuple none q.now q.later q.stamp key other in
        let m' = (answer_to m ring q).0 in
        let s' : Settled key default timeout b last m' = record {
          entry = s.entry;
          here = same ∙ s.here;
          unblocked = s.unblocked;
          backend = s.backend;
          patience = s.patience;
          accessed = s.accessed;
          default_kept = limit ∙ s.default_kept;
        } in
        rw (other, answers) (Settled-affinity last m' qs s' (rw other at (prompt.1)))
  ]

-- A session that is not blocked and whose backend is active: as long as its requests are prompt, each
-- of them is a success on that same backend, whatever other clients ask in between.
pub affinity :
    (key : Bytes) (m : SessionManager) (ring : ConsistentHashRing) (entry : SessionEntry)
    (qs : List Request)
    → lookup m key ≡ some entry
    → entry.blocked ≡ false
    → contains ring.active_servers entry.backend_id ≡ true
    → IsPrompt key (timeout_of m.default_timeout_sec entry.custom_timeout) entry.last_access qs
    → All (λ a. a ≡ (success, some entry.backend_id)) (answers key m ring qs)
affinity key m ring entry qs here open_ up prompt =
    Settled-affinity key m.default_timeout_sec
      (timeout_of m.default_timeout_sec entry.custom_timeout) entry.backend_id ring up
      entry.last_access m qs
      (record {
        entry = entry;
        here = here;
        unblocked = open_;
        backend = refl;
        patience = refl;
        accessed = refl;
        default_kept = refl;
      })
      prompt
