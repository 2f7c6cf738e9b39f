-- ===== src/RequestHandler/Counts.antt =====
-- The counters of a RequestHandler over any history of calls.
use session_affinity_engine.Base.{
  ℕ, ◌+◌, ◌≡◌, refl, sym, ap, subst, ◌∙◌, Bool, true, false, not, Option, some, List, [], ◌∷◌,
  arith, if◌then◌else◌, if_intro, Bool-cases, inl, inr,
}
use session_affinity_engine.Text.{Bytes, str_eq, str_eq→eq}
use session_affinity_engine.Dict.{
  Dict, find, assign, get_or, find-assign, find-assign_self, HasUniqueKeys, assign-HasUniqueKeys,
}
use session_affinity_engine.FiveTuple.{FiveTuple, to_key}
use session_affinity_engine.RequestHandler.{
  SessionData, RequestHandler, offline_reply, success_reply, new, blank, data_of, counted,
  process_request, start, stop,
}

unfoldable pub sum_counts : Dict SessionData → ℕ
sum_counts [] = 0
sum_counts ((key, d) ∷ table) = d.request_count + sum_counts table

sum_counts-assign :
    (key : Bytes) (d : SessionData) (table : Dict SessionData)
    → sum_counts (assign key d table) + (get_or (find key table) blank).request_count
      ≡ sum_counts table + d.request_count
unfolding sum_counts assign find
sum_counts-assign key d [] = omega arith
sum_counts-assign key d ((k, x) ∷ table) = ground (arith, sum_counts-assign key d table)

-- The total is the sum of what the tuples' own counts say, and each datum names its own tuple.
pub record IsCounted (h : RequestHandler) : Type 0 where
  pub total : h.total_requests ≡ sum_counts h.local_data
  pub unique : HasUniqueKeys h.local_data
  pub named : (key : Bytes) (d : SessionData) → find key h.local_data ≡ some d → d.tuple_key ≡ key

pub process_request-IsCounted :
    (h : RequestHandler) (ft : FiveTuple) (stamp : Bytes)
    → IsCounted h
    → IsCounted (process_request h ft stamp).0
unfolding process_request
process_request-IsCounted h ft stamp c =
    if_intro (λ (r : RequestHandler × Bytes). IsCounted r.0) (not h.online) _ _ c
      (record {
        total =
            let sum = sum_counts-assign (to_key ft) (counted h (to_key ft) stamp) h.local_data in
            omega (arith, sum, c.total);
        unique =
            assign-HasUniqueKeys (to_key ft) (counted h (to_key ft) stamp) h.local_data c.unique;
        named = λ key d here. elim (Bool-cases (str_eq (to_key ft) key)) [
          | inl same ↦
              let this : d ≡ counted h (to_key ft) stamp =
                ground
                  (arith, find-assign key (to_key ft) (counted h (to_key ft) stamp) h.local_data) in
              subst (λ (x : SessionData). x.tuple_key ≡ key) (sym this)
                (str_eq→eq (to_key ft) key same)
          | inr other ↦ c.named key d (
              ground
                (arith, find-assign key (to_key ft) (counted h (to_key ft) stamp) h.local_data))
        ];
      })

-- A call of one of the methods that change a handler.
pub data Op : Type 0 where
  process : FiveTuple → Bytes → Op
  starting stopping : Op

unfoldable pub step : RequestHandler → Op → RequestHandler
step h (process ft stamp) = (process_request h ft stamp).0
step h starting = start h
step h stopping = stop h

unfoldable pub run : RequestHandler → List Op → RequestHandler
run h [] = h
run h (op ∷ ops) = run (step h op) ops

run-IsCounted : (h : RequestHandler) (ops : List Op) → IsCounted h → IsCounted (run h ops)
unfolding run step
run-IsCounted h [] c = c
run-IsCounted h (process ft stamp ∷ ops) c =
    run-IsCounted (process_request h ft stamp).0 ops (process_request-IsCounted h ft stamp c)
run-IsCounted h (starting ∷ ops) c =
    run-IsCounted (start h) ops (record { total = c.total; unique = c.unique; named = c.named })
run-IsCounted h (stopping ∷ ops) c =
    run-IsCounted (stop h) ops (record { total = c.total; unique = c.unique; named = c.named })

-- After any history of requests, stops and starts of a new backend, its total is the sum of the counts
-- of its tuples, no tuple's key stands twice in its data, and each datum names the key it stands under.
pub run-new-IsCounted : (id : ℕ) (ops : List Op) → IsCounted (run (new id) ops)
unfolding sum_counts find
run-new-IsCounted id ops =
    run-IsCounted (new id) ops
      (record { total = refl; unique = tt; named = λ key d here. absurd (ground arith) })

-- What a call of `processRequest` comes to.
pub data Processed (h : RequestHandler) (key : Bytes) (r : RequestHandler × Bytes) : Type 0 where
  offline : h.online ≡ false → r ≡ (h, offline_reply h.id) → Processed h key r
  processed :
      (n : ℕ)
      → h.online ≡ true
      → n ≡ (data_of h key).request_count + 1
      → (data_of r.0 key).request_count ≡ n
      → r.1 ≡ success_reply h.id n
      → r.0.total_requests ≡ h.total_requests + 1
      → (r.0.id ≡ h.id) × (r.0.online ≡ true)
      → ((other : Bytes)
          → str_eq key other ≡ false
          → find other r.0.local_data ≡ find other h.local_data)
      → Processed h key r

-- A stopped backend answers with an error and keeps all its data. A running one counts the request in
-- its total and in the count of the tuple, which is the number in the reply, leaves the data of every
-- other key as it is, and keeps its id and stays online.
pub process_request_effect :
    (h : RequestHandler) (ft : FiveTuple) (stamp : Bytes)
    → Processed h (to_key ft) (process_request h ft stamp)
unfolding process_request
process_request_effect h ft stamp = elim (Bool-cases h.online) [
  | inr off ↦ offline off (ground arith)
  | inl on ↦
      let key = to_key ft in
      let d = counted h key stamp in
      subst
        (λ (b : Bool). Processed h key (
          if not b then (h, offline_reply h.id) else (
            record h {
              total_requests = h.total_requests + 1;
              local_data = assign key d h.local_data;
            },
            success_reply h.id d.request_count,
          )))
        (sym on)
        (processed d.request_count on refl
          (ap (λ (o : Option SessionData). (get_or o blank).request_count)
            (find-assign_self key d h.local_data))
          refl refl (refl, on) (λ other apart. find-assign other key d h.local_data ∙ rw apart))
]
