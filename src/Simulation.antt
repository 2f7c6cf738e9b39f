-- ===== src/Simulation.antt =====
-- src/main.cpp: the command line, the generated clients and the demonstration of all components. The
-- demonstration is a program over a `World`, which holds the components, what has been printed, and how
-- many calls have read the clocks: the readings of the n-th such call are the n-th of a stream.
pub mod Arguments
pub mod Twister
pub mod Traffic
pub mod Clients
pub mod Policies
pub mod Report
pub mod Program
pub mod Triples
pub mod Fleet
pub mod Stages
pub mod Scenes
pub mod Takeover
pub mod Safety
pub mod Completion
pub mod Exit
pub mod Examples
use session_affinity_engine.Base.{
  ℕ, zero, suc, ◌+◌, ◌-◌, Bool, true, false, Option, none, some, ℤ, List, [], ◌∷◌, ◌++◌, ltb,
  if◌then◌else◌, length, get_elem?,
}
use session_affinity_engine.Text.{Bytes, codes}
use session_affinity_engine.Text.Decimal.{to_string}
use session_affinity_engine.FiveTuple.{FiveTuple, to_key, serialize}
use session_affinity_engine.LoadBalancer.{LoadBalancer, System, Readings, handle_request}

pub record World : Type 0 where
  pub system : System
  pub primary_lb : LoadBalancer
  pub standby_lb : LoadBalancer
  pub calls : ℕ
  pub output : Bytes

-- `none` is undefined behaviour.
abbrev pub Run : Type 0 → Type 0
Run A = World → Option (A × World)

unfoldable pub pure : {A : Type 0} → A → Run A
pure a w = some (a, w)

infixl 5 ◌>>=◌ ◌>>◌
unfoldable pub ◌>>=◌ : {A B : Type 0} → Run A → (A → Run B) → Run B
◌>>=◌ m f w = elim (m w) [ none ↦ none | some (a, w') ↦ f a w' ]

abbrev pub ◌>>◌ : {B : Type 0} → Run (Unit {0}) → Run B → Run B
m >> k = m >>= λ _. k

-- `std::cout << text`
unfoldable pub print : Bytes → Run (Unit {0})
print text w = some (tt, record w { output = w.output ++ text })

unfoldable pub gets : {A : Type 0} → (World → A) → Run A
gets f w = some (f w, w)

-- A read of a vector.
unfoldable pub at : {A : Type 0} → List A → ℕ → Run A
at xs i w = elim (get_elem? xs i) [ none ↦ none | some x ↦ some (x, w) ]

-- A change of the components that reads no clock.
unfoldable pub change : (World → World) → Run (Unit {0})
change f w = some (tt, f w)

-- `for (const auto& x : xs)`
pub for_each : {A : Type 0} → List A → (A → Run (Unit {0})) → Run (Unit {0})
for_each [] body = pure tt
for_each (x ∷ xs) body = body x >> for_each xs body

-- `for (int i = first; i < first + rounds; ++i)`
pub for_range : ℕ → ℕ → (ℕ → Run (Unit {0})) → Run (Unit {0})
for_range first zero body = pure tt
for_range first (suc rounds) body = body first >> for_range (first + 1) rounds body

module _ (clock : ℕ → Readings) where
  -- A call that reads the clocks.
  unfoldable pub timed : {A : Type 0} → (Readings → World → Option (A × World)) → Run A
  timed f w = f (clock w.calls) (record w { calls = w.calls + 1 })

  -- `handleRequest` of one of the load balancers, whose payload is the serialized tuple or another text.
  unfoldable pub request_with : (World → LoadBalancer) → FiveTuple → Bytes → Run Bytes
  unfolding timed
  request_with which ft payload = timed (λ r w.
      elim (handle_request (which w) w.system ft payload r) [
        | none ↦ none
        | some (s, reply) ↦ some (reply, record w { system = s })
      ])

  unfoldable pub request : (World → LoadBalancer) → FiveTuple → Run Bytes
  unfolding request_with
  request which ft = request_with which ft (serialize ft)

abbrev pub end_line : Bytes
end_line = b'\n' ∷ []

-- `std::string(n, c)`
abbrev pub repeated : ℕ → ℕ → Bytes
repeated zero c = []
repeated (suc n) c = c ∷ repeated n c

-- `std::left << std::setw(width) << text`
unfoldable pub column : ℕ → Bytes → Bytes
column width text = text ++ repeated (width - length text) b' '

-- `std::cout << a << b << c`
unfoldable pub print_all : List Bytes → Run (Unit {0})
print_all pieces = for_each pieces print

unfoldable pub print_separator : Bytes → Run (Unit {0})
print_separator title = do
  print_all (end_line ∷ repeated 70 b'=' ∷ end_line ∷ [])
  print_all (codes "  " ∷ title ∷ end_line ∷ [])
  print_all (repeated 70 b'=' ∷ codes "\n\n" ∷ [])

unfoldable pub print_sub_separator : Bytes → Run (Unit {0})
print_sub_separator title = print_all (codes "\n--- " ∷ title ∷ codes " ---\n\n" ∷ [])
