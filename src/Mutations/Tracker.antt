-- ===== src/Mutations/Tracker.antt =====
-- The counter of unproved writes (`MutationCompletion` of src/mutation_completion.rs) and the client
-- that keeps it, `Qdrant::mutation` of src/main.rs with a tracker. A write is two steps, before and
-- after its request is answered, and writes in flight overlap in any order; one that is dropped is
-- never answered. A machine word has 64 bits, and `fetch_add` and `fetch_sub` wrap around.
pub mod Laws
use qdrant_es_gateway.Prelude.{
  ℕ, suc, zero, ◌+◌, ◌-◌, ◌%◌, ◌^◌, String, Bool, true, false, not, ◌&&◌, ◌||◌, List, [], ◌∷◌,
  Option, none, some, if◌then◌else◌, eqb, ◌==◌,
}
use qdrant_es_gateway.Errors.{GatewayError, upstream, Result, ok, err, ◌>>=◌, ◌>>◌, refuse, ok_or}
use qdrant_es_gateway.Json.{Value, get, as_bool, as_str}
use qdrant_es_gateway.Mutations.{Method, Proof, completed, collection_boolean, accepts, classify}

unfoldable pub begin : ℕ → ℕ
begin pending = (pending + 1) % 2 ^ 64

unfoldable pub complete : ℕ → ℕ
complete pending = (pending + (2 ^ 64 - 1)) % 2 ^ 64

unfoldable pub is_complete : ℕ → Bool
is_complete pending = eqb pending 0

abbrev waits : Option Value → Bool
waits none = false
waits (some body) = elim (get "wait" body) [
  | none ↦ false
  | some wait ↦ elim (as_bool wait) [ none ↦ false | some b ↦ b ]
]

abbrev is_completed : Proof → Bool
is_completed completed = true
is_completed collection_boolean = false

-- `Qdrant::mutation` up to the request: the proof that the answer has to give.
unfoldable pub required_proof : Method → String → Option Value → Result Proof
required_proof method path body = do
  proof ← ok_or (classify method path) (upstream "unsupported coordinated Qdrant mutation")
  refuse (is_completed proof && not (waits body))
      (upstream "coordinated Qdrant mutations require wait=true")
  ok proof

-- What `send_request` returns: whether the status is one of success, and the value.
abbrev pub Answer : Type 0
Answer = Result (Bool × Value)

abbrev pub is_text : String → Option Value → Bool
is_text text none = false
is_text text (some v) = elim (as_str v) [ none ↦ false | some s ↦ s == text ]

abbrev pub uncertain : Proof → Bool → Value → Bool
uncertain proof success value =
    not success || not (is_text "ok" (get "status" value)) || not (accepts proof value)

-- `Qdrant::mutation` after the request, with the counter.
unfoldable pub conclude : Proof → Answer → ℕ → Result Value × ℕ
conclude proof (err e) pending = (err e, pending)
conclude proof (ok (success, value)) pending =
    if uncertain proof success value
    then (err (upstream "Qdrant mutation completion is uncertain"), pending)
    else (ok value, complete pending)

-- The attempts that began, the last one first, each with its answer if it has come.
abbrev pub Attempts : Type 0
Attempts = List (Proof × Option Answer)

-- The answer of the attempt at an index; an attempt has one answer.
unfoldable pub answer : ℕ → Answer → ℕ → Attempts → ℕ × Attempts
answer i a pending [] = (pending, [])
answer zero a pending ((proof, none) ∷ attempts) =
    ((conclude proof a pending).1, (proof, some a) ∷ attempts)
answer zero a pending ((proof, some b) ∷ attempts) = (pending, (proof, some b) ∷ attempts)
answer (suc i) a pending (attempt ∷ attempts) =
    let (pending', attempts') = answer i a pending attempts in (pending', attempt ∷ attempts')

abbrev pub begun : ℕ → Attempts → Result Proof → ℕ × Attempts
begun pending attempts (err e) = (pending, attempts)
begun pending attempts (ok proof) = (begin pending, (proof, none) ∷ attempts)

pub data Event : Type 0 where
  requested : (method : Method) (path : String) (body : Option Value) → Event
  answered : ℕ → Answer → Event

unfoldable pub step : Event → ℕ × Attempts → ℕ × Attempts
step (requested method path body) (pending, attempts) =
    begun pending attempts (required_proof method path body)
step (answered i a) (pending, attempts) = answer i a pending attempts

-- The events of a request to the gateway, the last one first.
unfoldable pub run : List Event → ℕ × Attempts
run [] = (0, [])
run (event ∷ events) = step event (run events)
