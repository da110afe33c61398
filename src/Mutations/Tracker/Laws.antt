-- ===== src/Mutations/Tracker/Laws.antt =====
-- The counter is zero exactly if all writes are proved to have completed.
use qdrant_es_gateway.Prelude.{
  ℕ, suc, zero, ◌+◌, ◌%◌, ◌^◌, ◌<◌, ◌≤◌, ◌≡◌, ◌↔◌, refl, sym, ◌∙◌, String, Bool, true, false, not,
  List, [], ◌∷◌, length, Option, none, some, if◌then◌else◌, eqb_iff, All, Bool-cases, Option-cases,
  eq-cases, ap, ◌||◌, inl, inr, arith,
}
use qdrant_es_gateway.Errors.{Result, ok, err}
use qdrant_es_gateway.Json.{Value, null, bool, number, string, array, object, get}
use qdrant_es_gateway.Mutations.{Proof, completed, collection_boolean, accepts}
use qdrant_es_gateway.Mutations.Tracker.{
  begin, begun, complete, is_complete, required_proof, Answer, uncertain, is_text, conclude,
  Attempts, answer, Event, requested, answered, step, run,
}

-- What the value of an answer must hold.
abbrev pub Confirms : Proof → Value → Type 0
Confirms completed value =
    (result : Value) × (get "result" value ≡ some result)
    × (get "status" result ≡ some (string "completed"))
Confirms collection_boolean value = get "result" value ≡ some (bool true)

-- The write was answered with success, the status "ok" and its proof.
abbrev pub IsProved : Proof × Option Answer → Type 0
IsProved (proof, none) = ⊥
IsProved (proof, some (err e)) = ⊥
IsProved (proof, some (ok (success, value))) =
    (success ≡ true) × (get "status" value ≡ some (string "ok")) × Confirms proof value

abbrev is_proved : Proof × Option Answer → Bool
is_proved (proof, none) = false
is_proved (proof, some (err e)) = false
is_proved (proof, some (ok (success, value))) = not (uncertain proof success value)

is_text_iff :
    (text : String) (o : Option Value) → (is_text text o ≡ true) ↔ (o ≡ some (string text))
is_text_iff text none = (λ h. ground arith, λ h. ground arith)
is_text_iff text (some null) = (λ h. ground arith, λ h. ground arith)
is_text_iff text (some (bool b)) = (λ h. ground arith, λ h. ground arith)
is_text_iff text (some (number n)) = (λ h. ground arith, λ h. ground arith)
is_text_iff text (some (array xs)) = (λ h. ground arith, λ h. ground arith)
is_text_iff text (some (object fs)) = (λ h. ground arith, λ h. ground arith)
is_text_iff text (some (string s)) = elim (eq-cases s text) [
  | inl (e, path) ↦ (λ h. ap (λ t. some (string t)) path, λ h. e)
  | inr (e, distinct) ↦ (λ h. absurd (ground arith), λ h. absurd (distinct (ground arith)))
]

accepts-some :
    (value result : Value)
    → get "result" value ≡ some result
    → accepts completed value ≡ is_text "completed" (get "status" result)
unfolding accepts
accepts-some value result e = rw (accepts, e) (ground arith)

accepts-none : (value : Value) → get "result" value ≡ none → accepts completed value ≡ false
unfolding accepts
accepts-none value e = rw (accepts, e) refl

accepts_iff : (proof : Proof) (value : Value) → (accepts proof value ≡ true) ↔ Confirms proof value
unfolding accepts
accepts_iff completed value = (
  λ h. elim (Option-cases (get "result" value)) [
    | inl e ↦ absurd (ground (arith, accepts-none value e))
    | inr (result, e) ↦ (
      result,
      e,
      (is_text_iff "completed" (get "status" result)).0 (sym (accepts-some value result e) ∙ h),
    )
  ],
  λ (result, e, status).
      accepts-some value result e ∙ (is_text_iff "completed" (get "status" result)).1 status,
)
accepts_iff collection_boolean value = (λ h. ground arith, λ h. ground arith)

certain :
    (success ok' accepted : Bool)
    → not (not success || not ok' || not accepted) ≡ true
    → (success ≡ true) × (ok' ≡ true) × (accepted ≡ true)
certain true true true h = (refl, refl, refl)
certain true true false h = ground arith
certain true false a h = ground arith
certain false o a h = ground arith

is_proved_iff : (a : Proof × Option Answer) → (is_proved a ≡ true) ↔ IsProved a
is_proved_iff (proof, none) = (λ h. ground arith, λ h. absurd h)
is_proved_iff (proof, some (err e)) = (λ h. ground arith, λ h. absurd h)
is_proved_iff (proof, some (ok (success, value))) = (
  λ h.
      let (a, b, c) = certain success (is_text "ok" (get "status" value)) (accepts proof value) h in
      (a, (is_text_iff "ok" (get "status" value)).0 b, (accepts_iff proof value).0 c),
  λ (a, b, c).
      rw (a, (is_text_iff "ok" (get "status" value)).1 b, (accepts_iff proof value).1 c) refl,
)

-- The attempts that are not proved.
abbrev unproved : Attempts → ℕ
unproved [] = 0
unproved (a ∷ attempts) = (if is_proved a then 0 else 1) + unproved attempts

begin_lem : (n pending : ℕ) → pending ≡ (0 + n) % 2 ^ 64 → begin pending ≡ (0 + (1 + n)) % 2 ^ 64
unfolding begin
begin_lem n pending e = omega (arith, e)

complete_lem :
    (before n pending : ℕ)
    → pending ≡ (before + (1 + n)) % 2 ^ 64
    → complete pending ≡ (before + (0 + n)) % 2 ^ 64
unfolding complete
complete_lem before n pending e = omega (arith, e)

conclude_lem :
    (proof : Proof) (a : Answer) (before n pending : ℕ)
    → pending ≡ (before + (1 + n)) % 2 ^ 64
    → (conclude proof a pending).1
      ≡ (before + ((if is_proved (proof, some a) then 0 else 1) + n)) % 2 ^ 64
unfolding conclude
conclude_lem proof (err e) before n pending h = h
conclude_lem proof (ok (success, value)) before n pending h =
    elim (Bool-cases (uncertain proof success value)) [
      | inl e ↦ rw e h
      | inr e ↦ rw e (complete_lem before n pending h)
    ]

-- `before` counts the unproved attempts that are later in the list.
answer-unproved :
    (i : ℕ) (a : Answer) (attempts : Attempts) (before pending : ℕ)
    → pending ≡ (before + unproved attempts) % 2 ^ 64
    → (answer i a pending attempts).0 ≡ (before + unproved (answer i a pending attempts).1) % 2 ^ 64
unfolding answer
answer-unproved i a [] before pending e = e
answer-unproved zero a ((proof, none) ∷ attempts) before pending e =
    conclude_lem proof a before (unproved attempts) pending e
answer-unproved zero a ((proof, some b) ∷ attempts) before pending e = e
answer-unproved (suc i) a ((proof, o) ∷ attempts) before pending e =
    let first = if is_proved (proof, o) then 0 else 1 in
    let h = answer-unproved i a attempts (before + first) pending (omega (arith, e)) in
    omega (arith, h)

begun-unproved :
    (r : Result Proof) (attempts : Attempts) (pending : ℕ)
    → pending ≡ (0 + unproved attempts) % 2 ^ 64
    → (begun pending attempts r).0 ≡ (0 + unproved (begun pending attempts r).1) % 2 ^ 64
begun-unproved (ok proof) attempts pending e = begin_lem (unproved attempts) pending e
begun-unproved (err e') attempts pending e = e

-- The counter is the number of unproved attempts, modulo the size of a word.
run-unproved : (events : List Event) → (run events).0 ≡ (0 + unproved (run events).1) % 2 ^ 64
unfolding run step
run-unproved [] = refl
run-unproved (requested method path body ∷ events) =
    let (pending, attempts) = run events in
    begun-unproved (required_proof method path body) attempts pending (run-unproved events)
run-unproved (answered i a ∷ events) =
    let (pending, attempts) = run events in
    answer-unproved i a attempts 0 pending (run-unproved events)

unproved-length : (attempts : Attempts) → unproved attempts ≤ length attempts
unproved-length [] = omega arith
unproved-length (a ∷ attempts) = ground (arith, unproved-length attempts)

unproved_iff : (attempts : Attempts) → (unproved attempts ≡ 0) ↔ All IsProved attempts
unproved_iff [] = (λ h. tt, λ h. refl)
unproved_iff (a ∷ attempts) =
    let (to, from) = unproved_iff attempts in
    let (found, holds) = is_proved_iff a in
    elim (Bool-cases (is_proved a)) [
      | inl e ↦ (λ h. (found e, to (ground arith)), λ (p, h). ground (arith, from h))
      | inr e ↦ (λ h. absurd (ground arith), λ (p, h). absurd (ground (arith, holds p)))
    ]

-- After any sequence of requests and answers, overlapping in any order, in which fewer than 2^64
-- writes began: the counter says complete exactly if every write that began was answered with
-- success, the status "ok", and the result that its kind of write calls for, `true` for a collection
-- and the status "completed" for points and indices.
pub is_complete_iff :
    (events : List Event)
    → length (run events).1 < 2 ^ 64
    → (is_complete (run events).0 ≡ true) ↔ All IsProved (run events).1
unfolding is_complete
is_complete_iff events few =
    let (pending, attempts) = run events in
    let counted = run-unproved events in
    let (to, from) = unproved_iff attempts in
    let (zero', is_zero) = eqb_iff pending 0 in
    let bound = unproved-length attempts in
    (
      λ h. to (omega (arith, zero' h, counted, bound, few)),
      λ h. is_zero (omega (arith, from h, counted, bound, few)),
    )
