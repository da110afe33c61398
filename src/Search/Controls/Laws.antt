-- ===== src/Search/Controls/Laws.antt =====
-- Exactly the requests without unsupported controls are accepted.
use qdrant_es_gateway.Prelude.{
  ◌≡◌, refl, ◌∙◌, String, Bool, true, false, ◌&&◌, List, [], ◌∷◌, Option, none, some, all, is_empty,
  arith,
}
use qdrant_es_gateway.Errors.{Result, ok, err, ◌>>◌, for_each, is_ok}
use qdrant_es_gateway.Json.{Value, get, as_bool, as_object, as_array}
use qdrant_es_gateway.Search.Controls.{
  check_script_fields, check_docvalue_fields, check_flag, check_absent, flags, controls,
  validate_search_execution_controls,
}

abbrev pub empty_or_absent : (Value → Bool) → Option Value → Bool
empty_or_absent empty none = true
empty_or_absent empty (some v) = empty v

abbrev no_fields : Option (List (String × Value)) → Bool
no_fields none = false
no_fields (some m) = is_empty m

abbrev no_values : Option (List Value) → Bool
no_values none = false
no_values (some vs) = is_empty vs

abbrev pub is_empty_object : Value → Bool
is_empty_object v = no_fields (as_object v)

abbrev pub is_empty_array : Value → Bool
is_empty_array v = no_values (as_array v)

abbrev is_false : Option Bool → Bool
is_false (some false) = true
is_false _ = false

abbrev pub absent : Option Value → Bool
absent none = true
absent (some v) = false

abbrev pub switched_off : Option Value → Bool
switched_off none = true
switched_off (some v) = is_false (as_bool v)

is_ok-then : (a b : Result (Unit {0})) → is_ok (a >> b) ≡ (is_ok a && is_ok b)
is_ok-then (ok u) b = refl
is_ok-then (err e) b = refl

is_ok-chain :
    (a b c d : Result (Unit {0}))
    → is_ok (a >> (b >> (c >> d))) ≡ (is_ok a && (is_ok b && (is_ok c && is_ok d)))
is_ok-chain (err e) b c d = refl
is_ok-chain (ok u) (err e) c d = refl
is_ok-chain (ok u) (ok v) (err e) d = refl
is_ok-chain (ok u) (ok v) (ok w) d = refl

is_ok-for_each :
    (f : String × String → Result (Unit {0})) (p : String → Bool)
    → ((c : String × String) → is_ok (f c) ≡ p c.0)
    → (cs : List (String × String)) → is_ok (for_each f cs) ≡ all (λ c. p c.0) cs
is_ok-for_each f p h [] = refl
is_ok-for_each f p h (c ∷ cs) =
    is_ok-then (f c) (for_each f cs) ∙ rw (h c, is_ok-for_each f p h cs) refl

script_fields-ok :
    (o : Option Value) → is_ok (check_script_fields o) ≡ empty_or_absent is_empty_object o
unfolding check_script_fields
script_fields-ok none = refl
script_fields-ok (some v) = ground arith

docvalue_fields-ok :
    (o : Option Value) → is_ok (check_docvalue_fields o) ≡ empty_or_absent is_empty_array o
unfolding check_docvalue_fields
docvalue_fields-ok none = refl
docvalue_fields-ok (some v) = ground arith

flag-ok :
    (body : Value) (c : String × String) → is_ok (check_flag body c) ≡ switched_off (get c.0 body)
unfolding check_flag
flag-ok body c = ground arith

absent-ok :
    (body : Value) (c : String × String) → is_ok (check_absent body c) ≡ absent (get c.0 body)
unfolding check_absent
absent-ok body c = ground arith

-- A request is accepted exactly if `script_fields` is absent or an empty object, `docvalue_fields` is
-- absent or an empty array, `version`, `seq_no_primary_term`, `profile` and `explain` are absent or
-- false, and `min_score`, `terminate_after`, `timeout` and `highlight` are absent.
pub controls_lem :
    (body : Value)
    → is_ok (validate_search_execution_controls body) ≡ (
        empty_or_absent is_empty_object (get "script_fields" body)
        && (empty_or_absent is_empty_array (get "docvalue_fields" body)
            && (all
                  (λ key. switched_off (get key body))
                  ("version" ∷ "seq_no_primary_term" ∷ "profile" ∷ "explain" ∷ [])
                && all
                    (λ key. absent (get key body))
                    ("min_score" ∷ "terminate_after" ∷ "timeout" ∷ "highlight" ∷ []))))
unfolding validate_search_execution_controls
controls_lem body =
    is_ok-chain (check_script_fields (get "script_fields" body))
      (check_docvalue_fields (get "docvalue_fields" body)) (for_each (check_flag body) flags)
      (for_each (check_absent body) controls)
    ∙ rw
        (
          script_fields-ok (get "script_fields" body),
          docvalue_fields-ok (get "docvalue_fields" body),
          is_ok-for_each (check_flag body) (λ k. switched_off (get k body)) (flag-ok body) flags,
          is_ok-for_each (check_absent body) (λ k. absent (get k body)) (absent-ok body) controls,
        )
        refl
