-- ===== src/Mutations/Laws.antt =====
-- No request counts both as a read and as a write, and only completed attempts leave the counter.
use qdrant_es_gateway.Prelude.{
  ℕ, ◌≡◌, refl, ap, sym, ◌∙◌, String, true, false, not, ◌||◌, List, [], ◌∷◌, some, arith, eqb,
  if◌then◌else◌, Bool-cases, eq-cases, inl, inr,
}
use Prim.Native.Char.{Char, code}
use Prim.Native.String
use text.Mathlib.TextLemmas.{append_assoc, append-nil, cons-append, nil-append}
use qdrant_es_gateway.Parse.{split, split_from, contains, push}
use qdrant_es_gateway.Mutations.{
  Method, method_get, method_head, method_post, method_put, method_delete, other_method, Proof,
  classify, classify_parts, contains_any, is_read, is_read_parts, is_get_or_head, is_post, is_put,
  is_delete, clean_path,
}

push-append :
    (part : String) (c : Char) (s : String)
    → String.◌++◌ (push part c) s ≡ String.◌++◌ part (String.◌∷◌ c s)
push-append part c s =
    append_assoc part (String.◌∷◌ c String.[]) s
    ∙ ap (λ (t : String). String.◌++◌ part t)
        (cons-append c String.[] s ∙ ap (λ (t : String). String.◌∷◌ c t) (nil-append s))

split_from-no_mark :
    (mark : ℕ) (part s : String)
    → contains mark s ≡ false
    → split_from mark part s ≡ String.◌++◌ part s ∷ []
unfolding split_from contains
split_from-no_mark mark part String.[] h = ap (λ (t : String). t ∷ []) (sym (append-nil part))
split_from-no_mark mark part (String.◌∷◌ c s) h = elim (Bool-cases (eqb (code c) mark)) [
  | inl e ↦ absurd (ground arith)
  | inr e ↦ rw e (
      split_from-no_mark mark (push part c) s (rw e at h)
      ∙ ap (λ (t : String). t ∷ []) (push-append part c s))
]

clean_path-plain : (path : String) → contains b'?' path ≡ false → clean_path path ≡ path
unfolding split
clean_path-plain path h = rw (split_from-no_mark b'?' "" path h, clean_path) (nil-append path)

post_parts :
    (parts : List String) {proof : Proof}
    → classify_parts method_post parts ≡ some proof
    → is_read_parts parts ≡ false
unfolding classify_parts is_read_parts
post_parts [] h = refl
post_parts (a ∷ []) h = refl
post_parts (a ∷ b ∷ []) h = refl
post_parts (a ∷ b ∷ c ∷ []) h = refl
post_parts (a ∷ b ∷ c ∷ d ∷ []) h = absurd (ground arith)
post_parts (a ∷ b ∷ c ∷ d ∷ e ∷ []) h = elim (eq-cases e "delete") [
  | inl (t, same) ↦ rw same (ground arith)
  | inr (t, other) ↦ elim (eq-cases e "payload") [
    | inl (t', same) ↦ rw same (ground arith)
    | inr (t', other') ↦ absurd (ground arith)
  ]
]
post_parts (a ∷ b ∷ c ∷ d ∷ e ∷ f ∷ fs) h = cc

classified :
    (method : Method) (path : String) {proof : Proof}
    → classify method path ≡ some proof
    → classify_parts method (split b'/' path) ≡ some proof
unfolding classify
classified method path h = ground arith

neither_parts :
    (parts : List String) (method : Method) {proof : Proof}
    → is_put method ≡ false
    → is_delete method ≡ false
    → is_post method ≡ false
    → classify_parts method parts ≡ some proof
    → ⊥
unfolding classify_parts
neither_parts [] method a b c h = cc
neither_parts (d ∷ []) method a b c h = cc
neither_parts (d ∷ e ∷ []) method a b c h = cc
neither_parts (d ∷ e ∷ f ∷ []) method a b c h = ground arith
neither_parts (d ∷ e ∷ f ∷ g ∷ []) method a b c h = ground arith
neither_parts (d ∷ e ∷ f ∷ g ∷ k ∷ []) method a b c h = ground arith
neither_parts (d ∷ e ∷ f ∷ g ∷ k ∷ l ∷ ls) method a b c h = cc

by_method :
    (method : Method) (path : String) (parts : List String) {proof : Proof}
    → classify_parts method parts ≡ some proof
    → (if is_get_or_head method
        then true
        else if not (is_post method) || contains_any (b'#' ∷ b'%' ∷ []) path
        then false
        else is_read_parts parts)
      ≡ false
by_method method_get path parts h = absurd (neither_parts parts method_get refl refl refl h)
by_method method_head path parts h = absurd (neither_parts parts method_head refl refl refl h)
by_method method_post path parts h = ground (arith, post_parts parts h)
by_method method_put path parts h = refl
by_method method_delete path parts h = refl
by_method other_method path parts h = refl

-- A request that must bring a proof of its completion never passes as a read.
pub classify-is_read :
    (method : Method) (path : String) {proof : Proof}
    → classify method path ≡ some proof
    → is_read method path ≡ false
unfolding classify is_read
classify-is_read method path h = elim (Bool-cases (contains b'?' path)) [
  | inl e ↦ absurd (ground arith)
  | inr e ↦
      rw (clean_path-plain path e)
        (by_method method path (split b'/' path) (classified method path h))
]
