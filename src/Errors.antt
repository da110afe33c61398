-- ===== src/Errors.antt =====
-- `GatewayError` of src/main.rs, the results that carry it, and chains of fallible steps.
use qdrant_es_gateway.Prelude.{
  ℕ, ◌≡◌, refl, String, Bool, true, false, List, [], ◌∷◌, Option, none, some, arith,
}

pub data GatewayError : Type 0 where
  bad : (feature message : String) → GatewayError
  not_found : String → GatewayError
  aliases_not_found : (aliases : List String) → GatewayError
  document_not_found : (index id : String) → GatewayError
  version_conflict : (index id : String) → GatewayError
  index_already_exists : (index : String) → GatewayError
  invalid_index_name : (index reason : String) → GatewayError
  illegal_argument : String → GatewayError
  payload_too_large : (setting : String) (limit : ℕ) → GatewayError
  upstream : String → GatewayError
  internal : String → GatewayError

-- `GatewayError::status`.
unfoldable pub status : GatewayError → ℕ
status (bad feature message) = 400
status (not_found message) = 404
status (aliases_not_found aliases) = 404
status (document_not_found index id) = 404
status (version_conflict index id) = 409
status (index_already_exists index) = 400
status (invalid_index_name index reason) = 400
status (illegal_argument reason) = 400
status (payload_too_large setting limit) = 413
status (upstream message) = 502
status (internal message) = 500

pub data Result {ℓ} (A : Type ℓ) : Type ℓ where
  ok : A → Result A
  err : GatewayError → Result A

infixl 5 ◌>>=◌ ◌>>◌
abbrev pub ◌>>=◌ {ℓ κ} : {A : Type ℓ} {B : Type κ} → Result A → (A → Result B) → Result B
ok value >>= next = next value
err e >>= next = err e

abbrev pub ◌>>◌ {ℓ} : {B : Type ℓ} → Result (Unit {0}) → Result B → Result B
r >> next = r >>= λ _. next

-- `if refused { return Err(e) }`.
abbrev pub refuse : Bool → GatewayError → Result (Unit {0})
refuse true e = err e
refuse false e = ok tt

-- `Option::ok_or_else`.
abbrev pub ok_or {ℓ} : {A : Type ℓ} → Option A → GatewayError → Result A
ok_or none e = err e
ok_or (some a) e = ok a

abbrev pub is_ok {ℓ} : {A : Type ℓ} → Result A → Bool
is_ok (ok a) = true
is_ok (err e) = false

-- A loop whose body may return an error.
abbrev pub for_each {ℓ} : {A : Type ℓ} → (A → Result (Unit {0})) → List A → Result (Unit {0})
for_each f [] = ok tt
for_each f (a ∷ as_) = f a >> for_each f as_

pub >>=-eq-ok {ℓ κ} :
    {A : Type ℓ} {B : Type κ} (r : Result A) (f : A → Result B) {b : B}
    → (r >>= f) ≡ ok b
    → (a : A) × (r ≡ ok a) × (f a ≡ ok b)
>>=-eq-ok (ok a) f h = (a, refl, h)
>>=-eq-ok (err e) f h = cc

pub refuse-eq-ok {ℓ} :
    {B : Type ℓ} (b : Bool) (e : GatewayError) (k : Result B) {a : B}
    → (refuse b e >> k) ≡ ok a
    → (b ≡ false) × (k ≡ ok a)
refuse-eq-ok true e k h = cc
refuse-eq-ok false e k h = (refl, h)

pub ok_or-eq-ok {ℓ} :
    {A : Type ℓ} (o : Option A) (e : GatewayError) {a : A} → ok_or o e ≡ ok a → o ≡ some a
ok_or-eq-ok none e h = cc
ok_or-eq-ok (some a) e h = ground arith
