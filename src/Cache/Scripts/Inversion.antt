-- ===== src/Cache/Scripts/Inversion.antt =====
-- What a reply of each script says of the store that it ran on.
use qdrant_es_gateway.Prelude.{
  ℕ, ◌*◌, ◌≤◌, ◌≡◌, ◌≢◌, refl, Bool, true, false, not, ◌&&◌, ◌||◌, List, [], ◌∷◌, ◌++◌, Option,
  none, some, length, arith, codes, ◌⊎◌,
}
use qdrant_es_gateway.Cache.Bytes.{Bytes, bytes_eq_iff, strip_prefix-eq}
use qdrant_es_gateway.Cache.Epoch.{decimal, next_epoch, max_epoch}
use qdrant_es_gateway.Cache.Store.{
  Slot, text, hash, Store, exists, is_persistent, is_text, hget, hdel, set_entry,
}
use qdrant_es_gateway.Cache.Scripts.{
  Control, ◌>>=◌, guard, ◌>>◌, field_is, validate, validate_slots, count_is_four, token_fields,
  header, lookup_entry, lookup_script, lookup_body, cached_response, lookup_miss, admit_body,
  release_body, status_script, status_body, publish_script, publish_body, writer_field,
  admit_fields, with_control, admit_script, release_script,
}

pub >>=-eq-some {ℓ κ} :
    {A : Type ℓ} {B : Type κ} (m : Option A) (f : A → Option B) {b : B}
    → (m >>= f) ≡ some b
    → (a : A) × (m ≡ some a) × (f a ≡ some b)
>>=-eq-some none f h = cc
>>=-eq-some (some a) f h = (a, refl, h)

pub guard-eq-some {ℓ} :
    {B : Type ℓ} (g : Bool) (k : Option B) {b : B}
    → (guard g >> k) ≡ some b
    → (g ≡ true) × (k ≡ some b)
guard-eq-some true k h = (refl, h)
guard-eq-some false k h = cc

pub field_is-eq : (o : Option Bytes) (b : Bytes) → field_is o b ≡ true → o ≡ some b
field_is-eq none b h = cc
field_is-eq (some a) b h = ground (arith, bytes_eq_iff a b)

-- What VALIDATE has checked of the keys.
pub record IsValidated (maintenance : Bool) (schema deployment : Bytes) (control catalog : Slot)
    (c : Control) : Type 0 where
  pub control_slot : control ≡ hash none c.fields
  pub catalog_slot : (is_text catalog && is_persistent catalog) ≡ true
  pub schema_field : hget (codes "schema") c.fields ≡ some schema
  pub deployment_field : hget (codes "deployment") c.fields ≡ some deployment
  pub epoch_field : hget (codes "epoch") c.fields ≡ some c.epoch
  pub epoch_decimal : decimal (some c.epoch) ≡ true
  pub state_field : hget (codes "state") c.fields ≡ some c.state
  pub state_known :
      (c.state ≡ codes "active") ⊎ ((maintenance ≡ true) × (c.state ≡ codes "maintenance"))
  pub full : 4 ≤ length c.fields

validate_slots-IsValidated :
    (m : Bool) (schema deployment : Bytes) (control catalog : Slot) {c : Control}
    → validate_slots m schema deployment control catalog ≡ some c
    → IsValidated m schema deployment control catalog c
unfolding validate_slots
validate_slots-IsValidated m schema deployment (hash none h) catalog {c} e = ground (
  arith,
  field_is-eq (hget (codes "schema") h) schema,
  field_is-eq (hget (codes "deployment") h) deployment,
  field_is-eq (hget (codes "state") h) (codes "active"),
  field_is-eq (hget (codes "state") h) (codes "maintenance"),
)
validate_slots-IsValidated m schema deployment _ catalog e = cc

pub validate-IsValidated :
    (m : Bool) (schema deployment : Bytes) (s : Store) {c : Control}
    → validate m schema deployment s ≡ some c
    → IsValidated m schema deployment s.control s.catalog c
unfolding validate
validate-IsValidated m schema deployment s h =
    validate_slots-IsValidated m schema deployment s.control s.catalog h

-- PUBLISH leaves the store alone, or it stores the response under the epoch of a quiet control hash.
pub record IsStored (schema deployment semantic epoch response : Bytes) (ttl_seconds : ℕ)
    (key : Bytes) (s s' : Store) (c : Control) : Type 0 where
  pub validated : validate false schema deployment s ≡ some c
  pub quiet : count_is_four c ≡ true
  pub unclaimed : exists s.admin ≡ false
  pub current : c.epoch ≡ epoch
  pub stored :
      s'
      ≡ set_entry key
          (text (some (ttl_seconds * 1000)) (header deployment semantic c.epoch ++ response))
          s

publish_body_inv :
    (replicates : Bool) (schema deployment semantic epoch response : Bytes) (max ttl_seconds : ℕ)
    (key : Bytes) (c : Control) (s : Store) {reply : List Bytes} {s' : Store}
    → validate false schema deployment s ≡ some c
    → publish_body replicates deployment semantic epoch response max ttl_seconds key c s
      ≡ some (reply, s')
    → ((reply ≡ codes "skip" ∷ []) × (s' ≡ s))
      ⊎ ((reply ≡ codes "ok" ∷ [])
          × IsStored schema deployment semantic epoch response ttl_seconds key s s' c)
unfolding publish_body
publish_body_inv replicates schema deployment semantic epoch response max ttl_seconds key c s v h =
    ground (arith, bytes_eq_iff c.epoch epoch)

pub publish_inv :
    (replicates : Bool) (schema deployment semantic epoch response : Bytes) (max ttl_seconds : ℕ)
    (key : Bytes) (s : Store) {reply : List Bytes} {s' : Store}
    → publish_script replicates schema deployment semantic epoch response max ttl_seconds key s
      ≡ some (reply, s')
    → (c : Control) × (((reply ≡ codes "skip" ∷ []) × (s' ≡ s))
        ⊎ ((reply ≡ codes "ok" ∷ [])
            × IsStored schema deployment semantic epoch response ttl_seconds key s s' c))
unfolding publish_script
publish_inv replicates schema deployment semantic epoch response max ttl_seconds key s h =
    let (c, v, body) = >>=-eq-some (validate false schema deployment s) _ h in
    (
      c,
      publish_body_inv replicates schema deployment semantic epoch response max ttl_seconds key c s
          v body,
    )

-- A hit of LOOKUP is the entry behind the header of the current epoch.
pub record IsHit (schema deployment semantic epoch response key : Bytes) (s s' : Store)
    (c : Control) : Type 0 where
  pub validated : validate false schema deployment s ≡ some c
  pub quiet : count_is_four c ≡ true
  pub unclaimed : exists s.admin ≡ false
  pub current : epoch ≡ c.epoch
  pub same : s' ≡ s
  pub ttl : ℕ
  pub found : s.entry key ≡ text (some ttl) (header deployment semantic c.epoch ++ response)

cached_response_inv :
    (prefix : Bytes) (max : ℕ) (slot : Slot) {response : Bytes}
    → cached_response prefix max slot ≡ some response
    → (ttl : ℕ) × (slot ≡ text (some ttl) (prefix ++ response))
unfolding cached_response
cached_response_inv prefix max (text (some ttl) value) {response} h =
    (ttl, ground (arith, strip_prefix-eq prefix value {r = response}))
cached_response_inv prefix max _ h = cc

lookup_miss-tag :
    (catalog_max : ℕ) (c : Control) (s : Store) {epoch response : Bytes} {s' : Store}
    → lookup_miss catalog_max c s ≢ some (codes "hit" ∷ epoch ∷ response ∷ [], s')
lookup_miss-tag catalog_max c s h = ground arith

lookup_entry_inv :
    (prefix : Bytes) (max catalog_max : ℕ) (key : Bytes) (c : Control) (s : Store)
    {epoch response : Bytes} {s' : Store}
    → lookup_entry prefix max catalog_max key c s ≡ some (codes "hit" ∷ epoch ∷ response ∷ [], s')
    → (epoch ≡ c.epoch) × (s' ≡ s) × (cached_response prefix max (s.entry key) ≡ some response)
unfolding lookup_entry
lookup_entry_inv prefix max catalog_max key c s {epoch} {response} {s'} h =
    ground (arith, lookup_miss-tag catalog_max c s {epoch = epoch} {response = response} {s' = s'})

lookup_body_inv :
    (schema deployment semantic : Bytes) (max catalog_max : ℕ) (key : Bytes) (c : Control)
    (s : Store) {epoch response : Bytes} {s' : Store}
    → validate false schema deployment s ≡ some c
    → lookup_body deployment semantic max catalog_max key c s
      ≡ some (codes "hit" ∷ epoch ∷ response ∷ [], s')
    → IsHit schema deployment semantic epoch response key s s' c
unfolding lookup_body
lookup_body_inv schema deployment semantic max catalog_max key c s {epoch} {response} {s'} v h =
    let prefix = header deployment semantic c.epoch in
    let (quiet, h') = quiet_entry in
    let (e, same, cached) = lookup_entry_inv prefix max catalog_max key c s h' in
    let (ttl, found) = cached_response_inv prefix max (s.entry key) cached in
    record {
      validated = v;
      quiet = ground arith;
      unclaimed = ground arith;
      current = e;
      same = same;
      ttl = ttl;
      found = found;
    }
  where
    quiet_entry :
        ((not (count_is_four c) || exists s.admin) ≡ false)
        × (lookup_entry (header deployment semantic c.epoch) max catalog_max key c s
            ≡ some (codes "hit" ∷ epoch ∷ response ∷ [], s'))
    quiet_entry = (ground arith, ground arith)

pub lookup_inv :
    (schema deployment semantic : Bytes) (max catalog_max : ℕ) (key : Bytes) (s : Store)
    {epoch response : Bytes} {s' : Store}
    → lookup_script schema deployment semantic max catalog_max key s
      ≡ some (codes "hit" ∷ epoch ∷ response ∷ [], s')
    → (c : Control) × IsHit schema deployment semantic epoch response key s s' c
unfolding lookup_script
lookup_inv schema deployment semantic max catalog_max key s h =
    let (c, v, body) = >>=-eq-some (validate false schema deployment s) _ h in
    (c, lookup_body_inv schema deployment semantic max catalog_max key c s v body)

-- ADMIT records its token and the next epoch together.
pub record IsAdmitted (schema deployment token state : Bytes) (s : Store) (reply : List Bytes)
    (s' : Store) (c : Control) : Type 0 where
  pub validated : validate false schema deployment s ≡ some c
  pub unclaimed : exists s.admin ≡ false
  pub below : c.epoch ≢ max_epoch
  pub new : hget (writer_field token) c.fields ≡ none
  pub reply_eq : reply ≡ codes "ok" ∷ next_epoch c.epoch ∷ []
  pub store_eq : s' ≡ with_control (admit_fields (next_epoch c.epoch) token state c.fields) s

admit_body_inv :
    (schema deployment token state : Bytes) (c : Control) (s : Store) {reply : List Bytes}
    {s' : Store}
    → validate false schema deployment s ≡ some c
    → admit_body token state c s ≡ some (reply, s')
    → IsAdmitted schema deployment token state s reply s' c
unfolding admit_body
admit_body_inv schema deployment token state c s {reply} {s'} v h =
    ground (arith, bytes_eq_iff c.epoch max_epoch)

pub admit_inv :
    (schema deployment token state : Bytes) (s : Store) {reply : List Bytes} {s' : Store}
    → admit_script schema deployment token state s ≡ some (reply, s')
    → (c : Control) × IsAdmitted schema deployment token state s reply s' c
unfolding admit_script
admit_inv schema deployment token state s h =
    let (c, v, body) = >>=-eq-some (validate false schema deployment s) _ h in
    (c, admit_body_inv schema deployment token state c s v body)

-- RELEASE removes one token, and only for its own epoch.
pub record IsReleased (schema deployment token epoch : Bytes) (s s' : Store) (c : Control)
    : Type 0 where
  pub validated : validate true schema deployment s ≡ some c
  pub owned : hget (writer_field token) c.fields ≡ some epoch
  pub store_eq : s' ≡ with_control (hdel (writer_field token) c.fields) s

release_body_inv :
    (schema deployment token epoch : Bytes) (c : Control) (s : Store) {reply : List Bytes}
    {s' : Store}
    → validate true schema deployment s ≡ some c
    → release_body token epoch c s ≡ some (reply, s')
    → IsReleased schema deployment token epoch s s' c
unfolding release_body
release_body_inv schema deployment token epoch c s {reply} {s'} v h =
    ground (arith, field_is-eq (hget (writer_field token) c.fields) epoch)

pub release_inv :
    (schema deployment token epoch : Bytes) (s : Store) {reply : List Bytes} {s' : Store}
    → release_script schema deployment token epoch s ≡ some (reply, s')
    → (c : Control) × IsReleased schema deployment token epoch s s' c
unfolding release_script
release_inv schema deployment token epoch s h =
    let (c, v, body) = >>=-eq-some (validate true schema deployment s) _ h in
    (c, release_body_inv schema deployment token epoch c s v body)

-- LOOKUP and STATUS only read.
lookup_miss_reads :
    (catalog_max : ℕ) (c : Control) (s : Store) {reply : List Bytes} {s' : Store}
    → lookup_miss catalog_max c s ≡ some (reply, s')
    → s' ≡ s
lookup_miss_reads catalog_max c s h = ground arith

lookup_body_reads :
    (deployment semantic : Bytes) (max catalog_max : ℕ) (key : Bytes) (c : Control) (s : Store)
    {reply : List Bytes} {s' : Store}
    → lookup_body deployment semantic max catalog_max key c s ≡ some (reply, s')
    → s' ≡ s
unfolding lookup_body lookup_entry
lookup_body_reads deployment semantic max catalog_max key c s {reply} {s'} h =
    ground (arith, lookup_miss_reads catalog_max c s {reply = reply} {s' = s'})

pub lookup_reads :
    (schema deployment semantic : Bytes) (max catalog_max : ℕ) (key : Bytes) (s : Store)
    {reply : List Bytes} {s' : Store}
    → lookup_script schema deployment semantic max catalog_max key s ≡ some (reply, s')
    → s' ≡ s
unfolding lookup_script
lookup_reads schema deployment semantic max catalog_max key s h =
    let (c, v, body) = >>=-eq-some (validate false schema deployment s) _ h in
    lookup_body_reads deployment semantic max catalog_max key c s body

pub status_reads :
    (schema deployment : Bytes) (s : Store) {reply : List Bytes} {s' : Store}
    → status_script schema deployment s ≡ some (reply, s')
    → s' ≡ s
unfolding status_script status_body
status_reads schema deployment s h =
    let (c, v, body) = >>=-eq-some (validate true schema deployment s) _ h in
    let (ids, t, last) = >>=-eq-some (token_fields c) _ body in ground arith

-- A ticket of LOOKUP, at a miss or at a hit, has the epoch of the control hash.
lookup_body_ticket :
    (deployment semantic : Bytes) (max catalog_max : ℕ) (key : Bytes) (c : Control) (s : Store)
    {tag epoch body : Bytes} {s' : Store}
    → lookup_body deployment semantic max catalog_max key c s ≡ some (tag ∷ epoch ∷ body ∷ [], s')
    → epoch ≡ c.epoch
unfolding lookup_body lookup_entry
lookup_body_ticket deployment semantic max catalog_max key c s {tag} {epoch} {body} {s'} h =
    ground arith

pub lookup_ticket :
    (schema deployment semantic : Bytes) (max catalog_max : ℕ) (key : Bytes) (s : Store)
    {tag epoch body : Bytes} {s' : Store}
    → lookup_script schema deployment semantic max catalog_max key s
      ≡ some (tag ∷ epoch ∷ body ∷ [], s')
    → (c : Control) × (validate false schema deployment s ≡ some c) × (epoch ≡ c.epoch)
unfolding lookup_script
lookup_ticket schema deployment semantic max catalog_max key s h =
    let (c, v, body) = >>=-eq-some (validate false schema deployment s) _ h in
    (c, v, lookup_body_ticket deployment semantic max catalog_max key c s body)
