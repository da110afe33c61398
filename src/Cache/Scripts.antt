-- ===== src/Cache/Scripts.antt =====
-- The Lua scripts of src/read_cache.rs that the gateway runs while it serves: VALIDATE in front of
-- LOOKUP, PUBLISH, ADMIT, RELEASE and STATUS. Redis runs a script as one step. `fail()` is `none`;
-- no script fails after its first write. A number that the client passes as decimal text
-- (`tonumber`) is passed as a number here.
pub mod Inversion
use qdrant_es_gateway.Prelude.{
  ℕ, ◌+◌, ◌*◌, Bool, true, false, not, ◌&&◌, ◌||◌, List, [], ◌∷◌, ◌++◌, Option, none, some,
  if◌then◌else◌, length, ltb, leb, eqb, all, codes, is_empty,
}
use qdrant_es_gateway.Cache.Bytes.{Bytes, bytes_eq, strip_prefix}
use qdrant_es_gateway.Cache.Epoch.{decimal, le, next_epoch, max_epoch, is_digit}
use qdrant_es_gateway.Cache.Store.{
  Hash, Slot, text, hash, Store, exists, is_persistent, is_text, hget, hset, hdel, set_entry,
}

-- What VALIDATE leaves in scope for the script behind it.
pub record Control : Type 0 where
  pub fields : Hash
  pub epoch : Bytes
  pub state : Bytes

infixl 5 ◌>>=◌
abbrev pub ◌>>=◌ {ℓ κ} : {A : Type ℓ} {B : Type κ} → Option A → (A → Option B) → Option B
none >>= f = none
some a >>= f = f a

abbrev pub guard : Bool → Option (Unit {0})
guard true = some tt
guard false = none

infixl 5 ◌>>◌
abbrev pub ◌>>◌ {ℓ} : {B : Type ℓ} → Option (Unit {0}) → Option B → Option B
m >> k = m >>= λ _. k

abbrev pub missing : Option Bytes → Bool
missing none = true
missing (some b) = false

-- A field of the hash that is compared with a text (`fields[i] ~= ARGV[j]`).
abbrev pub field_is : Option Bytes → Bytes → Bool
field_is none b = false
field_is (some a) b = bytes_eq a b

-- VALIDATE, on the types and values of KEYS[1] and KEYS[2].
unfoldable pub validate_slots : Bool → Bytes → Bytes → Slot → Slot → Option Control
validate_slots allow_maintenance schema deployment (hash none fields) catalog = do
  guard (is_text catalog && is_persistent catalog)
  guard (field_is (hget (codes "schema") fields) schema)
  guard (field_is (hget (codes "deployment") fields) deployment)
  guard (decimal (hget (codes "epoch") fields))
  guard (
      field_is (hget (codes "state") fields) (codes "active")
      || (allow_maintenance && field_is (hget (codes "state") fields) (codes "maintenance")))
  epoch ← hget (codes "epoch") fields
  state ← hget (codes "state") fields
  guard (leb 4 (length fields))
  some (record { fields = fields; epoch = epoch; state = state })
validate_slots allow_maintenance schema deployment control catalog = none

-- VALIDATE. ARGV[1] is the schema and ARGV[2] the deployment.
unfoldable pub validate : Bool → Bytes → Bytes → Store → Option Control
unfolding validate_slots
validate allow_maintenance schema deployment s =
    validate_slots allow_maintenance schema deployment s.control s.catalog

-- `count ~= 4` in the scripts.
abbrev pub count_is_four : Control → Bool
count_is_four c = eqb (length c.fields) 4

abbrev pub is_hex : ℕ → Bool
is_hex c = is_digit c || (leb b'a' c && leb c b'f')

abbrev pub is_base_field : Bytes → Bool
is_base_field k =
    bytes_eq k (codes "schema")
    || bytes_eq k (codes "deployment")
    || bytes_eq k (codes "epoch")
    || bytes_eq k (codes "state")

-- The capture of '^writer:([0-9a-f]+)$'.
abbrev pub writer_id : Bytes → Option Bytes
writer_id k = do
  id ← strip_prefix (codes "writer:") k
  guard (not (is_empty id) && all is_hex id)
  some id

-- The loop of `token_fields`.
unfoldable pub tokens : Bytes → Hash → Option (List Bytes)
tokens epoch [] = some []
tokens epoch ((k, v) ∷ h) =
    let rest = tokens epoch h in
    if is_base_field k then rest else do
      id ← writer_id k
      guard (eqb (length id) 32 && decimal (some v) && le v epoch)
      ids ← rest
      some (id ∷ ids)

unfoldable pub token_fields : Control → Option (List Bytes)
unfolding tokens
token_fields c = if count_is_four c then some [] else tokens c.epoch c.fields

abbrev pub header : Bytes → Bytes → Bytes → Bytes
header deployment semantic epoch =
    deployment ++ (codes "\n" ++ (semantic ++ (codes "\n" ++ (epoch ++ codes "\n"))))

abbrev pub slot_text : Slot → Option Bytes
slot_text (text t b) = some b
slot_text _ = none

-- A script's reply and the store that it leaves, or its error.
abbrev pub Script : Type 0
Script = Store → Option (List Bytes × Store)

-- The local function `miss` of LOOKUP.
abbrev pub lookup_miss : ℕ → Control → Script
lookup_miss catalog_max c s = do
  snapshot ← slot_text s.catalog
  guard (leb (length snapshot) catalog_max)
  some (codes "miss" ∷ c.epoch ∷ snapshot ∷ [], s)

-- The response in an entry that LOOKUP accepts; every other entry is a miss. `prefix` is the local
-- variable `header`.
unfoldable pub cached_response : Bytes → ℕ → Slot → Option Bytes
cached_response prefix max (text (some ttl) value) =
    if leb (length value) (max + length prefix)
    then elim (strip_prefix prefix value) [
      | none ↦ none
      | some response ↦ if is_empty response then none else some response
    ]
    else none
cached_response prefix max slot = none

-- LOOKUP behind VALIDATE, once the control hash is quiet.
unfoldable pub lookup_entry : Bytes → ℕ → ℕ → Bytes → Control → Script
lookup_entry prefix max catalog_max key c s =
    let missed = lookup_miss catalog_max c s in
    elim (cached_response prefix max (s.entry key)) [
      | none ↦ missed
      | some response ↦ some (codes "hit" ∷ c.epoch ∷ response ∷ [], s)
    ]

unfoldable pub lookup_body : Bytes → Bytes → ℕ → ℕ → Bytes → Control → Script
lookup_body deployment semantic max catalog_max key c s =
    if not (count_is_four c) || exists s.admin
    then some (codes "busy" ∷ [], s)
    else lookup_entry (header deployment semantic c.epoch) max catalog_max key c s

unfoldable pub lookup_script : Bytes → Bytes → Bytes → ℕ → ℕ → Bytes → Script
lookup_script schema deployment semantic max catalog_max key s = do
  c ← validate false schema deployment s
  lookup_body deployment semantic max catalog_max key c s

-- PUBLISH behind VALIDATE; `replicates` is what `redis.replicate_commands()` answers.
unfoldable pub publish_body :
    Bool → Bytes → Bytes → Bytes → Bytes → ℕ → ℕ → Bytes → Control → Script
publish_body replicates deployment semantic epoch response max ttl_seconds key c s =
    if not (count_is_four c) || exists s.admin || not (bytes_eq c.epoch epoch)
    then some (codes "skip" ∷ [], s)
    else if is_empty response || ltb max (length response)
    then some (codes "skip" ∷ [], s)
    else if not replicates
    then none
    else some (
      codes "ok" ∷ [],
      set_entry key
          (text (some (ttl_seconds * 1000)) (header deployment semantic c.epoch ++ response)) s,
    )

unfoldable pub publish_script :
    Bool → Bytes → Bytes → Bytes → Bytes → Bytes → ℕ → ℕ → Bytes → Script
publish_script replicates schema deployment semantic epoch response max ttl_seconds key s = do
  c ← validate false schema deployment s
  publish_body replicates deployment semantic epoch response max ttl_seconds key c s

abbrev pub writer_field : Bytes → Bytes
writer_field token = codes "writer:" ++ token

-- The HSET of ADMIT.
unfoldable pub admit_fields : Bytes → Bytes → Bytes → Hash → Hash
admit_fields next token state fields =
    hset (codes "state") state (hset (writer_field token) next (hset (codes "epoch") next fields))

abbrev pub with_control : Hash → Store → Store
with_control fields s = record s { control = hash none fields }

-- ADMIT behind VALIDATE.
unfoldable pub admit_body : Bytes → Bytes → Control → Script
admit_body token state c s = do
  guard (not (exists s.admin))
  _ ← token_fields c
  guard (not (bytes_eq c.epoch max_epoch))
  guard (eqb (length token) 32 && all is_hex token)
  guard (missing (hget (writer_field token) c.fields))
  guard (bytes_eq state (codes "active") || bytes_eq state (codes "maintenance"))
  some (
    codes "ok" ∷ next_epoch c.epoch ∷ [],
    with_control (admit_fields (next_epoch c.epoch) token state c.fields) s,
  )

unfoldable pub admit_script : Bytes → Bytes → Bytes → Bytes → Script
admit_script schema deployment token state s = do
  c ← validate false schema deployment s
  admit_body token state c s

-- RELEASE behind VALIDATE.
unfoldable pub release_body : Bytes → Bytes → Control → Script
release_body token epoch c s = do
  _ ← token_fields c
  guard (field_is (hget (writer_field token) c.fields) epoch)
  some (codes "ok" ∷ [], with_control (hdel (writer_field token) c.fields) s)

unfoldable pub release_script : Bytes → Bytes → Bytes → Bytes → Script
release_script schema deployment token epoch s = do
  c ← validate true schema deployment s
  release_body token epoch c s

-- STATUS behind VALIDATE.
unfoldable pub status_body : Control → Script
status_body c s = do ids ← token_fields c; some (codes "ok" ∷ c.epoch ∷ c.state ∷ ids, s)

unfoldable pub status_script : Bytes → Bytes → Script
status_script schema deployment s = do c ← validate true schema deployment s; status_body c s
