-- ===== src/Cache/Store.antt =====
-- The Redis keys that the scripts of read_cache.rs name: KEYS[1] the control hash, KEYS[2] the
-- catalog, KEYS[3] the administrative claim, and the response entries, one of which is KEYS[4].
-- A key holds nothing, a string or a hash, with the milliseconds it has left or none if it is
-- persistent. The functions are the Redis commands that the scripts call.
pub mod Hashes
use qdrant_es_gateway.Prelude.{
  ℕ, Bool, true, false, List, [], ◌∷◌, Option, none, some, if◌then◌else◌,
}
use qdrant_es_gateway.Cache.Bytes.{Bytes, bytes_eq}

abbrev pub Hash : Type 0
Hash = List (Bytes × Bytes)

pub data Slot : Type 0 where
  absent : Slot
  text : Option ℕ → Bytes → Slot
  hash : Option ℕ → Hash → Slot
  other : Option ℕ → Slot

pub record Store : Type 0 where
  pub control : Slot
  pub catalog : Slot
  pub admin : Slot
  pub entry : Bytes → Slot

abbrev pub exists : Slot → Bool
exists absent = false
exists _ = true

-- `PTTL`: -1 is `some none` here, -2 is `none`.
abbrev pub pttl : Slot → Option (Option ℕ)
pttl absent = none
pttl (text t b) = some t
pttl (hash t h) = some t
pttl (other t) = some t

abbrev pub is_persistent : Slot → Bool
is_persistent s = elim (pttl s) [ none ↦ false | some t ↦ elim t [ none ↦ true | some n ↦ false ] ]

abbrev pub is_text : Slot → Bool
is_text (text t b) = true
is_text _ = false

abbrev pub is_hash : Slot → Bool
is_hash (hash t h) = true
is_hash _ = false

-- `HGET` and `HMGET`.
unfoldable pub hget : Bytes → Hash → Option Bytes
hget key [] = none
hget key ((k, v) ∷ h) = if bytes_eq k key then some v else hget key h

-- `HSET` of one field.
unfoldable pub hset : Bytes → Bytes → Hash → Hash
hset key v [] = (key, v) ∷ []
hset key v ((k, w) ∷ h) = if bytes_eq k key then (k, v) ∷ h else (k, w) ∷ hset key v h

-- `HDEL` of one field.
unfoldable pub hdel : Bytes → Hash → Hash
hdel key [] = []
hdel key ((k, w) ∷ h) = if bytes_eq k key then h else (k, w) ∷ hdel key h

-- `SET` of an entry.
unfoldable pub set_entry : Bytes → Slot → Store → Store
set_entry key slot s = record s { entry = λ k. if bytes_eq k key then slot else s.entry k }
