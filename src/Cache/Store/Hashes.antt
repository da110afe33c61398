-- ===== src/Cache/Store/Hashes.antt =====
-- Laws of the hash commands.
use qdrant_es_gateway.Prelude.{
  ◌+◌, ◌≤◌, ◌≡◌, refl, false, [], ◌∷◌, none, some, if◌then◌else◌, length, arith,
}
use qdrant_es_gateway.Cache.Bytes.{Bytes, bytes_eq, bytes_eq_iff}
use qdrant_es_gateway.Cache.Store.{Hash, hget, hset, hdel}

pub hget-hset :
    (k j v : Bytes) (h : Hash) → hget j (hset k v h) ≡ (if bytes_eq k j then some v else hget j h)
unfolding hget hset
hget-hset k j v [] = refl
hget-hset k j v ((i, w) ∷ h) =
    ground (arith, bytes_eq_iff k j, bytes_eq_iff i k, bytes_eq_iff i j, hget-hset k j v h)

pub length-hset_present :
    (k v w : Bytes) (h : Hash) → hget k h ≡ some w → length (hset k v h) ≡ length h
unfolding hget hset
length-hset_present k v w [] e = cc
length-hset_present k v w ((i, u) ∷ h) e = ground (arith, length-hset_present k v w h)

pub length-hset_absent :
    (k v : Bytes) (h : Hash) → hget k h ≡ none → length (hset k v h) ≡ length h + 1
unfolding hget hset
length-hset_absent k v [] e = omega arith
length-hset_absent k v ((i, u) ∷ h) e = ground (arith, length-hset_absent k v h)

pub length-hset-le : (k v : Bytes) (h : Hash) → length h ≤ length (hset k v h)
unfolding hset
length-hset-le k v [] = omega arith
length-hset-le k v ((i, u) ∷ h) = ground (arith, length-hset-le k v h)

pub length-hdel : (k v : Bytes) (h : Hash) → hget k h ≡ some v → length h ≡ length (hdel k h) + 1
unfolding hget hdel
length-hdel k v [] e = cc
length-hdel k v ((i, u) ∷ h) e = ground (arith, length-hdel k v h)

pub hget-hdel_ne : (k j : Bytes) (h : Hash) → bytes_eq k j ≡ false → hget j (hdel k h) ≡ hget j h
unfolding hget hdel
hget-hdel_ne k j [] e = refl
hget-hdel_ne k j ((i, u) ∷ h) e =
    ground (arith, bytes_eq_iff i k, bytes_eq_iff k j, bytes_eq_iff i j, hget-hdel_ne k j h e)

pub hdel-hset_absent : (k v : Bytes) (h : Hash) → hget k h ≡ none → hdel k (hset k v h) ≡ h
unfolding hget hset hdel
hdel-hset_absent k v [] e = ground (arith, bytes_eq_iff k k)
hdel-hset_absent k v ((i, u) ∷ h) e = ground (arith, hdel-hset_absent k v h)
