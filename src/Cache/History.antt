-- ===== src/Cache/History.antt =====
-- Histories of the shared store: calls of the scripts by any number of clients, in any order, with
-- what else happens to the keys in between. A log of the stored responses and a count of the
-- admitted writers are kept beside the store, to state what a hit says.
pub mod Headers
pub mod Fresh
pub mod Fence
pub mod Ticket
use qdrant_es_gateway.Prelude.{
  ℕ, ◌+◌, List, [], ◌∷◌, Option, none, some, Bool, true, false, codes, if◌then◌else◌,
}
use qdrant_es_gateway.Cache.Bytes.{Bytes, bytes_eq}
use qdrant_es_gateway.Cache.Store.{Hash, Slot, absent, text, hash, other, Store, set_entry}
use qdrant_es_gateway.Cache.Scripts.{
  lookup_script, publish_script, admit_script, release_script, status_script,
}

abbrev pub schema_version : Bytes
schema_version = codes "1"

pub record Publication : Type 0 where
  pub deployment : Bytes
  pub semantic : Bytes
  pub epoch : Bytes
  pub response : Bytes
  pub key : Bytes

-- The five scripts, an entry that expires or is evicted, and a new value of the catalog or of the
-- administrative claim, which other scripts write.
pub data Call : Type 0 where
  lookup : (deployment semantic key : Bytes) (max catalog_max : ℕ) → Call
  publish : (replicates : Bool) (max ttl_seconds : ℕ) → Publication → Call
  admit : (deployment token state : Bytes) → Call
  release : (deployment token epoch : Bytes) → Call
  status : (deployment : Bytes) → Call
  expire : (key : Bytes) → Call
  write_catalog write_admin : Slot → Call

-- A publication that was stored, with the number of writers admitted until then.
pub record Logged : Type 0 where
  pub published : Publication
  pub admits : ℕ

pub record History : Type 0 where
  pub store : Store
  pub log : List Logged
  pub admits : ℕ

abbrev is_ok : List Bytes → Bool
is_ok (tag ∷ []) = bytes_eq tag (codes "ok")
is_ok _ = false

abbrev pub left_by : Option (List Bytes × Store) → Store → Store
left_by none s = s
left_by (some (reply, s')) s = s'

unfoldable pub after_publish : Publication → Option (List Bytes × Store) → History → History
after_publish p none h = h
after_publish p (some (reply, s')) h =
    if is_ok reply
    then record h { store = s'; log = record { published = p; admits = h.admits } ∷ h.log }
    else record h { store = s' }

unfoldable pub after_admit : Option (List Bytes × Store) → History → History
after_admit none h = h
after_admit (some (reply, s')) h = record h { store = s'; admits = h.admits + 1 }

unfoldable pub step : Call → History → History
unfolding set_entry
step (lookup deployment semantic key max catalog_max) h = record h {
  store =
      left_by (lookup_script schema_version deployment semantic max catalog_max key h.store)
        h.store;
}
step (publish replicates max ttl_seconds p) h =
    after_publish p
      (publish_script replicates schema_version p.deployment p.semantic p.epoch p.response max
        ttl_seconds p.key h.store)
      h
step (admit deployment token state) h =
    after_admit (admit_script schema_version deployment token state h.store) h
step (release deployment token epoch) h = record h {
  store = left_by (release_script schema_version deployment token epoch h.store) h.store;
}
step (status deployment) h = record h {
  store = left_by (status_script schema_version deployment h.store) h.store;
}
step (expire key) h = record h { store = set_entry key absent h.store }
step (write_catalog slot) h = record h { store = record h.store { catalog = slot } }
step (write_admin slot) h = record h { store = record h.store { admin = slot } }

unfoldable pub run : List Call → History → History
run [] h = h
run (call ∷ calls) h = run calls (step call h)

abbrev pub start : Store → History
start s = record { store = s; log = []; admits = 0 }
