-- ===== src/Cache/History/Ticket.antt =====
-- A read ticket is good for one epoch: once a writer has been admitted behind it, released or not,
-- the response that the reader computed is not stored.
use qdrant_es_gateway.Prelude.{
  ℕ, ◌+◌, ◌≤◌, ◌<◌, ◌≡◌, refl, ◌∙◌, ap, Bool, true, false, List, [], ◌∷◌, Option, none, some, arith,
  codes, inl, inr,
}
use qdrant_es_gateway.Cache.Bytes.{Bytes}
use qdrant_es_gateway.Cache.Epoch.{next_epoch}
use qdrant_es_gateway.Cache.Epoch.Value.{value}
use qdrant_es_gateway.Cache.Epoch.Order.{next_epoch_lem}
use qdrant_es_gateway.Cache.Store.{Hash, Slot, Store, hget, hdel, set_entry}
use qdrant_es_gateway.Cache.Store.Hashes.{hget-hdel_ne}
use qdrant_es_gateway.Cache.Scripts.{
  writer_field, lookup_script, publish_script, admit_script, release_script, status_script,
}
use qdrant_es_gateway.Cache.Scripts.Inversion.{
  validate-IsValidated, publish_inv, admit_inv, release_inv, lookup_reads, status_reads,
  lookup_ticket,
}
use qdrant_es_gateway.Cache.History.{
  schema_version, Publication, Call, lookup, publish, admit, release, status, expire, write_catalog,
  write_admin, History, left_by, after_publish, after_admit, step, run,
}
use qdrant_es_gateway.Cache.History.Fresh.{fields_of, left_by_same, epoch-admit}

-- The epoch has grown by the writers admitted since it was `e`, when `n` were.
record HasGrown (e : Bytes) (n : ℕ) (slot : Slot) (admits : ℕ) : Type 0 where
  now : Bytes
  now_field : hget (codes "epoch") (fields_of slot) ≡ some now
  grown : value e + admits ≤ value now + n

HasGrown-hash :
    (e : Bytes) (n : ℕ) (slot : Slot) (f : Hash) (admits : ℕ)
    → hget (codes "epoch") f ≡ hget (codes "epoch") (fields_of slot)
    → HasGrown e n slot admits
    → HasGrown e n (Slot.hash none f) admits
HasGrown-hash e n slot f admits same g = record {
  now = g.now;
  now_field = same ∙ g.now_field;
  grown = g.grown;
}

publish-HasGrown :
    (replicates : Bool) (max ttl_seconds : ℕ) (p : Publication) (e : Bytes) (n : ℕ) (h : History)
    (result : Option (List Bytes × Store))
    → publish_script replicates schema_version p.deployment p.semantic p.epoch p.response max
        ttl_seconds p.key h.store
      ≡ result
    → HasGrown e n h.store.control h.admits
    → HasGrown e n (after_publish p result h).store.control (after_publish p result h).admits
unfolding after_publish
publish-HasGrown replicates max ttl_seconds p e n h none eq g = g
publish-HasGrown replicates max ttl_seconds p e n h (some (reply, s')) eq g =
    let (c, outcome) =
      publish_inv replicates schema_version p.deployment p.semantic p.epoch p.response max
        ttl_seconds p.key h.store eq in
    elim outcome [
      | inl (replied, same) ↦ rw (replied, same) g
      | inr (replied, stored) ↦
          let control : s'.control ≡ h.store.control =
            (unfold set_entry in rw stored.stored refl) in
          rw replied (rw control g)
    ]

admit-HasGrown :
    (deployment token state e : Bytes) (n : ℕ) (h : History) (result : Option (List Bytes × Store))
    → admit_script schema_version deployment token state h.store ≡ result
    → HasGrown e n h.store.control h.admits
    → HasGrown e n (after_admit result h).store.control (after_admit result h).admits
unfolding after_admit
admit-HasGrown deployment token state e n h none eq g = g
admit-HasGrown deployment token state e n h (some (reply, s')) eq g =
    let (c, a) = admit_inv schema_version deployment token state h.store eq in
    let v = validate-IsValidated false schema_version deployment h.store a.validated in
    let fields : fields_of h.store.control ≡ c.fields = ap fields_of v.control_slot in
    let (_, next) = next_epoch_lem c.epoch v.epoch_decimal a.below in
    let now : g.now ≡ c.epoch = cc (g.now_field, v.epoch_field, ap (hget (codes "epoch")) fields) in
    let same : value g.now ≡ value c.epoch = ap value now in
    rw a.store_eq (record {
      now = next_epoch c.epoch;
      now_field = epoch-admit c.fields (next_epoch c.epoch) token state;
      grown = omega (arith, g.grown, next, same);
    })

release-HasGrown :
    (deployment token at e : Bytes) (n m : ℕ) (s : Store) (result : Option (List Bytes × Store))
    → release_script schema_version deployment token at s ≡ result
    → HasGrown e n s.control m
    → HasGrown e n (left_by result s).control m
release-HasGrown deployment token at e n m s none eq g = g
release-HasGrown deployment token at e n m s (some (reply, s')) eq g =
    let (c, r) = release_inv schema_version deployment token at s eq in
    let v = validate-IsValidated true schema_version deployment s r.validated in
    let fields : fields_of s.control ≡ c.fields = ap fields_of v.control_slot in
    rw r.store_eq (
      HasGrown-hash e n s.control (hdel (writer_field token) c.fields) m
        (rw fields (hget-hdel_ne (writer_field token) (codes "epoch") c.fields refl)) g)

step-HasGrown :
    (call : Call) (e : Bytes) (n : ℕ) (h : History)
    → HasGrown e n h.store.control h.admits
    → HasGrown e n (step call h).store.control (step call h).admits
unfolding step
step-HasGrown (lookup deployment semantic key max catalog_max) e n h g =
    rw
      (left_by_same (lookup_script schema_version deployment semantic max catalog_max key h.store)
        h.store
        (λ reply s'. lookup_reads schema_version deployment semantic max catalog_max key h.store))
      g
step-HasGrown (publish replicates max ttl_seconds p) e n h g =
    publish-HasGrown replicates max ttl_seconds p e n h _ refl g
step-HasGrown (admit deployment token state) e n h g =
    admit-HasGrown deployment token state e n h _ refl g
step-HasGrown (release deployment token at) e n h g =
    release-HasGrown deployment token at e n h.admits h.store _ refl g
step-HasGrown (status deployment) e n h g =
    rw
      (left_by_same (status_script schema_version deployment h.store) h.store
        (λ reply s'. status_reads schema_version deployment h.store))
      g
step-HasGrown (expire key) e n h g = unfold set_entry in g
step-HasGrown (write_catalog slot) e n h g = g
step-HasGrown (write_admin slot) e n h g = g

run-HasGrown :
    (calls : List Call) (e : Bytes) (n : ℕ) (h : History)
    → HasGrown e n h.store.control h.admits
    → HasGrown e n (run calls h).store.control (run calls h).admits
unfolding run
run-HasGrown [] e n h g = g
run-HasGrown (call ∷ calls) e n h g =
    run-HasGrown calls e n (step call h) (step-HasGrown call e n h g)

stale_publish :
    (replicates : Bool) (max ttl_seconds : ℕ) (p : Publication) (n : ℕ) (h : History)
    (reply : List Bytes) (s' : Store)
    → HasGrown p.epoch n h.store.control h.admits
    → n < h.admits
    → publish_script replicates schema_version p.deployment p.semantic p.epoch p.response max
        ttl_seconds p.key h.store
      ≡ some (reply, s')
    → s' ≡ h.store
stale_publish replicates max ttl_seconds p n h reply s' g later e =
    let (c, outcome) =
      publish_inv replicates schema_version p.deployment p.semantic p.epoch p.response max
        ttl_seconds p.key h.store e in
    elim outcome [
      | inl (skipped, same) ↦ same
      | inr (replied, stored) ↦
          let v = validate-IsValidated false schema_version p.deployment h.store stored.validated in
          let fields : fields_of h.store.control ≡ c.fields = ap fields_of v.control_slot in
          let now : g.now ≡ p.epoch =
            cc (g.now_field, v.epoch_field, ap (hget (codes "epoch")) fields, stored.current) in
          let same : value g.now ≡ value p.epoch = ap value now in
          absurd (omega (arith, g.grown, same))
    ]

-- A reader takes a ticket by a lookup; later a publication presents the ticket's epoch. If a writer
-- was admitted in between, PUBLISH fails or leaves the store as it was.
pub stale-ticket :
    (h : History) (deployment semantic key tag body : Bytes) (max catalog_max : ℕ) (s' : Store)
    (calls : List Call) (replicates : Bool) (max' ttl_seconds : ℕ) (p : Publication)
    → lookup_script schema_version deployment semantic max catalog_max key h.store
      ≡ some (tag ∷ p.epoch ∷ body ∷ [], s')
    → h.admits < (run calls h).admits
    → left_by
        (publish_script replicates schema_version p.deployment p.semantic p.epoch p.response max'
          ttl_seconds p.key
          (run calls h).store)
        (run calls h).store
      ≡ (run calls h).store
stale-ticket h deployment semantic key tag body max catalog_max s' calls replicates max' ttl_seconds
      p ticket later =
    let (c, valid, at) =
      lookup_ticket schema_version deployment semantic max catalog_max key h.store ticket in
    let v = validate-IsValidated false schema_version deployment h.store valid in
    let now = run calls h in
    let g = run-HasGrown calls p.epoch h.admits h (record {
      now = c.epoch;
      now_field = ap (λ s. hget (codes "epoch") (fields_of s)) v.control_slot ∙ v.epoch_field;
      grown = let same : value p.epoch ≡ value c.epoch = ap value at in omega (arith, same);
    }) in
    left_by_same _ now.store
      (λ reply u e. stale_publish replicates max' ttl_seconds p h.admits now reply u g later e)
