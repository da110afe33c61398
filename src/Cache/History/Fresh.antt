-- ===== src/Cache/History/Fresh.antt =====
-- A hit is fresh: its response was published in the history, under the same key and digest, and no
-- writer has been admitted since.
use mathlib.Core.List.{Memᴰ}
use mathlib.Core.Path.{subst}
use qdrant_es_gateway.Prelude.{
  ℕ, ◌+◌, ◌≤◌, ◌≡◌, refl, sym, ◌∙◌, ap, ◌*◌, Bool, true, false, List, [], ◌∷◌, ◌++◌, Option, none,
  some, arith, codes, All, ◌⊎◌, inl, inr, Bool-cases,
}
use qdrant_es_gateway.Cache.Bytes.{Bytes, bytes_eq, bytes_eq-eq}
use qdrant_es_gateway.Cache.Epoch.{decimal, next_epoch}
use qdrant_es_gateway.Cache.Epoch.Value.{value}
use qdrant_es_gateway.Cache.Epoch.Order.{next_epoch_lem}
use qdrant_es_gateway.Cache.Store.{Hash, Slot, absent, text, hash, Store, hget, hdel, set_entry}
use qdrant_es_gateway.Cache.Store.Hashes.{hget-hset, hget-hdel_ne}
use qdrant_es_gateway.Cache.Config.{valid_digest}
use qdrant_es_gateway.Cache.Scripts.{
  Control, header, writer_field, admit_fields, with_control, lookup_script, publish_script,
  admit_script, release_script,
}
use qdrant_es_gateway.Cache.Scripts.Inversion.{
  validate-IsValidated, IsStored, publish_inv, IsHit, lookup_inv, admit_inv, release_inv,
  lookup_reads, status_reads,
}
use qdrant_es_gateway.Cache.History.{
  schema_version, Publication, Call, lookup, publish, admit, release, status, expire, write_catalog,
  write_admin, Logged, History, left_by, after_publish, after_admit, step, run, start,
}
use qdrant_es_gateway.Cache.History.Headers.{header-injective}

abbrev pub fields_of : Slot → Hash
fields_of (hash t h) = h
fields_of _ = []

-- Every client's digest is one: `connect` computes it by `hash`.
abbrev pub HasDigest : Call → Type 0
HasDigest (lookup deployment semantic key max catalog_max) = valid_digest semantic ≡ true
HasDigest (publish replicates max ttl_seconds p) = valid_digest p.semantic ≡ true
HasDigest _ = Unit

-- What is known of a logged publication while the control hash has these fields.
record IsSound (fields : Hash) (admits : ℕ) (l : Logged) : Type 0 where
  deployment : hget (codes "deployment") fields ≡ some l.published.deployment
  digest : valid_digest l.published.semantic ≡ true
  epoch_decimal : decimal (some l.published.epoch) ≡ true
  now : Bytes
  now_field : hget (codes "epoch") fields ≡ some now
  grown : value l.published.epoch + admits ≤ value now + l.admits
  earlier : l.admits ≤ admits

-- An entry is absent or a logged response behind its header.
abbrev IsLogged : List Logged → Bytes → Slot → Type 0
IsLogged log key slot =
    (slot ≡ absent)
    ⊎ ((l : Logged) × Memᴰ l log
        × (l.published.key ≡ key)
        × ((ttl : ℕ) × (slot
              ≡ text (some ttl) (
                  header l.published.deployment l.published.semantic l.published.epoch
                  ++ l.published.response))))

record Inv (h : History) : Type 0 where
  entries : (key : Bytes) → IsLogged h.log key (h.store.entry key)
  sound : All (IsSound (fields_of h.store.control) h.admits) h.log

-- Fields that keep the deployment and the epoch keep the log sound.
IsSound-keep :
    (f g : Hash) (n : ℕ) (log : List Logged)
    → hget (codes "deployment") g ≡ hget (codes "deployment") f
    → hget (codes "epoch") g ≡ hget (codes "epoch") f
    → All (IsSound f n) log
    → All (IsSound g n) log
IsSound-keep f g n [] d e h = tt
IsSound-keep f g n (l ∷ log) d e (s, h) = (
  record {
    deployment = d ∙ s.deployment;
    digest = s.digest;
    epoch_decimal = s.epoch_decimal;
    now = s.now;
    now_field = e ∙ s.now_field;
    grown = s.grown;
    earlier = s.earlier;
  },
  IsSound-keep f g n log d e h,
)

deployment-admit :
    (f : Hash) (next token state : Bytes)
    → hget (codes "deployment") (admit_fields next token state f) ≡ hget (codes "deployment") f
unfolding admit_fields
deployment-admit f next token state = simp hget-hset

pub epoch-admit :
    (f : Hash) (next token state : Bytes)
    → hget (codes "epoch") (admit_fields next token state f) ≡ some next
unfolding admit_fields
epoch-admit f next token state = simp hget-hset

IsSound-admit :
    (f : Hash) (epoch token state : Bytes) (n : ℕ) (log : List Logged)
    → hget (codes "epoch") f ≡ some epoch
    → value (next_epoch epoch) ≡ value epoch + 1
    → All (IsSound f n) log
    → All (IsSound (admit_fields (next_epoch epoch) token state f) (n + 1)) log
IsSound-admit f epoch token state n [] e v h = tt
IsSound-admit f epoch token state n (l ∷ log) e v (s, h) = (
  record {
    deployment = deployment-admit f (next_epoch epoch) token state ∙ s.deployment;
    digest = s.digest;
    epoch_decimal = s.epoch_decimal;
    now = next_epoch epoch;
    now_field = epoch-admit f (next_epoch epoch) token state;
    grown =
        let p : s.now ≡ epoch = cc (s.now_field) in
        let q : value s.now ≡ value epoch = ap value p in omega (arith, s.grown, v, q);
    earlier = omega (arith, s.earlier);
  },
  IsSound-admit f epoch token state n log e v h,
)

-- A script that leaves the store as it was keeps the invariant.
pub left_by_same :
    (result : Option (List Bytes × Store)) (s : Store)
    → ((reply : List Bytes) (s' : Store) → result ≡ some (reply, s') → s' ≡ s)
    → left_by result s ≡ s
left_by_same none s h = refl
left_by_same (some (reply, s')) s h = h reply s' refl

Inv-same : (h : History) (s : Store) → s ≡ h.store → Inv h → Inv (record h { store = s })
Inv-same h s e inv = record { entries = λ key. rw e (inv.entries key); sound = rw e inv.sound }

Inv-control :
    (h : History) (fields : Hash)
    → hget (codes "deployment") fields ≡ hget (codes "deployment") (fields_of h.store.control)
    → hget (codes "epoch") fields ≡ hget (codes "epoch") (fields_of h.store.control)
    → Inv h
    → Inv (record h { store = with_control fields h.store })
Inv-control h fields d e inv = record {
  entries = inv.entries;
  sound = IsSound-keep (fields_of h.store.control) fields h.admits h.log d e inv.sound;
}

entries_set :
    (log log' : List Logged) (key k : Bytes) (slot : Slot) (s : Store)
    → ((l : Logged) → Memᴰ l log → Memᴰ l log')
    → IsLogged log' key slot
    → IsLogged log k (s.entry k)
    → IsLogged log' k ((set_entry key slot s).entry k)
unfolding set_entry
entries_set log log' key k slot s more here there = elim (Bool-cases (bytes_eq k key)) [
  | inl e ↦ rw e (rw (bytes_eq-eq k key e) here)
  | inr e ↦ rw e (elim there [
    | inl gone ↦ inl gone
    | inr (l, m, k_eq, found) ↦ inr (l, more l m, k_eq, found)
  ])
]

-- A stored publication is current: its epoch is the one in the control hash.
stored-Inv :
    (h : History) (p : Publication) (ttl_seconds : ℕ) (s' : Store) (c : Control)
    → valid_digest p.semantic ≡ true
    → IsStored schema_version p.deployment p.semantic p.epoch p.response ttl_seconds p.key h.store
        s' c
    → Inv h
    → Inv (record h { store = s'; log = record { published = p; admits = h.admits } ∷ h.log })
stored-Inv h p ttl_seconds s' c digest stored inv =
    let v = validate-IsValidated false schema_version p.deployment h.store stored.validated in
    let l : Logged = record { published = p; admits = h.admits } in
    let slot =
      text (some (ttl_seconds * 1000)) (header p.deployment p.semantic c.epoch ++ p.response) in
    let here : IsLogged (l ∷ h.log) p.key slot =
      inr (l, Memᴰ.head refl, refl, (ttl_seconds * 1000, rw stored.current refl)) in
    let fields : fields_of h.store.control ≡ c.fields = ap fields_of v.control_slot in
    let same : s'.control ≡ h.store.control = (unfold set_entry in rw stored.stored refl) in
    record {
      entries = λ k. rw stored.stored (
          entries_set h.log (l ∷ h.log) p.key k slot h.store (λ x m. Memᴰ.tail m) here
            (inv.entries k));
      sound = (
        record {
          deployment = rw (same, fields) v.deployment_field;
          digest = digest;
          epoch_decimal = rw (← stored.current) v.epoch_decimal;
          now = p.epoch;
          now_field = rw (same, fields, ← stored.current) v.epoch_field;
          grown = omega arith;
          earlier = omega arith;
        },
        subst (λ slot. All (IsSound (fields_of slot) h.admits) h.log) (sym same) inv.sound,
      );
    }

publish-Inv :
    (replicates : Bool) (max ttl_seconds : ℕ) (p : Publication) (h : History)
    (result : Option (List Bytes × Store))
    → publish_script replicates schema_version p.deployment p.semantic p.epoch p.response max
        ttl_seconds p.key h.store
      ≡ result
    → valid_digest p.semantic ≡ true
    → Inv h
    → Inv (after_publish p result h)
unfolding after_publish
publish-Inv replicates max ttl_seconds p h none e digest inv = inv
publish-Inv replicates max ttl_seconds p h (some (reply, s')) e digest inv =
    let (c, outcome) =
      publish_inv replicates schema_version p.deployment p.semantic p.epoch p.response max
        ttl_seconds p.key h.store e in
    elim outcome [
      | inl (skipped, same) ↦ rw skipped (Inv-same h s' same inv)
      | inr (replied, stored) ↦ rw replied (stored-Inv h p ttl_seconds s' c digest stored inv)
    ]

admit-Inv :
    (deployment token state : Bytes) (h : History) (result : Option (List Bytes × Store))
    → admit_script schema_version deployment token state h.store ≡ result
    → Inv h
    → Inv (after_admit result h)
unfolding after_admit
admit-Inv deployment token state h none e inv = inv
admit-Inv deployment token state h (some (reply, s')) e inv =
    let (c, a) = admit_inv schema_version deployment token state h.store e in
    let v = validate-IsValidated false schema_version deployment h.store a.validated in
    let fields : fields_of h.store.control ≡ c.fields = ap fields_of v.control_slot in
    let (_, next) = next_epoch_lem c.epoch v.epoch_decimal a.below in
    let sound : All (IsSound c.fields h.admits) h.log =
      subst (λ f. All (IsSound f h.admits) h.log) fields inv.sound in
    rw a.store_eq (record {
      entries = inv.entries;
      sound = IsSound-admit c.fields c.epoch token state h.admits h.log v.epoch_field next sound;
    })

release-Inv :
    (deployment token epoch : Bytes) (h : History) (result : Option (List Bytes × Store))
    → release_script schema_version deployment token epoch h.store ≡ result
    → Inv h
    → Inv (record h { store = left_by result h.store })
release-Inv deployment token epoch h none e inv = inv
release-Inv deployment token epoch h (some (reply, s')) e inv =
    let (c, r) = release_inv schema_version deployment token epoch h.store e in
    let v = validate-IsValidated true schema_version deployment h.store r.validated in
    let fields : fields_of h.store.control ≡ c.fields = ap fields_of v.control_slot in
    rw r.store_eq (
      Inv-control h (hdel (writer_field token) c.fields)
        (rw fields (hget-hdel_ne (writer_field token) (codes "deployment") c.fields refl))
        (rw fields (hget-hdel_ne (writer_field token) (codes "epoch") c.fields refl)) inv)

step-Inv : (call : Call) (h : History) → HasDigest call → Inv h → Inv (step call h)
unfolding step
step-Inv (lookup deployment semantic key max catalog_max) h digest inv =
    Inv-same h _
      (left_by_same _ h.store
        (λ reply s'. lookup_reads schema_version deployment semantic max catalog_max key h.store))
      inv
step-Inv (publish replicates max ttl_seconds p) h digest inv =
    publish-Inv replicates max ttl_seconds p h _ refl digest inv
step-Inv (admit deployment token state) h digest inv = admit-Inv deployment token state h _ refl inv
step-Inv (release deployment token epoch) h digest inv =
    release-Inv deployment token epoch h _ refl inv
step-Inv (status deployment) h digest inv =
    Inv-same h _
      (left_by_same _ h.store (λ reply s'. status_reads schema_version deployment h.store)) inv
step-Inv (expire key) h digest inv = record {
  entries = λ k. entries_set h.log h.log key k absent h.store (λ l m. m) (inl refl) (inv.entries k);
  sound = inv.sound;
}
step-Inv (write_catalog slot) h digest inv = record { entries = inv.entries; sound = inv.sound }
step-Inv (write_admin slot) h digest inv = record { entries = inv.entries; sound = inv.sound }

run-Inv : (calls : List Call) (h : History) → All HasDigest calls → Inv h → Inv (run calls h)
unfolding run
run-Inv [] h digests inv = inv
run-Inv (call ∷ calls) h (d, ds) inv = run-Inv calls (step call h) ds (step-Inv call h d inv)

All-mem {ℓ κ} : {A : Type ℓ} (P : A → Type κ) {a : A} (xs : List A) → Memᴰ a xs → All P xs → P a
All-mem P [] m h = elim m [ ]
All-mem P (x ∷ xs) (Memᴰ.head e) (p, h) = rw e p
All-mem P (x ∷ xs) (Memᴰ.tail m) (p, h) = All-mem P xs m h

-- A hit on a logged entry is the logged publication, and no writer was admitted since.
hit_logged :
    (h : History) (deployment semantic key epoch response : Bytes) (s' : Store) (c : Control)
    (l : Logged) (ttl : ℕ)
    → valid_digest semantic ≡ true
    → IsHit schema_version deployment semantic epoch response key h.store s' c
    → IsSound (fields_of h.store.control) h.admits l
    → h.store.entry key
      ≡ text (some ttl) (
          header l.published.deployment l.published.semantic l.published.epoch
          ++ l.published.response)
    → (l.published.deployment ≡ deployment)
      × (l.published.semantic ≡ semantic)
      × (l.published.epoch ≡ epoch)
      × (l.published.response ≡ response)
      × (l.admits ≡ h.admits)
hit_logged h deployment semantic key epoch response s' c l ttl digest found sound entry =
    let v = validate-IsValidated false schema_version deployment h.store found.validated in
    let fields : fields_of h.store.control ≡ c.fields = ap fields_of v.control_slot in
    let deployments : l.published.deployment ≡ deployment =
      cc (sound.deployment, v.deployment_field, ap (hget (codes "deployment")) fields) in
    let bytes : header l.published.deployment l.published.semantic l.published.epoch
          ++ l.published.response
        ≡ header deployment semantic c.epoch ++ response =
      cc (entry, found.found) in
    let (semantics, epochs, responses) =
      header-injective deployment l.published.semantic semantic l.published.epoch c.epoch
        l.published.response response sound.digest digest sound.epoch_decimal v.epoch_decimal
        (rw deployments at bytes) in
    let now : sound.now ≡ c.epoch =
      cc (sound.now_field, v.epoch_field, ap (hget (codes "epoch")) fields) in
    let same : value l.published.epoch ≡ value sound.now = ap value (epochs ∙ sym now) in
    (
      deployments,
      semantics,
      epochs ∙ sym found.current,
      responses,
      omega (arith, sound.grown, sound.earlier, same),
    )

-- Whatever clients do to a shared store that holds no entries at first, in whatever order, and
-- whatever expires or is rewritten around them: where LOOKUP answers with a hit, the response was
-- stored by a publication under the same deployment, digest, key and epoch, and no writer was
-- admitted since. Every client's digest is taken to be 64 hexadecimal digits.
pub hit_is_fresh :
    (s : Store) (calls : List Call) (deployment semantic key epoch response : Bytes)
    (max catalog_max : ℕ) (s' : Store)
    → ((k : Bytes) → s.entry k ≡ absent)
    → All HasDigest calls
    → valid_digest semantic ≡ true
    → lookup_script schema_version deployment semantic max catalog_max key
        (run calls (start s)).store
      ≡ some (codes "hit" ∷ epoch ∷ response ∷ [], s')
    → (l : Logged) × Memᴰ l (run calls (start s)).log
      × (l.published.deployment ≡ deployment)
      × (l.published.semantic ≡ semantic)
      × (l.published.key ≡ key)
      × (l.published.epoch ≡ epoch)
      × (l.published.response ≡ response)
      × (l.admits ≡ (run calls (start s)).admits)
hit_is_fresh s calls deployment semantic key epoch response max catalog_max s' empty digests digest
      hit =
    let h = run calls (start s) in
    let inv : Inv h =
      run-Inv calls (start s) digests (record { entries = λ k. inl (empty k); sound = tt }) in
    let (c, found) =
      lookup_inv schema_version deployment semantic max catalog_max key h.store hit in
    elim (inv.entries key) [
      | inl gone ↦ absurd (text-ne-absent (sym found.found ∙ gone))
      | inr (l, m, k_eq, (ttl, entry)) ↦
          let sound = All-mem (IsSound (fields_of h.store.control) h.admits) h.log m inv.sound in
          let (d, sem, e, r, n) =
            hit_logged h deployment semantic key epoch response s' c l ttl digest found sound
              entry in
          (l, m, d, sem, k_eq, e, r, n)
    ]
  where
    text-ne-absent : {t : Option ℕ} {b : Bytes} → text t b ≡ absent → ⊥
    text-ne-absent e = cc
