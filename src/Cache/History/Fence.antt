-- ===== src/Cache/History/Fence.antt =====
-- A writer's token fences the cache: until it is released, no lookup hits and no publication is
-- stored.
use qdrant_es_gateway.Prelude.{
  ℕ, ◌≤◌, ◌≡◌, ◌≢◌, refl, sym, ◌∙◌, ap, Bool, true, false, List, [], ◌∷◌, Option, none, some, arith,
  codes, All, inl, inr, Bool-cases, length,
}
use qdrant_es_gateway.Cache.Bytes.{Bytes, bytes_eq, bytes_eq-eq, bytes_eq-ne, bytes_eq_refl}
use qdrant_es_gateway.Cache.Epoch.{next_epoch}
use qdrant_es_gateway.Cache.Store.{Hash, Store, hget, hdel}
use qdrant_es_gateway.Cache.Store.Hashes.{hget-hset, hget-hdel_ne, length-hdel}
use qdrant_es_gateway.Cache.Scripts.{
  Control, writer_field, admit_fields, count_is_four, lookup_script, publish_script, admit_script,
  release_script, status_script,
}
use qdrant_es_gateway.Cache.Scripts.Inversion.{
  IsValidated, validate-IsValidated, publish_inv, lookup_inv, admit_inv, release_inv, lookup_reads,
  status_reads,
}
use qdrant_es_gateway.Cache.History.{
  schema_version, Publication, Call, lookup, publish, admit, release, status, expire, write_catalog,
  write_admin, History, left_by, after_publish, after_admit, step, run, start,
}
use qdrant_es_gateway.Cache.History.Fresh.{fields_of, left_by_same}

-- The control hash records the token, with the epoch of its admission.
abbrev pub HasToken : Bytes → Bytes → Store → Type 0
HasToken token epoch s = hget (writer_field token) (fields_of s.control) ≡ some epoch

-- A call that releases no token of this name.
abbrev pub Spares : Bytes → Call → Type 0
Spares token (release deployment other epoch) = other ≢ token
Spares token _ = Unit

-- Five different fields are at least five fields.
five_fields :
    (token : Bytes) (f : Hash) {a b c d e : Bytes}
    → hget (codes "schema") f ≡ some a
    → hget (codes "deployment") f ≡ some b
    → hget (codes "epoch") f ≡ some c
    → hget (codes "state") f ≡ some d
    → hget (writer_field token) f ≡ some e
    → 5 ≤ length f
five_fields token f {a} {b} {c} {d} {e} ha hb hc hd he =
    let k₁ = codes "schema" in
    let k₂ = codes "deployment" in
    let k₃ = codes "epoch" in
    let k₄ = codes "state" in
    let w = writer_field token in
    let f₁ = hdel k₁ f in
    let f₂ = hdel k₂ f₁ in
    let f₃ = hdel k₃ f₂ in
    let f₄ = hdel k₄ f₃ in
    let b₁ : hget k₂ f₁ ≡ some b = hget-hdel_ne k₁ k₂ f refl ∙ hb in
    let c₂ : hget k₃ f₂ ≡ some c = hget-hdel_ne k₂ k₃ f₁ refl ∙ (hget-hdel_ne k₁ k₃ f refl ∙ hc) in
    let d₃ : hget k₄ f₃ ≡ some d =
      hget-hdel_ne k₃ k₄ f₂ refl
      ∙ (hget-hdel_ne k₂ k₄ f₁ refl ∙ (hget-hdel_ne k₁ k₄ f refl ∙ hd)) in
    let e₄ : hget w f₄ ≡ some e =
      hget-hdel_ne k₄ w f₃ refl
      ∙ (hget-hdel_ne k₃ w f₂ refl
          ∙ (hget-hdel_ne k₂ w f₁ refl ∙ (hget-hdel_ne k₁ w f refl ∙ he))) in
    omega (
      arith,
      length-hdel k₁ a f ha,
      length-hdel k₂ b f₁ b₁,
      length-hdel k₃ c f₂ c₂,
      length-hdel k₄ d f₃ d₃,
      length-hdel w e f₄ e₄,
    )

-- A control hash with a token is not quiet.
token-busy :
    (m : Bool) (deployment token epoch : Bytes) (s : Store) (c : Control)
    → IsValidated m schema_version deployment s.control s.catalog c
    → HasToken token epoch s
    → count_is_four c ≡ true
    → ⊥
token-busy m deployment token epoch s c v t four =
    let fields : fields_of s.control ≡ c.fields = ap fields_of v.control_slot in
    let w : hget (writer_field token) c.fields ≡ some epoch =
      ap (hget (writer_field token)) (sym fields) ∙ t in
    let five : 5 ≤ length c.fields =
      five_fields token c.fields v.schema_field v.deployment_field v.epoch_field v.state_field w in
    ground arith

writer-admit :
    (f : Hash) (next other state token epoch : Bytes)
    → hget (writer_field other) f ≡ none
    → hget (writer_field token) f ≡ some epoch
    → hget (writer_field token) (admit_fields next other state f) ≡ some epoch
unfolding admit_fields
writer-admit f next other state token epoch new old = elim (Bool-cases (bytes_eq other token)) [
  | inl e ↦
      let same : other ≡ token = bytes_eq-eq other token e in
      absurd (some-ne-none (sym old ∙ (ap (λ t. hget (writer_field t) f) (sym same) ∙ new)))
  | inr e ↦ simp (hget-hset, e) old
]
  where
    some-ne-none : {b : Bytes} → some b ≡ none → ⊥
    some-ne-none p = cc

admit-HasToken :
    (deployment other state token epoch : Bytes) (h : History)
    (result : Option (List Bytes × Store))
    → admit_script schema_version deployment other state h.store ≡ result
    → HasToken token epoch h.store
    → HasToken token epoch (after_admit result h).store
unfolding after_admit
admit-HasToken deployment other state token epoch h none e t = t
admit-HasToken deployment other state token epoch h (some (reply, s')) e t =
    let (c, a) = admit_inv schema_version deployment other state h.store e in
    let v = validate-IsValidated false schema_version deployment h.store a.validated in
    let fields : fields_of h.store.control ≡ c.fields = ap fields_of v.control_slot in
    rw a.store_eq (
      writer-admit c.fields (next_epoch c.epoch) other state token epoch a.new
        (ap (hget (writer_field token)) (sym fields) ∙ t))

release-HasToken :
    (deployment other at token epoch : Bytes) (s : Store) (result : Option (List Bytes × Store))
    → release_script schema_version deployment other at s ≡ result
    → other ≢ token
    → HasToken token epoch s
    → HasToken token epoch (left_by result s)
release-HasToken deployment other at token epoch s none e ne t = t
release-HasToken deployment other at token epoch s (some (reply, s')) e ne t =
    let (c, r) = release_inv schema_version deployment other at s e in
    let v = validate-IsValidated true schema_version deployment s r.validated in
    let fields : fields_of s.control ≡ c.fields = ap fields_of v.control_slot in
    let apart : bytes_eq (writer_field other) (writer_field token) ≡ false =
      bytes_eq-ne other token ne in
    rw r.store_eq (
      hget-hdel_ne (writer_field other) (writer_field token) c.fields apart
      ∙ (ap (hget (writer_field token)) (sym fields) ∙ t))

-- A publication is not stored over a token, so it leaves the store as it was.
publish-same :
    (replicates : Bool) (max ttl_seconds : ℕ) (p : Publication) (token epoch : Bytes) (s : Store)
    (reply : List Bytes) (s' : Store)
    → HasToken token epoch s
    → publish_script replicates schema_version p.deployment p.semantic p.epoch p.response max
        ttl_seconds p.key s
      ≡ some (reply, s')
    → s' ≡ s
publish-same replicates max ttl_seconds p token epoch s reply s' t e =
    let (c, outcome) =
      publish_inv replicates schema_version p.deployment p.semantic p.epoch p.response max
        ttl_seconds p.key s e in
    elim outcome [
      | inl (skipped, same) ↦ same
      | inr (replied, stored) ↦ absurd (
          token-busy false p.deployment token epoch s c
            (validate-IsValidated false schema_version p.deployment s stored.validated) t
            stored.quiet)
    ]

after_publish-HasToken :
    (p : Publication) (token epoch : Bytes) (h : History) (result : Option (List Bytes × Store))
    → left_by result h.store ≡ h.store
    → HasToken token epoch h.store
    → HasToken token epoch (after_publish p result h).store
unfolding after_publish
after_publish-HasToken p token epoch h none e t = t
after_publish-HasToken p token epoch h (some (reply, s')) e t = ground arith

step-HasToken :
    (call : Call) (token epoch : Bytes) (h : History)
    → Spares token call
    → HasToken token epoch h.store
    → HasToken token epoch (step call h).store
unfolding step
step-HasToken (lookup deployment semantic key max catalog_max) token epoch h spares t =
    rw
      (left_by_same (lookup_script schema_version deployment semantic max catalog_max key h.store)
        h.store
        (λ reply s'. lookup_reads schema_version deployment semantic max catalog_max key h.store))
      t
step-HasToken (publish replicates max ttl_seconds p) token epoch h spares t =
    after_publish-HasToken p token epoch h _
      (left_by_same _ h.store
        (λ reply s'. publish-same replicates max ttl_seconds p token epoch h.store reply s' t))
      t
step-HasToken (admit deployment other state) token epoch h spares t =
    admit-HasToken deployment other state token epoch h _ refl t
step-HasToken (release deployment other at) token epoch h spares t =
    release-HasToken deployment other at token epoch h.store _ refl spares t
step-HasToken (status deployment) token epoch h spares t =
    rw
      (left_by_same (status_script schema_version deployment h.store) h.store
        (λ reply s'. status_reads schema_version deployment h.store))
      t
step-HasToken (expire key) token epoch h spares t = t
step-HasToken (write_catalog slot) token epoch h spares t = t
step-HasToken (write_admin slot) token epoch h spares t = t

pub run-HasToken :
    (calls : List Call) (token epoch : Bytes) (h : History)
    → All (Spares token) calls
    → HasToken token epoch h.store
    → HasToken token epoch (run calls h).store
unfolding run
run-HasToken [] token epoch h spares t = t
run-HasToken (call ∷ calls) token epoch h (s, ss) t =
    run-HasToken calls token epoch (step call h) ss (step-HasToken call token epoch h s t)

admitted-HasToken :
    (s : Store) (deployment token state : Bytes) {reply : List Bytes} {s' : Store}
    → admit_script schema_version deployment token state s ≡ some (reply, s')
    → (epoch : Bytes) × HasToken token epoch s'
admitted-HasToken s deployment token state {reply} {s'} e =
    let (c, a) = admit_inv schema_version deployment token state s e in
    (next_epoch c.epoch, rw a.store_eq (writer-set c.fields (next_epoch c.epoch) token state))
  where
    writer-set :
        (f : Hash) (next token state : Bytes)
        → hget (writer_field token) (admit_fields next token state f) ≡ some next
    writer-set f next token state = unfold admit_fields in simp (hget-hset, bytes_eq_refl)

-- Where a writer has been admitted, and until a call releases its token, no lookup of any client
-- answers with a hit, whatever the clients do.
pub writer-fences-lookup :
    (s : Store) (calls : List Call) (deployment token state : Bytes) (reply : List Bytes)
    (s' : Store) (reader semantic key epoch response : Bytes) (max catalog_max : ℕ) (s'' : Store)
    → admit_script schema_version deployment token state s ≡ some (reply, s')
    → All (Spares token) calls
    → lookup_script schema_version reader semantic max catalog_max key (run calls (start s')).store
      ≢ some (codes "hit" ∷ epoch ∷ response ∷ [], s'')
writer-fences-lookup s calls deployment token state reply s' reader semantic key epoch response max
      catalog_max s'' admitted spares hit =
    let (at, t) = admitted-HasToken s deployment token state admitted in
    let still = run-HasToken calls token at (start s') spares t in
    let now = (run calls (start s')).store in
    let (c, found) = lookup_inv schema_version reader semantic max catalog_max key now hit in
    token-busy false reader token at now c
      (validate-IsValidated false schema_version reader now found.validated) still found.quiet

-- Nor is any publication stored: PUBLISH fails or leaves the store as it was.
pub writer-fences-publish :
    (s : Store) (calls : List Call) (deployment token state : Bytes) (reply : List Bytes)
    (s' : Store) (replicates : Bool) (max ttl_seconds : ℕ) (p : Publication)
    → admit_script schema_version deployment token state s ≡ some (reply, s')
    → All (Spares token) calls
    → left_by
        (publish_script replicates schema_version p.deployment p.semantic p.epoch p.response max
          ttl_seconds p.key
          (run calls (start s')).store)
        (run calls (start s')).store
      ≡ (run calls (start s')).store
writer-fences-publish s calls deployment token state reply s' replicates max ttl_seconds p admitted
      spares =
    let (at, t) = admitted-HasToken s deployment token state admitted in
    let still = run-HasToken calls token at (start s') spares t in
    left_by_same _ (run calls (start s')).store (λ r u.
      publish-same replicates max ttl_seconds p token at (run calls (start s')).store r u still)
