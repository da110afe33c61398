-- ===== src/Cache/Tests.antt =====
-- Runs of the scripts at concrete stores, and the theorems applied to them.
use mathlib.Core.List.{Memᴰ}
use qdrant_es_gateway.Prelude.{
  ◌≡◌, ◌≢◌, ◌≤◌, ◌↔◌, ◌+◌, ◌++◌, refl, ap, true, List, [], ◌∷◌, none, some, arith, codes, All,
}
use qdrant_es_gateway.Cache.Bytes.{Bytes, bytes_eq}
use qdrant_es_gateway.Cache.Epoch.{decimal, le, next_epoch}
use qdrant_es_gateway.Cache.Epoch.Value.{value}
use qdrant_es_gateway.Cache.Epoch.Order.{is_canonical, decimal_iff, next_epoch_lem}
use qdrant_es_gateway.Cache.Store.{Hash, absent, text, hash, Store, set_entry, hget, hset, hdel}
use qdrant_es_gateway.Cache.Config.{valid_digest}
use qdrant_es_gateway.Cache.Scripts.{
  validate, token_fields, lookup_script, lookup_body, lookup_entry, cached_response, publish_script,
  publish_body, admit_script, admit_body, admit_fields, release_script, release_body, status_script,
  status_body,
}
use qdrant_es_gateway.Cache.History.{
  schema_version, Publication, Call, lookup, publish, admit, release, Logged, step, after_publish,
  after_admit, run, start, left_by,
}
use qdrant_es_gateway.Cache.History.Fresh.{hit_is_fresh}
use qdrant_es_gateway.Cache.History.Fence.{Spares, writer-fences-lookup, writer-fences-publish}
use qdrant_es_gateway.Cache.History.Ticket.{stale-ticket}

scripts : Unit {0}
unfolding validate token_fields lookup_script lookup_body lookup_entry cached_response
    publish_script publish_body admit_script admit_body admit_fields release_script release_body
    status_script status_body hget hset hdel decimal le next_epoch set_entry step after_publish
    after_admit run valid_digest
scripts = tt

abbrev digest : Bytes
digest = codes "0123456789abcdef0123456789abcdef0123456789abcdef0123456789abcdef"

abbrev token : Bytes
token = codes "0123456789abcdef0123456789abcdef"

abbrev other_token : Bytes
other_token = codes "fedcba9876543210fedcba9876543210"

abbrev control : Bytes → Hash
control epoch =
    (codes "schema", codes "1")
    ∷ (codes "deployment", codes "blue")
    ∷ (codes "epoch", epoch)
    ∷ (codes "state", codes "active")
    ∷ []

abbrev store : Store
store = record {
  control = hash none (control (codes "99"));
  catalog = text none (codes "{}");
  admin = absent;
  entry = λ k. absent;
}

abbrev page : Bytes → Publication
page epoch = record {
  deployment = codes "blue";
  semantic = digest;
  epoch = epoch;
  response = codes "{\"took\":1}";
  key = codes "k";
}

abbrev calls : List Call
calls =
    lookup (codes "blue") digest (codes "k") 1000 1000
    ∷ publish true 1000 60 (page (codes "99"))
    ∷ []

abbrev after_calls : Store
after_calls = (run calls (start store)).store

hit_after_calls :
    lookup_script schema_version (codes "blue") digest 1000 1000 (codes "k") after_calls
    ≡ some (codes "hit" ∷ codes "99" ∷ codes "{\"took\":1}" ∷ [], after_calls)
unfolding scripts
hit_after_calls = refl

hit_is_fresh_example :
    (l : Logged) × Memᴰ l (run calls (start store)).log
    × (l.published.deployment ≡ codes "blue")
    × (l.published.semantic ≡ digest)
    × (l.published.key ≡ codes "k")
    × (l.published.epoch ≡ codes "99")
    × (l.published.response ≡ codes "{\"took\":1}")
    × (l.admits ≡ (run calls (start store)).admits)
unfolding scripts
hit_is_fresh_example =
    hit_is_fresh store calls (codes "blue") digest (codes "k") (codes "99") (codes "{\"took\":1}")
      1000 1000 after_calls (λ k. refl) (refl, (refl, tt)) refl hit_after_calls

abbrev admitted : Hash
admitted =
    (codes "schema", codes "1")
    ∷ (codes "deployment", codes "blue")
    ∷ (codes "epoch", codes "100")
    ∷ (codes "state", codes "active")
    ∷ (codes "writer:" ++ token, codes "100")
    ∷ []

abbrev fenced : Store
fenced = record after_calls { control = hash none admitted }

admit_after_calls :
    admit_script schema_version (codes "blue") token (codes "active") after_calls
    ≡ some (codes "ok" ∷ codes "100" ∷ [], fenced)
unfolding scripts
admit_after_calls = refl

abbrev others : List Call
others =
    admit (codes "blue") other_token (codes "active")
    ∷ release (codes "blue") other_token (codes "101")
    ∷ []

apart : other_token ≢ token
apart e =
    let p : bytes_eq other_token other_token ≡ bytes_eq token other_token =
      ap (λ (b : Bytes). bytes_eq b other_token) e in
    cc

others_spare : All (Spares token) others
others_spare = (tt, (apart, tt))

-- With the token still there the reader is sent away.
busy_after_others :
    lookup_script schema_version
      (codes "blue")
      digest
      1000
      1000
      (codes "k")
      (run others (start fenced)).store
    ≡ some (codes "busy" ∷ [], (run others (start fenced)).store)
unfolding scripts
busy_after_others = refl

writer-fences-lookup_example :
    lookup_script schema_version
      (codes "blue")
      digest
      1000
      1000
      (codes "k")
      (run others (start fenced)).store
    ≢ some (codes "hit" ∷ codes "99" ∷ codes "{\"took\":1}" ∷ [], fenced)
writer-fences-lookup_example =
    writer-fences-lookup after_calls others (codes "blue") token (codes "active")
      (codes "ok" ∷ codes "100" ∷ []) fenced (codes "blue") digest (codes "k") (codes "99")
      (codes "{\"took\":1}") 1000 1000 fenced admit_after_calls others_spare

writer-fences-publish_example :
    left_by
      (publish_script true schema_version
        (codes "blue")
        digest
        (codes "101")
        (codes "{\"took\":1}")
        1000
        60
        (codes "k")
        (run others (start fenced)).store)
      (run others (start fenced)).store
    ≡ (run others (start fenced)).store
writer-fences-publish_example =
    writer-fences-publish after_calls others (codes "blue") token (codes "active")
      (codes "ok" ∷ codes "100" ∷ []) fenced true 1000 60 (page (codes "101")) admit_after_calls
      others_spare

-- A writer comes and goes between a reader's lookup and its publication.
abbrev writer : List Call
writer =
    admit (codes "blue") token (codes "active") ∷ release (codes "blue") token (codes "100") ∷ []

ticket_of_store :
    lookup_script schema_version (codes "blue") digest 1000 1000 (codes "k") store
    ≡ some (codes "miss" ∷ codes "99" ∷ codes "{}" ∷ [], store)
unfolding scripts
ticket_of_store = refl

stale-ticket_example :
    left_by
      (publish_script true schema_version
        (codes "blue")
        digest
        (codes "99")
        (codes "{\"took\":1}")
        1000
        60
        (codes "k")
        (run writer (start store)).store)
      (run writer (start store)).store
    ≡ (run writer (start store)).store
unfolding scripts
stale-ticket_example =
    stale-ticket (start store) (codes "blue") digest (codes "k") (codes "miss") (codes "{}") 1000
      1000 store writer true 1000 60 (page (codes "99")) ticket_of_store (omega arith)

decimal_iff_example : (decimal (some (codes "9223372036854775808")) ≡ true) ↔ (
    (is_canonical (codes "9223372036854775808") ≡ true)
    × (value (codes "9223372036854775808") ≤ 9223372036854775807))
decimal_iff_example = decimal_iff (codes "9223372036854775808")

next_epoch_lem_example :
    (decimal (some (next_epoch (codes "1999"))) ≡ true)
    × (value (next_epoch (codes "1999")) ≡ value (codes "1999") + 1)
unfolding decimal
next_epoch_lem_example = next_epoch_lem (codes "1999") refl (λ e. cc)
