-- ===== src/Search/Totals.antt =====
-- How hits are counted: `TrackTotalHits`, `parse_track_total_hits` and `total_hits_value`.
pub mod Laws
use qdrant_es_gateway.Prelude.{
  ℕ, String, Bool, true, false, ◌&&◌, Option, none, some, if◌then◌else◌, leb, min,
}
use qdrant_es_gateway.Errors.{Result, ok, err, bad, ◌>>=◌, ok_or}
use qdrant_es_gateway.Json.{
  Value, bool, string, number, pos_int, neg_int, object, Fields, end, field, get, as_u64,
}

pub data TrackTotalHits : Type 0 where
  enabled disabled : TrackTotalHits
  threshold : ℕ → TrackTotalHits

abbrev track_value : Value → Result TrackTotalHits
track_value (bool true) = ok enabled
track_value (bool false) = ok disabled
track_value value =
    ok_or (as_u64 value)
      (bad "track_total_hits" "track_total_hits must be true, false, or a non-negative integer")
    >>= λ n. ok (threshold n)

unfoldable pub parse_track_total_hits : Value → Result TrackTotalHits
parse_track_total_hits body = elim (get "track_total_hits" body) [
  | none ↦ ok enabled
  | some value ↦ track_value value
]

-- `{"relation": …, "value": …}`.
abbrev pub total_object : ℕ → Bool → Value
total_object value is_exact = object (
    field "relation" (string (if is_exact then "eq" else "gte"))
      (field "value" (number (pos_int value)) end))

abbrev total_int : TrackTotalHits → ℕ → Value
total_int disabled total = number (neg_int 0)
total_int enabled total = number (pos_int total)
total_int (threshold n) total = number (pos_int total)

abbrev total_for : TrackTotalHits → ℕ → Bool → Option Value
total_for disabled total exact = none
total_for enabled total exact = some (total_object total exact)
total_for (threshold n) total exact = some (total_object (min total n) (exact && leb total n))

unfoldable pub total_hits_value : TrackTotalHits → ℕ → Bool → Bool → Option Value
total_hits_value mode total exact rest_total_hits_as_int =
    if rest_total_hits_as_int then some (total_int mode total) else total_for mode total exact
