-- ===== src/Mutations/Tests.antt =====
-- Requests that are classified, and the theorems applied to them.
use qdrant_es_gateway.Prelude.{◌≡◌, ◌↔◌, refl, true, false, List, [], ◌∷◌, none, some, All, arith}
use qdrant_es_gateway.Mutations.{
  method_put, method_post, completed, collection_boolean, classify, classify_parts, is_read,
  is_read_parts, accepts,
}
use qdrant_es_gateway.Mutations.Laws.{classify-is_read}
use qdrant_es_gateway.Mutations.Tracker.{
  begin, complete, is_complete, required_proof, Answer, Attempts, answer, conclude, Event,
  requested, answered, step, run,
}
use qdrant_es_gateway.Mutations.Tracker.Laws.{IsProved, is_complete_iff}
use qdrant_es_gateway.Errors.{ok}
use qdrant_es_gateway.Json.{Value, bool, string, object, field, end, lookup}

requests : Unit {0}
unfolding classify classify_parts is_read is_read_parts
requests = tt

read_test : is_read method_post "/collections/x/points/scroll?wait=true" ≡ true
unfolding requests
read_test = refl

write_test : classify method_put "/collections/x" ≡ some collection_boolean
unfolding requests
write_test = refl

classify-is_read_example : is_read method_post "/collections/x/points/delete" ≡ false
unfolding requests
classify-is_read_example =
    classify-is_read method_post "/collections/x/points/delete" {proof = completed} refl

abbrev answer_ok : Value → Answer
answer_ok result = ok (true, object (field "result" result (field "status" (string "ok") end)))

abbrev finished : Value
finished = object (field "status" (string "completed") end)

-- Two writes overlap; the second is answered first, and one that does not wait is refused.
abbrev overlapping : List Event
overlapping =
    answered 1 (answer_ok (bool true))
    ∷ answered 0 (answer_ok finished)
    ∷ requested method_put "/collections/x/points" (some (object end))
    ∷ requested method_put "/collections/x/points" (some (object (field "wait" (bool true) end)))
    ∷ requested method_put "/collections/x" none
    ∷ []

abbrev proved : Attempts
proved =
    (completed, some (answer_ok finished)) ∷ (collection_boolean, some (answer_ok (bool true))) ∷ []

ran : run overlapping ≡ (0, proved)
unfolding requests run step required_proof answer conclude begin complete accepts lookup
ran = refl

is_complete_iff_example :
    (is_complete (run overlapping).0 ≡ true) ↔ All IsProved (run overlapping).1
is_complete_iff_example = is_complete_iff overlapping (rw ran (omega arith))
