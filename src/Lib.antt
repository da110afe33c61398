-- ===== src/Lib.antt =====
-- qdrant-es-gateway: an HTTP gateway that serves the Elasticsearch API from Qdrant. This library
-- models the core of the Rust program under src/ of the repository and proves what makes it correct.
--
-- The parts, and how they interact. A request is dispatched (src/main.rs), its body is parsed and
-- validated, its query is translated to a Qdrant filter or evaluated by the gateway on the source
-- documents, and the hits are projected. With coordinated caching, a response is looked up in and
-- published to a cache in Redis (src/read_cache.rs), which every writer fences off while it runs.
--
--   Prelude, Parse, Json   numbers, texts, JSON values as serde_json has them (a map is kept in the
--                          order of its keys), their equality, their size and their 64-bit floats
--   Errors                 GatewayError and its status of src/main.rs, results, chains of steps
--   Query/Fields           source_field, compatibility_field, source_value_exists,
--                          source_value_matches, single_filter_field
--   Query/Bool             bool_clauses, minimum_should_match
--   Query/PostFilter       validate_post_filter
--   Query/Match            source_matches_query
--   Query/Filter           term_condition and query_filter; the vectors that walk is handed as &mut
--                          are threaded through as a record
--   Source/Glob            glob_matches; an index into a text is what is left of it from there on
--   Source/Filter          parse_source_filter, project_source_value, project_source
--   Source/Merge           merge_partial_document; it returns the target that the source changes
--   Search                 parse_search_window, validate_search_after, parse_sort_specs,
--                          parse_track_total_hits, total_hits_value, parse_collapse_spec,
--                          validate_search_execution_controls
--   Mutations              src/mutation_completion.rs: classify, is_read and Proof::accepts; the counter
--                          of attempts and Qdrant::mutation of src/main.rs (Tracker), whose requests
--                          and answers overlap as a list of events
--   Catalog                src/shared_catalog.rs: ReadView::resolve, and the scripts of begin, publish
--                          and release on the two Redis keys, called in any order
--   Search/Order           value_cmp, hit_sort_value, compare_sorted_hits, hit_is_after and the sort
--                          array of a returned hit
--   TextQuery/Distance     edit_distance, on the code points of the texts
--   TextQuery/Words        words, field_text, fuzzy_matches
--   TextQuery/Match        text_query_matches, contains_approx_text_query
--   Admin                  create_index and delete_index with the statements on the two tables, and the
--                          batch of aliases; a run of their requests is a list (Admin/Laws)
--   Sparse                 src/sparse.rs: name, validate_mapping, vector, document
--   Documents              flatten_text, search_vector_for_field
--   Aggregations           src/aggregations.rs: Plan::parse (Plan), Reduction::observe (Aggregations,
--                          Counts) and finish (Finish), with the standard library's sort as a
--                          parameter; the pages of Qdrant are one list of documents
--   Cache                  src/read_cache.rs: the Lua scripts VALIDATE, LOOKUP, PUBLISH, ADMIT,
--                          RELEASE and STATUS as functions on a store of Redis keys, and every
--                          interleaving of their calls as a list of calls (Cache/History)
--
-- Recursion. Functions on JSON values whose recursive calls go to values that a lookup finds recur on
-- fuel, the size of the value (Prelude/Fixpoint); a theorem for each says that it satisfies the
-- equation of the source, so the fuel is enough. Loops on indices recur on fuel as well, with the
-- bound at the definition.
--
-- Numbers. A 64-bit unsigned integer is a natural number with the bound in the parser that reads it;
-- the one product that can pass 2^64 (percent_of) and the counter of attempts are taken modulo 2^64.
-- A finite float is a sign and a magnitude in units of 2^-1074. The order of texts is that of their
-- code points.
--
-- Not modelled: the HTTP server, and what Qdrant, Redis and SQLite do with a request, which is not in
-- the repository; the mapping checks and facets of aggregations, text scoring, bulk requests and
-- the operator commands, which the library does not treat yet.
pub mod Prelude
pub mod Errors
pub mod Json
pub mod Parse
pub mod Query
pub mod Source
pub mod Search
pub mod Cache
pub mod Mutations
pub mod Catalog
pub mod TextQuery
pub mod Sparse
pub mod Admin
pub mod Documents
pub mod Aggregations
