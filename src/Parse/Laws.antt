-- ===== src/Parse/Laws.antt =====
-- Laws of parsing.
use qdrant_es_gateway.Prelude.{ℕ, ◌<◌, ◌≡◌, String, Option, none, some, arith}
use qdrant_es_gateway.Parse.{parse_unsigned, within}

within-lt : (limit : ℕ) (o : Option ℕ) {n : ℕ} → within limit o ≡ some n → n < limit
within-lt limit none h = cc
within-lt limit (some m) h = ground arith

pub parse_unsigned-lt :
    (limit : ℕ) (s : String) {n : ℕ} → parse_unsigned limit s ≡ some n → n < limit
unfolding parse_unsigned
parse_unsigned-lt limit s h = within-lt limit _ h
