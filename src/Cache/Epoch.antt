-- ===== src/Cache/Epoch.antt =====
-- Epochs are decimal strings up to 2^63 - 1, which never pass through a Lua number: the functions
-- `decimal` and `le` of VALIDATE, and the carry loop of ADMIT.
pub mod Value
pub mod Order
use mathlib.Core.List.{reverse}
use qdrant_es_gateway.Prelude.{
  ℕ, ◌+◌, ◌-◌, Bool, true, false, ◌&&◌, ◌||◌, List, [], ◌∷◌, Option, none, some, eqb, leb, ltb, all,
  length, if◌then◌else◌, codes,
}
use qdrant_es_gateway.Cache.Bytes.{Bytes, bytes_eq, bytes_le}

abbrev pub is_digit : ℕ → Bool
is_digit c = leb b'0' c && leb c b'9'

abbrev pub max_epoch : Bytes
max_epoch = codes "9223372036854775807"

-- The pattern '^[1-9][0-9]*$'.
abbrev pub is_positive : Bytes → Bool
is_positive [] = false
is_positive (c ∷ s) = (leb b'1' c && leb c b'9') && all is_digit s

-- `decimal`, of a field that may be missing.
unfoldable pub decimal : Option Bytes → Bool
decimal none = false
decimal (some s) =
    (bytes_eq s (codes "0") || is_positive s)
    && (ltb (length s) 19 || (eqb (length s) 19 && bytes_le s max_epoch))

unfoldable pub le : Bytes → Bytes → Bool
le a b = ltb (length a) (length b) || (eqb (length a) (length b) && bytes_le a b)

-- `for i=#epoch,1,-1`, over the reversed string; `chars` grows at its front.
unfoldable pub carry_loop : Bytes → ℕ → Bytes → Bytes
carry_loop [] carry chars = if eqb carry 1 then b'1' ∷ chars else chars
carry_loop (byte ∷ rest) carry chars =
    let digit = byte - 48 + carry in
    carry_loop rest (if eqb digit 10 then 1 else 0)
      ((48 + (if eqb digit 10 then 0 else digit)) ∷ chars)

unfoldable pub next_epoch : Bytes → Bytes
unfolding carry_loop
next_epoch epoch = carry_loop (reverse epoch) 1 []
