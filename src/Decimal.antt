-- ===== src/Decimal.antt =====
-- `strconv.FormatUint` and `strconv.ParseUint` in base 10 for 64 bits, as internal/chain/chain.go
-- uses them.
pub mod Laws
use sentnodes_agent.Base.{
  ℕ, zero, suc, ◌+◌, ◌-◌, ◌*◌, ◌/◌, ◌%◌, ◌^◌, Bool, true, false, ◌&&◌, Option, none, some, List, [],
  ◌∷◌, ◌++◌, ltb, leb, if◌then◌else◌,
}
use sentnodes_agent.Base.Text.{Text, codes}

-- Digits from the lowest up, in front of `out`; a uint64 has at most 20 of them.
unfoldable pub format_digits : ℕ → ℕ → Text → Text
format_digits zero v out = out
format_digits (suc fuel) v out =
    let more = format_digits fuel (v / 10) ((b'0' + v % 10) ∷ out) in
    if ltb v 10 then (b'0' + v) ∷ out else more

unfoldable pub format_uint : ℕ → Text
unfolding format_digits
format_uint v = format_digits 20 v []

abbrev pub is_digit : ℕ → Bool
is_digit c = leb b'0' c && leb c b'9'

pub data Parsed : Type 0 where
  value : ℕ → Parsed
  syntax_error : Parsed
  -- ErrRange, which comes with the greatest uint64
  range_error : Parsed

-- The digits read on from the number `n`.
unfoldable pub parse_digits : ℕ → Text → Parsed
parse_digits n [] = value n
parse_digits n (c ∷ s) =
    let m : ℕ = n * 10 + (c - b'0') in
    let more = parse_digits m s in
    if is_digit c then if ltb m (2 ^ 64) then more else range_error else syntax_error

unfoldable pub parse_uint : Text → Parsed
unfolding parse_digits
parse_uint [] = syntax_error
parse_uint (c ∷ s) = parse_digits 0 (c ∷ s)

-- `v, _ := strconv.ParseUint(...)`
abbrev pub parsed_value : Parsed → ℕ
parsed_value (value v) = v
parsed_value syntax_error = 0
parsed_value range_error = 2 ^ 64 - 1
