-- ===== src/Bech32.antt =====
-- internal/bech32/bech32.go: the checksum, the encoder and the validity test of bech32 addresses.
-- Go's `int` is a plain number here: a checksum stays below 2 ^ 30 (Checksum), and the accumulator
-- of `convert_bits` keeps its wrap-around at 64 bits, where only the lowest bits are read.
pub mod Checksum
pub mod Regroup
pub mod Valid
pub mod Detect
pub mod Encode
use sentnodes_agent.Base.{
  ℕ, zero, suc, ◌+◌, ◌-◌, ◌*◌, ◌/◌, ◌%◌, ◌^◌, bit_and, bit_or, bit_xor, Bool, true, false, ◌&&◌,
  ◌||◌, Option, none, some, List, [], ◌∷◌, ◌++◌, map, ltb, leb, ◌==◌, if◌then◌else◌, length, take,
  drop, get_or,
}
use sentnodes_agent.Base.Text.{Text, codes, equal, index_byte, last_index, to_lower, trim_space}
use mathlib.Core.List.{foldl}

abbrev pub charset : Text
charset = codes "qpzry9x8gf2tvdw0s3jn54khce6mua7l"

abbrev pub gen : List ℕ
gen = 0x3b6a57b2 ∷ 0x26508e6d ∷ 0x1ea119fa ∷ 0x3d4233dd ∷ 0x2a1462b3 ∷ []

-- The inner loop of `polymod`, from round `i` on.
unfoldable pub mix : ℕ → List ℕ → ℕ → ℕ → ℕ
mix i [] b chk = chk
mix i (g ∷ gs) b chk = mix (suc i) gs b (if bit_and (b / 2 ^ i) 1 == 1 then bit_xor chk g else chk)

-- One round of the outer loop.
unfoldable pub poly_step : ℕ → ℕ → ℕ
poly_step chk v = mix 0 gen (chk / 2 ^ 25) (bit_xor (bit_and chk 0x1ffffff * 2 ^ 5) v)

unfoldable pub polymod : List ℕ → ℕ
polymod = foldl poly_step 1

unfoldable pub hrp_expand : Text → List ℕ
hrp_expand hrp = map (λ c. c / 2 ^ 5) hrp ++ 0 ∷ map (λ c. bit_and c 0x1f) hrp

-- `for bits >= to` on `bits` and `ret`; a round takes `to` bits off, so `bits` rounds are enough
-- for `0 < to`.
unfoldable pub take_groups : ℕ → ℕ → ℕ → ℕ → List ℕ → ℕ × List ℕ
take_groups zero acc bits to ret = (bits, ret)
take_groups (suc fuel) acc bits to ret =
    let maxv : ℕ = 2 ^ to - 1 in
    let bits' : ℕ = bits - to in
    let rest = take_groups fuel acc bits' to (ret ++ bit_and (acc / 2 ^ bits') maxv ∷ []) in
    if leb to bits then rest else (bits, ret)

pub data ConvertError : Type 0 where
  invalid_data_range invalid_padding : ConvertError

pub data Result {ℓ} (A : Type ℓ) : Type ℓ where
  ok : A → Result A
  err : ConvertError → Result A

-- What stands behind the loop over `data`.
unfoldable pub finish_bits : ℕ → ℕ → ℕ → ℕ → Bool → List ℕ → Result (List ℕ)
finish_bits acc bits from to true ret =
    let maxv : ℕ = 2 ^ to - 1 in
    ok (if ltb 0 bits then ret ++ bit_and (acc * 2 ^ (to - bits)) maxv ∷ [] else ret)
finish_bits acc bits from to false ret =
    let maxv : ℕ = 2 ^ to - 1 in
    if leb from bits || ltb 0 (bit_and (acc * 2 ^ (to - bits)) maxv)
    then err invalid_padding
    else ok ret

-- The loop over `data`. `acc` is an int: its bits above the lowest 64 are lost.
unfoldable pub convert_loop : List ℕ → ℕ → ℕ → ℕ → ℕ → Bool → List ℕ → Result (List ℕ)
unfolding take_groups finish_bits
convert_loop [] acc bits from to pad ret = finish_bits acc bits from to pad ret
convert_loop (value ∷ bytes) acc bits from to pad ret =
    let acc' = bit_or (acc * 2 ^ from) value % 2 ^ 64 in
    let (bits', ret') = take_groups (bits + from) acc' (bits + from) to ret in
    let rest = convert_loop bytes acc' bits' from to pad ret' in
    if value / 2 ^ from == 0 then rest else err invalid_data_range

unfoldable pub convert_bits : List ℕ → ℕ → ℕ → Bool → Result (List ℕ)
unfolding convert_loop
convert_bits bytes from to pad = convert_loop bytes 0 0 from to pad []

-- The six characters of the checksum, `i` from 0 to 5.
unfoldable pub checksum_digits : ℕ → List ℕ
checksum_digits pm = map (λ i. bit_and (pm / 2 ^ (5 * (5 - i))) 0x1f) (0 ∷ 1 ∷ 2 ∷ 3 ∷ 4 ∷ 5 ∷ [])

abbrev pub zeros : List ℕ
zeros = 0 ∷ 0 ∷ 0 ∷ 0 ∷ 0 ∷ 0 ∷ []

abbrev pub symbol : ℕ → ℕ
symbol d = get_or charset d 0

-- `Encode` behind `convertBits`.
unfoldable pub encode_groups : Text → List ℕ → Text
unfolding polymod poly_step mix hrp_expand checksum_digits
encode_groups hrp conv =
    let pm = bit_xor (polymod (hrp_expand hrp ++ conv ++ zeros)) 1 in
    hrp ++ b'1' ∷ map symbol conv ++ map symbol (checksum_digits pm)

abbrev pub map_ok {ℓ κ} : {A : Type ℓ} {B : Type κ} → (A → B) → Result A → Result B
map_ok f (ok a) = ok (f a)
map_ok f (err e) = err e

unfoldable pub encode : Text → List ℕ → Result Text
unfolding convert_bits encode_groups
encode hrp bytes = map_ok (encode_groups hrp) (convert_bits bytes 8 5 true)

abbrev pub cons_value : Option ℕ → Option (List ℕ) → Option (List ℕ)
cons_value none ds = none
cons_value (some idx) none = none
cons_value (some idx) (some ds) = some (idx ∷ ds)

-- The loop over the characters behind the separator; `none` is a character outside the charset.
unfoldable pub symbol_values : Text → Option (List ℕ)
symbol_values [] = some []
symbol_values (ch ∷ s) = cons_value (index_byte charset ch) (symbol_values s)

-- `IsValid` behind the search for the separator.
unfoldable pub check_at : ℕ → Text → Text → Bool
unfolding symbol_values polymod poly_step mix hrp_expand
check_at pos addr hrp =
    if ltb pos 1 || ltb (length addr) (pos + 7)
    then false
    else if equal (take pos addr) hrp
    then elim (symbol_values (drop (pos + 1) addr)) [
      | none ↦ false
      | some ds ↦ polymod (hrp_expand hrp ++ ds) == 1
    ]
    else false

-- `IsValid` of the address in lower case with no spaces round it.
unfoldable pub valid_normal : Text → Text → Bool
unfolding check_at
valid_normal addr hrp = elim (last_index addr b'1') [
  | none ↦ false
  | some pos ↦ check_at pos addr hrp
]

unfoldable pub is_valid : Text → Text → Bool
unfolding valid_normal
is_valid addr hrp = valid_normal (to_lower (trim_space addr)) hrp
