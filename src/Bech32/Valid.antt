-- ===== src/Bech32/Valid.antt =====
-- `IsValid` on an address that is a prefix, the separator and symbols; `IsValid` of what `Encode`
-- writes.
use sentnodes_agent.Base.{
  ℕ, suc, ◌+◌, ◌-◌, ◌*◌, ◌/◌, ◌^◌, ◌≤◌, ◌<◌, bit_and, bit_xor, Bool, true, false, ◌&&◌, ◌||◌,
  Option, none, some, List, [], ◌∷◌, ◌++◌, map, ltb, leb, not, ◌==◌, length, drop, All, All-append,
  ◌≡◌, ◌≢◌, refl, sym, ap, ◌∙◌, arith, length-append, take-append,
}
use sentnodes_agent.Base.Bits.{
  all_below, all_below_sound, bit_and_mask, bit_xor_cancel, bit_xor-lt_pow,
}
use sentnodes_agent.Base.Text.{Text, index_byte, to_lower, trim_space}
use sentnodes_agent.Base.Text.Laws.{
  IsPlain, IsPlain-IsGraphic, trim_space-IsGraphic, to_lower-IsPlain, last_index-append, equal_refl,
}
use sentnodes_agent.Bech32.{
  charset, poly_step, polymod, hrp_expand, checksum_digits, zeros, symbol, encode_groups,
  symbol_values, cons_value, check_at, valid_normal, is_valid,
}
use sentnodes_agent.Bech32.Checksum.{IsSymbol, foldl-lt, foldl-six}
use mathlib.Core.Option
use mathlib.Core.Path.{ap₂}
use mathlib.Core.List.{foldl, foldl-append, map-append, append_assoc}

-- A character that may stand behind the separator: visible, no capital letter, no `1`.
abbrev pub IsDatum : ℕ → Type 0
IsDatum c = IsPlain c × (c ≢ b'1')

-- The verdict on the symbols behind the separator.
abbrev pub verdict : Text → Option (List ℕ) → Bool
verdict hrp none = false
verdict hrp (some ds) = polymod (hrp_expand hrp ++ ds) == 1

IsDatum-IsPlain : (s : Text) → All IsDatum s → All IsPlain s
IsDatum-IsPlain [] h = tt
IsDatum-IsPlain (c ∷ s) h = (h.0.0, IsDatum-IsPlain s h.1)

IsDatum-ne : (s : Text) → All IsDatum s → All (λ c. c ≢ b'1') s
IsDatum-ne [] h = tt
IsDatum-ne (c ∷ s) h = (h.0.1, IsDatum-ne s h.1)

drop_behind : (h s : Text) (b : ℕ) → drop (length h + 1) (h ++ b ∷ s) ≡ s
drop_behind [] s b = refl
drop_behind (c ∷ h) s b =
    let e : suc (length h) + 1 ≡ suc (length h + 1) = omega arith in rw e (drop_behind h s b)

check_at-verdict :
    (hrp s : Text)
    → 1 ≤ length hrp
    → 6 ≤ length s
    → check_at (length hrp) (hrp ++ b'1' ∷ s) hrp ≡ verdict hrp (symbol_values s)
unfolding check_at
check_at-verdict hrp s h k = ground (
  arith,
  length-append hrp (b'1' ∷ s),
  take-append hrp (b'1' ∷ s),
  drop_behind hrp s b'1',
  equal_refl hrp,
)

normal : (addr : Text) → All IsPlain addr → to_lower (trim_space addr) ≡ addr
normal addr h =
    ap to_lower (trim_space-IsGraphic addr (IsPlain-IsGraphic addr h)) ∙ to_lower-IsPlain addr h

valid_normal-verdict :
    (hrp s : Text)
    → 1 ≤ length hrp
    → All IsDatum s
    → 6 ≤ length s
    → valid_normal (hrp ++ b'1' ∷ s) hrp ≡ verdict hrp (symbol_values s)
unfolding valid_normal
valid_normal-verdict hrp s k d l =
    rw (last_index-append hrp s b'1' (IsDatum-ne s d), valid_normal) (check_at-verdict hrp s k l)

-- On a normal address the test is that of the checksum of its symbols.
pub is_valid-verdict :
    (hrp s : Text)
    → All IsPlain hrp
    → 1 ≤ length hrp
    → All IsDatum s
    → 6 ≤ length s
    → is_valid (hrp ++ b'1' ∷ s) hrp ≡ verdict hrp (symbol_values s)
unfolding is_valid
is_valid-verdict hrp s h k d l =
    let addr : Text = hrp ++ b'1' ∷ s in
    let plain : All IsPlain addr =
      All-append IsPlain hrp (b'1' ∷ s) h (omega arith, IsDatum-IsPlain s d) in
    ap (λ t. valid_normal t hrp) (normal addr plain) ∙ valid_normal-verdict hrp s k d l

-- What the characters of the charset are.
plain_datum : ℕ → Bool
plain_datum c = leb 33 c && leb c 126 && (ltb c b'A' || ltb b'Z' c) && not (c == b'1')

symbol_table :
    all_below 32
      (λ d. plain_datum (symbol d) && Option.get_or (index_byte charset (symbol d)) 99 == d)
    ≡ true
unfolding all_below plain_datum index_byte
symbol_table = refl

symbol-IsDatum : (d : ℕ) → IsSymbol d → IsDatum (symbol d)
unfolding plain_datum
symbol-IsDatum d h = ground (arith, all_below_sound 32 _ symbol_table d h)

some_of_get_or : (o : Option ℕ) (d : ℕ) → d < 32 → (Option.get_or o 99 == d) ≡ true → o ≡ some d
some_of_get_or none d h e = ground arith
some_of_get_or (some x) d h e = ground arith

index_byte-symbol : (d : ℕ) → IsSymbol d → index_byte charset (symbol d) ≡ some d
unfolding plain_datum
index_byte-symbol d h =
    some_of_get_or (index_byte charset (symbol d)) d h
      (ground (arith, all_below_sound 32 _ symbol_table d h))

pub symbol_values-cons :
    (c : ℕ) (s : Text) {i : ℕ} {ds : List ℕ}
    → index_byte charset c ≡ some i
    → symbol_values s ≡ some ds
    → symbol_values (c ∷ s) ≡ some (i ∷ ds)
unfolding symbol_values
symbol_values-cons c s e f = ap₂ cons_value e f

pub symbol_values-map : (ds : List ℕ) → All IsSymbol ds → symbol_values (map symbol ds) ≡ some ds
symbol_values-map [] h = unfold symbol_values in refl
symbol_values-map (d ∷ ds) (h, hs) =
    symbol_values-cons (symbol d) (map symbol ds) (index_byte-symbol d h) (symbol_values-map ds hs)

map-symbol-IsDatum : (ds : List ℕ) → All IsSymbol ds → All IsDatum (map symbol ds)
map-symbol-IsDatum [] h = tt
map-symbol-IsDatum (d ∷ ds) (h, hs) = (symbol-IsDatum d h, map-symbol-IsDatum ds hs)

hrp_expand-IsSymbol : (hrp : Text) → All IsPlain hrp → All IsSymbol (hrp_expand hrp)
unfolding hrp_expand
hrp_expand-IsSymbol hrp h =
    All-append IsSymbol (map (λ c. c / 2 ^ 5) hrp) (0 ∷ map (λ c. bit_and c 0x1f) hrp) (high hrp h)
      (omega arith, low hrp h)
  where
    high : (s : Text) → All IsPlain s → All IsSymbol (map (λ c. c / 2 ^ 5) s)
    high [] k = tt
    high (c ∷ s) (k, ks) = (omega arith, high s ks)

    low : (s : Text) → All IsPlain s → All IsSymbol (map (λ c. bit_and c 0x1f) s)
    low [] k = tt
    low (c ∷ s) (k, ks) = (omega (arith, bit_and_mask 5 c), low s ks)

-- The six digits spell the checksum.
polymod-checksum_digits :
    (a pm : ℕ)
    → pm < 2 ^ 30
    → All IsSymbol (checksum_digits pm)
      × (foldl poly_step a (checksum_digits pm) ≡ bit_xor (foldl poly_step a zeros) pm)
unfolding checksum_digits
polymod-checksum_digits a pm h =
    let d = λ (i : ℕ). bit_and (pm / 2 ^ (5 * (5 - i))) 0x1f in
    let m = λ (i : ℕ). bit_and_mask 5 (pm / 2 ^ (5 * (5 - i))) in
    let symbols : All IsSymbol (d 0 ∷ d 1 ∷ d 2 ∷ d 3 ∷ d 4 ∷ d 5 ∷ []) =
      omega (arith, m 0, m 1, m 2, m 3, m 4, m 5) in
    (
      symbols,
      foldl-six a (d 0) (d 1) (d 2) (d 3) (d 4) (d 5) symbols
          ∙ ap (bit_xor (foldl poly_step a zeros)) (omega (arith, m 0, m 1, m 2, m 3, m 4, m 5)),
    )

length-map-symbol : (ds : List ℕ) → length (map symbol ds) ≡ length ds
length-map-symbol [] = refl
length-map-symbol (d ∷ ds) = ap suc (length-map-symbol ds)

-- Symbols with their checksum pass.
pub verdict-checksum :
    (hrp : Text) (conv : List ℕ)
    → All IsPlain hrp
    → All IsSymbol conv
    → let pm = bit_xor (polymod (hrp_expand hrp ++ conv ++ zeros)) 1 in
      All IsSymbol (checksum_digits pm) × (verdict hrp (some (conv ++ checksum_digits pm)) ≡ true)
unfolding polymod
verdict-checksum hrp conv h k =
    let head : List ℕ = hrp_expand hrp ++ conv in
    let state : ℕ = foldl poly_step 1 head in
    let sum : ℕ = foldl poly_step 1 (head ++ zeros) in
    let sum_lt : sum < 2 ^ 30 = foldl-lt (head ++ zeros) 1 (omega arith) (
      All-append IsSymbol head zeros
        (All-append IsSymbol (hrp_expand hrp) conv (hrp_expand-IsSymbol hrp h) k) (omega arith)) in
    let digits =
      polymod-checksum_digits state (bit_xor sum 1)
        (bit_xor-lt_pow 30 sum 1 sum_lt (omega arith)) in
    let total : foldl poly_step 1 (hrp_expand hrp ++ (conv ++ checksum_digits (bit_xor sum 1)))
        ≡ 1 =
      ap (foldl poly_step 1) (sym (append_assoc (hrp_expand hrp) conv _))
      ∙ foldl-append poly_step 1 head (checksum_digits (bit_xor sum 1))
      ∙ digits.1
      ∙ ap (λ (t : ℕ). bit_xor t (bit_xor sum 1)) (sym (foldl-append poly_step 1 head zeros))
      ∙ bit_xor_cancel sum 1 in
    (digits.0, ap (λ (t : ℕ). t == 1) total)

-- `IsValid` accepts every address that `Encode` puts together from symbols.
pub encode_groups-is_valid :
    (hrp : Text) (conv : List ℕ)
    → All IsPlain hrp
    → 1 ≤ length hrp
    → All IsSymbol conv
    → is_valid (encode_groups hrp conv) hrp ≡ true
unfolding encode_groups
encode_groups-is_valid hrp conv h k c =
    let pm : ℕ = bit_xor (polymod (hrp_expand hrp ++ conv ++ zeros)) 1 in
    let (digits, passes) = verdict-checksum hrp conv h c in
    let ds : List ℕ = conv ++ checksum_digits pm in
    let symbols : All IsSymbol ds = All-append IsSymbol conv (checksum_digits pm) c digits in
    let long : 6 ≤ length (map symbol ds) =
      omega (arith, length-map-symbol ds, length-append conv (checksum_digits pm), six pm) in
    ap (λ t. is_valid t hrp)
      (append_assoc hrp (b'1' ∷ map symbol conv) (map symbol (checksum_digits pm))
        ∙ ap (λ t. hrp ++ b'1' ∷ t) (sym (map-append symbol conv (checksum_digits pm))))
    ∙ is_valid-verdict hrp (map symbol ds) h k (map-symbol-IsDatum ds symbols) long
    ∙ ap (verdict hrp) (symbol_values-map ds symbols)
    ∙ passes
  where
    six : (pm : ℕ) → length (checksum_digits pm) ≡ 6
    six pm = unfold checksum_digits in refl
