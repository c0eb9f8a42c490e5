-- ===== src/Bech32/Encode.antt =====
-- `Encode` on bytes: it succeeds, what it writes is valid, and it writes different addresses for
-- different bytes.
use sentnodes_agent.Base.{
  ℕ, ◌+◌, ◌*◌, ◌/◌, ◌^◌, ◌≤◌, ◌<◌, bit_xor, true, List, [], ◌∷◌, ◌++◌, map, length, length-append,
  All, All-append, ◌≡◌, refl, sym, ap, ◌∙◌, arith, some,
}
use sentnodes_agent.Base.Text.{Text}
use sentnodes_agent.Base.Text.Laws.{IsPlain}
use sentnodes_agent.Bech32.{
  ok, map_ok, symbol, encode_groups, convert_bits, encode, symbol_values, checksum_digits, polymod,
  hrp_expand, zeros, is_valid,
}
use sentnodes_agent.Bech32.Checksum.{IsSymbol}
use sentnodes_agent.Bech32.Regroup.{IsByte, value, Regroups, convert_bits-Regroups}
use sentnodes_agent.Bech32.Valid.{encode_groups-is_valid, symbol_values-map, verdict-checksum}
use mathlib.Core.Path.{ap₂, subst}
use native.Mathlib.Nat.{mul-div_cancel, one-le-pow}
use mathlib.Core.List.{foldl, append_assoc, append_cancel_left, map-append}

encode-groups :
    (hrp : Text) (bytes conv : List ℕ)
    → convert_bits bytes 8 5 true ≡ ok conv
    → encode hrp bytes ≡ ok (encode_groups hrp conv)
unfolding encode
encode-groups hrp bytes conv e = ap (map_ok (encode_groups hrp)) e

-- Under a prefix of visible characters without capitals that is not empty, `Encode` succeeds on
-- bytes, and `IsValid` accepts the address for the same prefix.
pub encode-is_valid :
    (hrp : Text) (bytes : List ℕ)
    → All IsPlain hrp
    → 1 ≤ length hrp
    → All IsByte bytes
    → (addr : Text) × (encode hrp bytes ≡ ok addr) × (is_valid addr hrp ≡ true)
encode-is_valid hrp bytes h k b =
    let (pad, conv, e, r) = convert_bits-Regroups bytes b in
    (
      encode_groups hrp conv,
      encode-groups hrp bytes conv e,
      encode_groups-is_valid hrp conv h k r.symbols,
    )

spells-injective :
    (xs ys : List ℕ) (a b : ℕ)
    → All IsByte xs
    → All IsByte ys
    → length xs ≡ length ys
    → foldl (λ n d. n * 256 + d) a xs ≡ foldl (λ n d. n * 256 + d) b ys
    → (a ≡ b) × (xs ≡ ys)
spells-injective [] [] a b h k l e = (e, refl)
spells-injective [] (y ∷ ys) a b h k l e = absurd (omega arith)
spells-injective (x ∷ xs) [] a b h k l e = absurd (omega arith)
spells-injective (x ∷ xs) (y ∷ ys) a b (hx, h) (ky, k) l e =
    let (heads, tails) = spells-injective xs ys (a * 256 + x) (b * 256 + y) h k (omega arith) e in
    let same : x ≡ y = omega arith in (omega arith, ap₂ ◌∷◌ same tails)

value-injective :
    (xs ys : List ℕ)
    → All IsByte xs
    → All IsByte ys
    → length xs ≡ length ys
    → value 256 xs ≡ value 256 ys
    → xs ≡ ys
unfolding value
value-injective xs ys h k l e = (spells-injective xs ys 0 0 h k l e).1

-- Equal groups come from equal bytes.
Regroups-injective :
    (xs ys : List ℕ) {pad pad' : ℕ} {conv : List ℕ}
    → All IsByte xs
    → All IsByte ys
    → Regroups (value 256 xs) (length xs) pad conv
    → Regroups (value 256 ys) (length ys) pad' conv
    → xs ≡ ys
Regroups-injective xs ys {pad} {pad'} h k r q =
    let same_pad : pad ≡ pad' = omega arith in
    let pos : 0 < 2 ^ pad = one-le-pow pad 2 (omega arith) in
    let same : value 256 xs * 2 ^ pad ≡ value 256 ys * 2 ^ pad =
      sym r.spells ∙ q.spells ∙ ap (λ (t : ℕ). value 256 ys * 2 ^ t) (sym same_pad) in
    value-injective xs ys h k (omega arith) (
      sym (mul-div_cancel (value 256 xs) pos)
      ∙ ap (λ (t : ℕ). t / 2 ^ pad) same
      ∙ mul-div_cancel (value 256 ys) pos)

append_injective : (xs ys us vs : List ℕ) → length us ≡ length vs → xs ++ us ≡ ys ++ vs → xs ≡ ys
append_injective [] [] us vs l e = refl
append_injective [] (y ∷ ys) us vs l e = absurd (omega (arith, ap length e, length-append ys vs))
append_injective (x ∷ xs) [] us vs l e = absurd (omega (arith, ap length e, length-append xs us))
append_injective (x ∷ xs) (y ∷ ys) us vs l e =
    let tails : xs ++ us ≡ ys ++ vs = cc in
    let heads : x ≡ y = cc in ap₂ ◌∷◌ heads (append_injective xs ys us vs l tails)

-- The characters behind the separator.
tail_of : Text → List ℕ → List ℕ
tail_of hrp conv = conv ++ checksum_digits (bit_xor (polymod (hrp_expand hrp ++ conv ++ zeros)) 1)

encode_groups-tail_of :
    (hrp : Text) (conv : List ℕ)
    → encode_groups hrp conv ≡ hrp ++ b'1' ∷ map symbol (tail_of hrp conv)
unfolding encode_groups tail_of
encode_groups-tail_of hrp conv =
    append_assoc hrp (b'1' ∷ map symbol conv) _
    ∙ ap (λ t. hrp ++ b'1' ∷ t) (sym (map-append symbol conv _))

encode_groups-injective :
    (hrp : Text) (c d : List ℕ)
    → All IsPlain hrp
    → All IsSymbol c
    → All IsSymbol d
    → encode_groups hrp c ≡ encode_groups hrp d
    → c ≡ d
unfolding tail_of
encode_groups-injective hrp c d h k l e =
    let behind : map symbol (tail_of hrp c) ≡ map symbol (tail_of hrp d) = tail_eq (
      append_cancel_left hrp _ _
        (sym (encode_groups-tail_of hrp c) ∙ e ∙ encode_groups-tail_of hrp d)) in
    let values : some (tail_of hrp c) ≡ some (tail_of hrp d) =
      sym (symbol_values-map (tail_of hrp c) (symbols c k))
      ∙ ap symbol_values behind
      ∙ symbol_values-map (tail_of hrp d) (symbols d l) in
    append_injective c d _ _ (six _ ∙ sym (six _)) (some_eq values)
  where
    tail_eq : {x y : List ℕ} → b'1' ∷ x ≡ b'1' ∷ y → x ≡ y
    tail_eq p = cc

    some_eq : {x y : List ℕ} → some x ≡ some y → x ≡ y
    some_eq p = cc

    six : (pm : ℕ) → length (checksum_digits pm) ≡ 6
    six pm = unfold checksum_digits in refl

    symbols : (g : List ℕ) → All IsSymbol g → All IsSymbol (tail_of hrp g)
    symbols g a = All-append IsSymbol g _ a (verdict-checksum hrp g h a).0

-- Under one prefix of visible characters without capitals, different bytes have different addresses.
pub encode-injective :
    (hrp : Text) (xs ys : List ℕ)
    → All IsPlain hrp
    → All IsByte xs
    → All IsByte ys
    → encode hrp xs ≡ encode hrp ys
    → xs ≡ ys
encode-injective hrp xs ys h bx by e =
    let (pad, c, ec, rc) = convert_bits-Regroups xs bx in
    let (pad', d, ed, rd) = convert_bits-Regroups ys by in
    let same : c ≡ d =
      encode_groups-injective hrp c d h rc.symbols rd.symbols
        (ok_injective (sym (encode-groups hrp xs c ec) ∙ e ∙ encode-groups hrp ys d ed)) in
    Regroups-injective xs ys bx by rc
      (subst (Regroups (value 256 ys) (length ys) pad') (sym same) rd)
  where
    ok_injective : {a b : Text} → ok a ≡ ok b → a ≡ b
    ok_injective p = cc
