-- ===== src/Bech32/Regroup.antt =====
-- `convertBits` from bytes to groups of five bits: what the groups spell.
use sentnodes_agent.Base.{
  ℕ, zero, suc, ◌+◌, ◌-◌, ◌*◌, ◌/◌, ◌%◌, ◌^◌, ◌≤◌, ◌<◌, bit_and, bit_or, true, List, [], ◌∷◌, ◌++◌,
  leb, ◌==◌, Bool-cases, inl, inr, length, All, All-append, ◌≡◌, refl, sym, ap, ◌∙◌, arith,
  length-append,
}
use sentnodes_agent.Base.Bits.{bit_and_mask, bit_or_disjoint}
use sentnodes_agent.Bech32.{take_groups, finish_bits, ok, convert_loop, convert_bits}
use sentnodes_agent.Bech32.Checksum.{IsSymbol}
use mathlib.Core.Path.{subst}
use native.Mathlib.Nat.{
  add-zero, mod-lt, one-le-pow, div-add-mod', mod-eq_of_lt, mul-add-mod_self_right,
}
use native.Mathlib.Numerals.{towards_suc}
use mathlib.Core.List.{foldl, foldl-append}

abbrev pub IsByte : ℕ → Type 0
IsByte b = b < 256

-- The number that digits spell, the highest first.
unfoldable pub value : ℕ → List ℕ → ℕ
value base = foldl (λ n d. n * base + d) 0

value-concat : (ds : List ℕ) (d : ℕ) → value 32 (ds ++ d ∷ []) ≡ value 32 ds * 32 + d
unfolding value
value-concat ds d = foldl-append (λ n d. n * 32 + d) 0 ds (d ∷ [])

-- What a round of the outer loop leaves: fewer than five bits, and the same number as before.
record Taken (acc bits : ℕ) (ret : List ℕ) (r : ℕ × List ℕ) : Type 0 where
  left : r.0 < 5
  symbols : All IsSymbol r.1
  spells : value 32 r.1 * 2 ^ r.0 + acc % 2 ^ r.0 ≡ value 32 ret * 2 ^ bits + acc % 2 ^ bits
  counts : 5 * length r.1 + r.0 ≡ 5 * length ret + bits

five_more : (k : ℕ) → 2 ^ (k + 5) ≡ 32 * 2 ^ k
five_more k = simp towards_suc (omega arith)

-- The group above the lowest `k` bits.
mod_group : (k a : ℕ) → a % 2 ^ (k + 5) ≡ a / 2 ^ k % 32 * 2 ^ k + a % 2 ^ k
mod_group k a =
    let p : ℕ = 2 ^ k in
    let q : ℕ = a / 2 ^ k in
    let low : a % p < p = mod-lt a (one-le-pow k 2 (omega arith)) in
    let r : ℕ = q % 32 * p + a % p in
    let fits : r < 32 * p = grind (arith, low) in
    let split : a ≡ q / 32 * (32 * p) + r =
      omega (arith, div-add-mod' a p, ap (λ (t : ℕ). t * p) (div-add-mod' q 32)) in
    rw (five_more k) (
      ap (λ (t : ℕ). t % (32 * p)) split
      ∙ mul-add-mod_self_right (q / 32) (32 * p) r
      ∙ mod-eq_of_lt fits)

settled :
    (acc bits : ℕ) (ret : List ℕ) → bits < 5 → All IsSymbol ret → Taken acc bits ret (bits, ret)
settled acc bits ret h s = record { left = h; symbols = s; spells = refl; counts = refl }

-- One group more leaves the number as it is.
one_group :
    (acc k : ℕ) (ret : List ℕ) (r : ℕ × List ℕ)
    → All IsSymbol ret
    → Taken acc k (ret ++ bit_and (acc / 2 ^ k) 0x1f ∷ []) r
    → Taken acc (k + 5) ret r
one_group acc k ret r s t =
    let d : ℕ = bit_and (acc / 2 ^ k) 0x1f in
    let e : d ≡ acc / 2 ^ k % 32 = bit_and_mask 5 (acc / 2 ^ k) in
    record {
      left = t.left;
      symbols = t.symbols;
      spells = omega (
        arith,
        t.spells,
        five_more k,
        mod_group k acc,
        ap (λ (x : ℕ). x * 2 ^ k) (value-concat ret d),
        ap (λ (x : ℕ). x * 2 ^ k) e,
        ap (λ (x : ℕ). value 32 ret * x) (five_more k),
      );
      counts = omega (arith, t.counts, length-append ret (d ∷ []));
    }

take_groups-Taken :
    (fuel acc bits : ℕ) (ret : List ℕ)
    → bits ≤ fuel
    → All IsSymbol ret
    → Taken acc bits ret (take_groups fuel acc bits 5 ret)
unfolding take_groups
take_groups-Taken zero acc bits ret h s = settled acc bits ret (omega arith) s
take_groups-Taken (suc fuel) acc bits ret h s = elim (Bool-cases (leb 5 bits)) [
  | inr p ↦ rw p (settled acc bits ret (ground arith) s)
  | inl p ↦
      let k : ℕ = bits - 5 in
      let e : bits ≡ k + 5 = ground arith in
      let d : ℕ = bit_and (acc / 2 ^ k) 0x1f in
      let symbols : All IsSymbol (ret ++ d ∷ []) =
        All-append IsSymbol ret (d ∷ []) s (omega (arith, bit_and_mask 5 (acc / 2 ^ k))) in
      let t = take_groups-Taken fuel acc k (ret ++ d ∷ []) (omega arith) symbols in
      let r : ℕ × List ℕ = take_groups fuel acc k 5 (ret ++ d ∷ []) in
      rw p (subst (λ b. Taken acc b ret r) (sym e) (one_group acc k ret r s t))
]

-- `conv` holds `n` bytes that spell `v`, filled up with `pad` zero bits.
pub record Regroups (v n pad : ℕ) (conv : List ℕ) : Type 0 where
  pub symbols : All IsSymbol conv
  pub spells : value 32 conv ≡ v * 2 ^ pad
  pub counts : 5 * length conv ≡ 8 * n + pad
  pub short : pad < 5

-- What the loop knows of `acc`, `bits` and `ret` after `n` bytes that spell `v`.
record Read (v n acc bits : ℕ) (ret : List ℕ) : Type 0 where
  left : bits < 5
  symbols : All IsSymbol ret
  spells : v ≡ value 32 ret * 2 ^ bits + acc % 2 ^ bits
  counts : 5 * length ret + bits ≡ 8 * n

-- Filling up the last group moves its bits to the top of it.
fill_up :
    (bits acc : ℕ)
    → bits < 5
    → (acc * 2 ^ (5 - bits) % 32 ≡ acc % 2 ^ bits * 2 ^ (5 - bits))
      × (2 ^ bits * 2 ^ (5 - bits) ≡ 32)
fill_up zero acc h = omega arith
fill_up (suc zero) acc h = omega arith
fill_up (suc (suc zero)) acc h = omega arith
fill_up (suc (suc (suc zero))) acc h = omega arith
fill_up (suc (suc (suc (suc zero)))) acc h = omega arith
fill_up (suc (suc (suc (suc (suc n))))) acc h = absurd (omega arith)

finish_bits-Regroups :
    (v n acc bits : ℕ) (ret : List ℕ)
    → Read v n acc bits ret
    → (pad : ℕ) × (conv : List ℕ) × (finish_bits acc bits 8 5 true ret ≡ ok conv)
      × Regroups v n pad conv
unfolding finish_bits
finish_bits-Regroups v n acc zero ret r = (
  0,
  ret,
  refl,
  record {
    symbols = r.symbols;
    spells = omega (arith, r);
    counts = omega (arith, r);
    short = omega arith;
  },
)
finish_bits-Regroups v n acc (suc bits) ret r =
    let pad : ℕ = 5 - suc bits in
    let d : ℕ = bit_and (acc * 2 ^ pad) 0x1f in
    let e : d ≡ acc * 2 ^ pad % 32 = bit_and_mask 5 (acc * 2 ^ pad) in
    let (moved, whole) = fill_up (suc bits) acc r.left in
    (
      pad,
      ret ++ d ∷ [],
      ground arith,
      record {
        symbols = All-append IsSymbol ret (d ∷ []) r.symbols (omega (arith, e));
        spells = omega (
          arith,
          value-concat ret d,
          e,
          moved,
          ap (λ (x : ℕ). x * 2 ^ pad) r.spells,
          ap (λ (x : ℕ). value 32 ret * x) whole,
        );
        counts = omega (arith, length-append ret (d ∷ []), r.counts, r.left);
        short = omega arith;
      },
    )

accumulate :
    (acc bits x : ℕ)
    → bits < 5
    → x < 256
    → bit_or (acc * 2 ^ 8) x % 2 ^ 64 % 2 ^ (bits + 8) ≡ acc % 2 ^ bits * 256 + x
accumulate acc zero x h b = omega (arith, bit_or_disjoint 8 acc x)
accumulate acc (suc zero) x h b = omega (arith, bit_or_disjoint 8 acc x)
accumulate acc (suc (suc zero)) x h b = omega (arith, bit_or_disjoint 8 acc x)
accumulate acc (suc (suc (suc zero))) x h b = omega (arith, bit_or_disjoint 8 acc x)
accumulate acc (suc (suc (suc (suc zero)))) x h b = omega (arith, bit_or_disjoint 8 acc x)
accumulate acc (suc (suc (suc (suc (suc n))))) x h b = absurd (omega arith)

eight_more : (k : ℕ) → 2 ^ (k + 8) ≡ 256 * 2 ^ k
eight_more k = simp towards_suc (omega arith)

-- One round of the loop over the bytes.
next-Read :
    (v n acc bits x : ℕ) (ret : List ℕ)
    → IsByte x
    → Read v n acc bits ret
    → let acc' = bit_or (acc * 2 ^ 8) x % 2 ^ 64 in
      let r = take_groups (bits + 8) acc' (bits + 8) 5 ret in
      Read (v * 256 + x) (n + 1) acc' r.0 r.1
next-Read v n acc bits x ret b r =
    let acc' : ℕ = bit_or (acc * 2 ^ 8) x % 2 ^ 64 in
    let t = take_groups-Taken (bits + 8) acc' (bits + 8) ret (omega arith) r.symbols in
    record {
      left = t.left;
      symbols = t.symbols;
      spells = omega (
        arith,
        t.spells,
        r.spells,
        accumulate acc bits x r.left b,
        ap (λ (y : ℕ). value 32 ret * y) (eight_more bits),
      );
      counts = omega (arith, t.counts, r.counts);
    }

-- The number that the bytes spell on from `v`.
abbrev spell_on : ℕ → List ℕ → ℕ
spell_on = foldl (λ n d. n * 256 + d)

convert_loop-Regroups :
    (bytes : List ℕ) (v n acc bits : ℕ) (ret : List ℕ)
    → All IsByte bytes
    → Read v n acc bits ret
    → (pad : ℕ) × (conv : List ℕ) × (convert_loop bytes acc bits 8 5 true ret ≡ ok conv)
      × Regroups (spell_on v bytes) (n + length bytes) pad conv
unfolding convert_loop
convert_loop-Regroups [] v n acc bits ret h r =
    rw add-zero (finish_bits-Regroups v n acc bits ret r)
convert_loop-Regroups (x ∷ bytes) v n acc bits ret (b, h) r =
    let acc' : ℕ = bit_or (acc * 2 ^ 8) x % 2 ^ 64 in
    let taken : ℕ × List ℕ = take_groups (bits + 8) acc' (bits + 8) 5 ret in
    let (pad, conv, e, g) =
      convert_loop-Regroups bytes (v * 256 + x) (n + 1) acc' taken.0 taken.1 h
        (next-Read v n acc bits x ret b r) in
    let small : (x / 2 ^ 8 == 0) ≡ true = ground arith in
    let same : n + 1 + length bytes ≡ n + length (x ∷ bytes) = omega arith in
    (pad, conv, rw small e, subst (λ k. Regroups (spell_on (v * 256 + x) bytes) k pad conv) same g)

-- On bytes `convertBits` never fails: its groups are symbols, spell the number of the bytes with
-- fewer than five zero bits behind it, and are as many as that takes.
pub convert_bits-Regroups :
    (bytes : List ℕ)
    → All IsByte bytes
    → (pad : ℕ) × (conv : List ℕ) × (convert_bits bytes 8 5 true ≡ ok conv)
      × Regroups (value 256 bytes) (length bytes) pad conv
unfolding convert_bits value
convert_bits-Regroups bytes h =
    let start : Read 0 0 0 0 [] = record {
      left = omega arith;
      symbols = tt;
      spells = refl;
      counts = refl;
    } in
    let (pad, conv, e, g) = convert_loop-Regroups bytes 0 0 0 0 [] h start in
    (pad, conv, e, subst (λ k. Regroups (spell_on 0 bytes) k pad conv) (omega arith) g)
