-- ===== src/Protobuf/Uvarint.antt =====
-- `pb.uvarint` and `binary.Uvarint`: what is written, and that it is read back.
use sentnodes_agent.Base.{
  IsU64, ℕ, zero, suc, ◌+◌, ◌*◌, ◌/◌, ◌%◌, ◌^◌, ◌≤◌, ◌<◌, bit_and, bit_or, true, some, arith, [],
  ◌∷◌, ◌++◌, ltb, ◌==◌, if◌then◌else◌, Bool-cases, inl, inr, length, ◌≡◌, refl, ap, ◌∙◌,
}
use sentnodes_agent.Base.Bits.{all_below, all_below_sound, bit_and_mask, bit_or_low, lt_wf}
use sentnodes_agent.Protobuf.{Bytes, put_loop, put_uvarint, uvarint_from, uvarint}
use mathlib.Core.List.{append_assoc}
use mathlib.Core.Path.{ap₂, subst}
use mathlib.Core.WellFounded.{Acc}
use native.Mathlib.Nat.{div-add-mod'}
use native.Mathlib.Numerals.{towards_suc}

-- The bytes of a number below 128 ^ (k + 1): seven bits each, the lowest first, and the top bit on
-- all but the last.
unfoldable pub groups : ℕ → ℕ → Bytes
groups zero v = v ∷ []
groups (suc k) v =
    let higher = groups k (v / 128) in if ltb v 128 then v ∷ [] else (v % 128 + 128) ∷ higher

marked_table : all_below 256 (λ b. bit_or b 0x80 == b % 128 + 128) ≡ true
unfolding all_below
marked_table = refl

marked : (v : ℕ) → bit_or (v % 256) 0x80 ≡ v % 128 + 128
marked v = ground (arith, all_below_sound 256 _ marked_table (v % 256) (omega arith))

put_loop-groups :
    (k : ℕ) (w : Bytes) (v : ℕ) (a : Acc ◌<◌ v) → v < 128 ^ suc k → put_loop w v a ≡ w ++ groups k v
unfolding put_loop groups
put_loop-groups zero w v (Acc.intro _ smaller) h = ground arith
put_loop-groups (suc k) w v (Acc.intro _ smaller) h =
    let head : Bytes = (v % 128 + 128) ∷ [] in
    grind (
      arith,
      marked v,
      λ (a : Acc ◌<◌ (v / 128)). put_loop-groups k (w ++ head) (v / 128) a (omega arith),
      append_assoc w head (groups k (v / 128)),
    )

-- What `pb.uvarint` appends.
pub put_uvarint-groups : (w : Bytes) (v : ℕ) → IsU64 v → put_uvarint w v ≡ w ++ groups 9 v
unfolding put_uvarint
put_uvarint-groups w v h = put_loop-groups 9 w v (lt_wf.apply v) (omega arith)

seven_more : (s : ℕ) → 2 ^ (s + 7) ≡ 128 * 2 ^ s
seven_more s = simp towards_suc (omega arith)

-- The tenth byte holds the last bit only.
tenth_fits : (v i x s : ℕ) → s ≡ 7 * i → IsU64 (x + v * 2 ^ s) → i ≡ 9 → v ≤ 1
tenth_fits v i x s hs fits e =
    let at63 : s ≡ 63 = omega arith in omega (arith, ap (λ (t : ℕ). v * 2 ^ t) at63)

-- The last byte of a number, in round `i`.
last_byte :
    (v i x s : ℕ) (rest : Bytes)
    → v < 128
    → x < 2 ^ s
    → s ≡ 7 * i
    → i ≤ 9
    → IsU64 (x + v * 2 ^ s)
    → uvarint_from i x s (v ∷ rest) ≡ some (x + v * 2 ^ s, i + 1)
unfolding uvarint_from
last_byte v i x s rest hv hx hs hi fits =
    ground (arith, bit_or_low s v x, tenth_fits v i x s hs fits)

inner_byte :
    (g i x s : ℕ) (rest : Bytes)
    → g < 128
    → x < 2 ^ s
    → i ≤ 9
    → IsU64 (x + g * 2 ^ s)
    → uvarint_from i x s ((g + 128) ∷ rest) ≡ uvarint_from (i + 1) (x + g * 2 ^ s) (s + 7) rest
unfolding uvarint_from
inner_byte g i x s rest hg hx hi fits = ground (arith, bit_and_mask 7 (g + 128), bit_or_low s g x)

uvarint_from-groups :
    (k v i x s : ℕ) (rest : Bytes)
    → v < 128 ^ suc k
    → x < 2 ^ s
    → s ≡ 7 * i
    → i + k ≤ 9
    → IsU64 (x + v * 2 ^ s)
    → uvarint_from i x s (groups k v ++ rest) ≡ some (x + v * 2 ^ s, i + length (groups k v))
unfolding groups
uvarint_from-groups zero v i x s rest hv hx hs hi fits =
    last_byte v i x s rest (omega arith) hx hs (omega arith) fits
uvarint_from-groups (suc k) v i x s rest hv hx hs hi fits = elim (Bool-cases (ltb v 128)) [
  | inl p ↦ rw p (last_byte v i x s rest (ground arith) hx hs (omega arith) fits)
  | inr p ↦
      let split : v * 2 ^ s ≡ v % 128 * 2 ^ s + v / 128 * 2 ^ (s + 7) = omega (
        arith,
        ap (λ (t : ℕ). t * 2 ^ s) (div-add-mod' v 128),
        ap (λ (t : ℕ). v / 128 * t) (seven_more s),
      ) in
      rw p (
        inner_byte (v % 128) i x s (groups k (v / 128) ++ rest) (omega arith) hx (omega arith)
          (omega (arith, split))
        ∙ uvarint_from-groups k (v / 128) (i + 1) (x + v % 128 * 2 ^ s) (s + 7) rest (omega arith)
            (grind (arith, seven_more s)) (omega arith) (omega arith) (omega (arith, split))
        ∙ ap₂ (λ a b. some (a, b)) (omega (arith, split)) (omega arith))
]

-- `binary.Uvarint` reads back every uint64 that `pb.uvarint` wrote, and no byte behind it.
pub uvarint-put_uvarint :
    (v : ℕ) (rest : Bytes)
    → IsU64 v
    → uvarint (put_uvarint [] v ++ rest) ≡ some (v, length (put_uvarint [] v))
unfolding uvarint
uvarint-put_uvarint v rest h = rw (put_uvarint-groups [] v h) (
    uvarint_from-groups 9 v 0 0 0 rest (omega arith) (omega arith) refl (omega arith) (omega arith)
    ∙ ap₂ (λ a b. some (a, b)) (omega arith) (omega arith))

-- The same of the bytes by themselves.
pub uvarint-groups :
    (v : ℕ) (rest : Bytes) → IsU64 v → uvarint (groups 9 v ++ rest) ≡ some (v, length (groups 9 v))
uvarint-groups v rest h =
    subst (λ g. uvarint (g ++ rest) ≡ some (v, length g)) (put_uvarint-groups [] v h)
      (uvarint-put_uvarint v rest h)

pub length-groups : (k v : ℕ) → (1 ≤ length (groups k v)) × (length (groups k v) ≤ k + 1)
unfolding groups
length-groups zero v = omega arith
length-groups (suc k) v = ground (arith, length-groups k (v / 128))

-- A number takes at least one byte.
uvarint_from-takes : (buf : Bytes) (i x s v n : ℕ) → uvarint_from i x s buf ≡ some (v, n) → i < n
unfolding uvarint_from
uvarint_from-takes [] i x s v n e = cc
uvarint_from-takes (b ∷ buf) i x s v n e =
    ground (
      arith,
      uvarint_from-takes buf (i + 1) (bit_or x (bit_and b 0x7f * 2 ^ s % 2 ^ 64)) (s + 7) v n,
    )

pub uvarint_takes : (buf : Bytes) (v n : ℕ) → uvarint buf ≡ some (v, n) → 1 ≤ n
unfolding uvarint
uvarint_takes buf v n e = uvarint_from-takes buf 0 0 0 v n e
