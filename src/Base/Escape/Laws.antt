-- ===== src/Base/Escape/Laws.antt =====
-- The escapes of the requests: they can be read back, and leave nothing that a URL takes apart.
use Prim.Native.Nat.{ℕ, ◌+◌, ◌-◌, ◌*◌, ◌/◌, ◌%◌, ◌<◌}
use mathlib.Core.Bool.{true, false, ◌||◌, ◌&&◌}
use mathlib.Core.List.{[], ◌∷◌}
use mathlib.Core.Path.{◌≡◌, refl, ap, ◌∙◌}
use sentnodes_agent.Base.{All, Bool-cases, inl, inr, arith}
use sentnodes_agent.Base.Escape.{
  hex_digit, hex_encode, upper_digit, kept_in_path, path_escaped, path_escape,
}
use sentnodes_agent.Base.Test.{ltb, leb, ◌==◌, if◌then◌else◌}
use sentnodes_agent.Base.Text.{Text}

-- The value of a hexadecimal digit, of either case.
abbrev pub unhex : ℕ → ℕ
unhex c = if ltb c b'A' then c - b'0' else if ltb c b'a' then c - b'7' else c - b'W'

-- Where a reader stands in an escaped text: between bytes, behind a percent sign, or behind one
-- and a digit.
pub data Reader : Type 0 where
  between percent : Reader
  half : ℕ → Reader

-- The bytes that an escaped text of a path stands for.
unfoldable pub read_path : Reader → Text → Text
read_path r [] = []
read_path between (c ∷ s) = elim (c == b'%') [
  | true ↦ read_path percent s
  | false ↦ c ∷ read_path between s
]
read_path percent (c ∷ s) = read_path (half (unhex c)) s
read_path (half n) (c ∷ s) = (n * 16 + unhex c) ∷ read_path between s

unhex-upper_digit : (n : ℕ) → n < 16 → unhex (upper_digit n) ≡ n
unhex-upper_digit n h = ground arith

read_path-plain :
    (c : ℕ) (s : Text) → (c == b'%') ≡ false → read_path between (c ∷ s) ≡ c ∷ read_path between s
unfolding read_path
read_path-plain c s h = rw (h, read_path) refl

read_path-path_escaped :
    (c : ℕ) (s : Text) → c < 256 → read_path between (path_escaped c s) ≡ c ∷ read_path between s
unfolding read_path
read_path-path_escaped c s h = elim (Bool-cases (kept_in_path c)) [
  | inl kept ↦ rw kept (read_path-plain c s (ground arith))
  | inr out ↦
      rw (out, unhex-upper_digit (c / 16) (omega arith), unhex-upper_digit (c % 16) (omega arith))
        (ap (λ (n : ℕ). n ∷ read_path between s) (omega arith))
]

-- What `PathEscape` writes of bytes reads back as those bytes.
pub read_path-path_escape :
    (s : Text) → All (λ c. c < 256) s → read_path between (path_escape s) ≡ s
unfolding path_escape
read_path-path_escape [] h = unfold read_path in refl
read_path-path_escape (c ∷ s) h =
    read_path-path_escaped c (path_escape s) h.0 ∙ ap (λ t. c ∷ t) (read_path-path_escape s h.1)

-- A byte of a path that does not end its segment, nor the path.
abbrev pub IsSegmentByte : ℕ → Type 0
IsSegmentByte c = ((c == b'/') ≡ false) × ((c == b'?') ≡ false) × ((c == b'#') ≡ false)

segment_byte : (c : ℕ) → kept_in_path c ≡ true → IsSegmentByte c
segment_byte c h = (ground arith, ground arith, ground arith)

upper_digit-IsSegmentByte : (n : ℕ) → n < 16 → IsSegmentByte (upper_digit n)
upper_digit-IsSegmentByte n h = (ground arith, ground arith, ground arith)

-- What `PathEscape` writes stays within one segment of a path.
pub path_escape-IsSegmentByte :
    (s : Text) → All (λ c. c < 256) s → All IsSegmentByte (path_escape s)
unfolding path_escape
path_escape-IsSegmentByte [] h = tt
path_escape-IsSegmentByte (c ∷ s) h = elim (Bool-cases (kept_in_path c)) [
  | inl kept ↦ rw kept (segment_byte c kept, path_escape-IsSegmentByte s h.1)
  | inr out ↦
      let byte = h.0 in
      rw out (
        (refl, refl, refl),
        (
          upper_digit-IsSegmentByte (c / 16) (omega arith),
          (upper_digit-IsSegmentByte (c % 16) (omega arith), path_escape-IsSegmentByte s h.1),
        ),
      )
]

-- The bytes that pairs of hexadecimal digits stand for.
unfoldable pub read_hex : Text → Text
read_hex [] = []
read_hex (a ∷ []) = []
read_hex (a ∷ b ∷ s) = (unhex a * 16 + unhex b) ∷ read_hex s

unhex-hex_digit : (n : ℕ) → n < 16 → unhex (hex_digit n) ≡ n
unhex-hex_digit n h = ground arith

-- What `EncodeToString` writes of bytes reads back as those bytes.
pub read_hex-hex_encode : (s : Text) → All (λ c. c < 256) s → read_hex (hex_encode s) ≡ s
unfolding hex_encode read_hex
read_hex-hex_encode [] h = refl
read_hex-hex_encode (c ∷ s) h =
    rw
      (
        unhex-hex_digit (c / 16) (omega (arith, h.0)),
        unhex-hex_digit (c % 16) (omega arith),
        read_hex-hex_encode s h.1,
      )
      (ap (λ (n : ℕ). n ∷ s) (omega arith))

-- A digit, or a small letter from a to f.
abbrev pub IsHexDigit : ℕ → Type 0
IsHexDigit c = ((leb b'0' c && leb c b'9') || (leb b'a' c && leb c b'f')) ≡ true

pub hex_encode-IsHexDigit : (s : Text) → All (λ c. c < 256) s → All IsHexDigit (hex_encode s)
unfolding hex_encode
hex_encode-IsHexDigit [] h = tt
hex_encode-IsHexDigit (c ∷ s) h =
    let byte = h.0 in (ground arith, (ground arith, hex_encode-IsHexDigit s h.1))
