-- ===== src/Base/Text.antt =====
-- Go strings as lists of bytes, and what the program uses of the package strings.
-- `to_lower` is exact on ASCII text; the spaces are those of unicode.IsSpace, in UTF-8.
pub mod Laws
use Prim.Native.Char.{code}
use Prim.Native.Nat.{ℕ, zero, suc, ◌+◌, ◌-◌}
use Prim.Native.String.{String}
use mathlib.Core.Bool.{Bool, true, false, ◌&&◌, ◌||◌}
use mathlib.Core.List.{List, [], ◌∷◌, ◌++◌, map, reverse}
use mathlib.Core.Option
use mathlib.Core.Option.{Option, none, some}
use sentnodes_agent.Base.Seq.{get_or, length, drop}
use sentnodes_agent.Base.Test.{leb, ◌==◌, if◌then◌else◌}

abbrev pub Text : Type 0
Text = List ℕ

-- The bytes of a literal; every literal of the program is ASCII.
abbrev pub codes : String → Text
codes String.[] = []
codes (String.◌∷◌ c s) = code c ∷ codes s

-- Go's `==` on strings.
unfoldable pub equal : Text → Text → Bool
equal [] [] = true
equal (x ∷ xs) (y ∷ ys) = x == y && equal xs ys
equal _ _ = false

abbrev pub is_empty : Text → Bool
is_empty [] = true
is_empty (_ ∷ _) = false

-- strings.HasPrefix
unfoldable pub has_prefix : Text → Text → Bool
has_prefix s [] = true
has_prefix [] (p ∷ ps) = false
has_prefix (c ∷ s) (p ∷ ps) = c == p && has_prefix s ps

-- strings.TrimPrefix
abbrev pub trim_prefix : Text → Text → Text
trim_prefix s p = if has_prefix s p then drop (length p) s else s

-- strings.Contains
unfoldable pub contains : Text → Text → Bool
unfolding has_prefix
contains [] p = has_prefix [] p
contains (c ∷ s) p = has_prefix (c ∷ s) p || contains s p

-- strings.IndexByte
unfoldable pub index_byte : Text → ℕ → Option ℕ
index_byte [] b = none
index_byte (c ∷ s) b = if c == b then some 0 else Option.map suc (index_byte s b)

-- strings.LastIndex of a text of one byte
unfoldable pub last_index : Text → ℕ → Option ℕ
last_index [] b = none
last_index (c ∷ s) b = elim (last_index s b) [
  | some i ↦ some (suc i)
  | none ↦ if c == b then some 0 else none
]

abbrev is_upper : ℕ → Bool
is_upper c = leb b'A' c && leb c b'Z'

-- strings.ToLower on ASCII text
unfoldable pub to_lower : Text → Text
to_lower = map (λ c. if is_upper c then c + 32 else c)

abbrev is_ascii_space : ℕ → Bool
is_ascii_space c = c == b' ' || (leb 9 c && leb c 13)

-- The bytes of a space whose first three bytes are given, 0 where it is none.
-- No byte of a space's encoding but the first begins a character, so a scan by bytes finds the
-- same spaces as Go's scan by runes.
space_width3 : ℕ → ℕ → ℕ → ℕ
space_width3 c d e =
    if is_ascii_space c
    then 1
    else if c == 0xc2 && (d == 0x85 || d == 0xa0)
    then 2
    else if c == 0xe1 && d == 0x9a && e == 0x80
    then 3
    else if c == 0xe2
        && d == 0x80
        && ((leb 0x80 e && leb e 0x8a) || e == 0xa8 || e == 0xa9 || e == 0xaf)
    then 3
    else if c == 0xe2 && d == 0x81 && e == 0x9f
    then 3
    else if c == 0xe3 && d == 0x80 && e == 0x80
    then 3
    else 0

-- The width of the space at the head of a text. A byte that is missing reads as 0, which stands in
-- no space.
unfoldable pub space_width : Text → ℕ
unfolding space_width3
space_width s = space_width3 (get_or s 0 0) (get_or s 1 0) (get_or s 2 0)

-- The same at the end of a text that is given backwards.
unfoldable pub space_width_back : Text → ℕ
unfolding space_width3
space_width_back r =
    let one = space_width3 (get_or r 0 0) 0 0 in
    let two = space_width3 (get_or r 1 0) (get_or r 0 0) 0 in
    let three = space_width3 (get_or r 2 0) (get_or r 1 0) (get_or r 0 0) in
    if one == 1 then 1 else if two == 2 then 2 else if three == 3 then 3 else 0

-- Skips `k` bytes, then spaces as `width` measures them.
unfoldable pub trim_by : (Text → ℕ) → ℕ → Text → Text
trim_by width k [] = []
trim_by width (suc k) (c ∷ s) = trim_by width k s
trim_by width zero (c ∷ s) =
    let w = width (c ∷ s) in let rest = trim_by width (w - 1) s in if w == 0 then c ∷ s else rest

-- strings.TrimSpace
unfoldable pub trim_space : Text → Text
unfolding trim_by space_width space_width_back
trim_space s = reverse (trim_by space_width_back 0 (reverse (trim_by space_width 0 s)))

abbrev is_blank : ℕ → Bool
is_blank c = c == b' ' || c == b'\t'

-- strings.TrimLeft(s, " \t")
unfoldable pub trim_blanks : Text → Text
trim_blanks [] = []
trim_blanks (c ∷ s) = if is_blank c then trim_blanks s else c ∷ s

abbrev pub flush : Text → List Text → List Text
flush [] words = words
flush (c ∷ w) words = (c ∷ w) ∷ words

unfoldable pub fields_from : ℕ → Text → Text → List Text
fields_from k word [] = flush word []
fields_from (suc k) word (c ∷ s) = fields_from k word s
fields_from zero word (c ∷ s) =
    let w = space_width (c ∷ s) in
    let inside = fields_from 0 (word ++ c ∷ []) s in
    let after = flush word (fields_from (w - 1) [] s) in if w == 0 then inside else after

-- strings.Fields
unfoldable pub fields : Text → List Text
unfolding fields_from space_width
fields = fields_from 0 []

abbrev pub on_head : ℕ → List Text → List Text
on_head c [] = (c ∷ []) ∷ []
on_head c (l ∷ ls) = (c ∷ l) ∷ ls

-- strings.Split at one byte
unfoldable pub split : Text → ℕ → List Text
split [] b = [] ∷ []
split (c ∷ s) b = if c == b then [] ∷ split s b else on_head c (split s b)

-- strings.Join
unfoldable pub join : List Text → Text → Text
join [] sep = []
join (l ∷ []) sep = l
join (l ∷ m ∷ ls) sep = l ++ sep ++ join (m ∷ ls) sep
