-- ===== src/Exec/Toml.antt =====
-- The edits of config.toml in internal/exec/exec.go, on its text.
pub mod Splice
pub mod Quote
pub mod Lines
pub mod Trim
pub mod Again
pub mod Literals
pub mod Whole
use sentnodes_agent.Base.{
  ℕ, suc, ◌+◌, ◌-◌, Bool, true, false, not, ◌&&◌, ◌||◌, Option, none, some, List, [], ◌∷◌, ◌++◌,
  map, leb, ◌==◌, if◌then◌else◌, take, drop, length,
}
use mathlib.Core.List.{reverse}
use mathlib.Core.Option
use sentnodes_agent.Base.Int.{ℤ, pos, negsuc, subtract, ◌+ℤ◌, is_positive}
use sentnodes_agent.Base.Text.{
  Text, codes, equal, is_empty, has_prefix, trim_prefix, index_byte, trim_space, trim_blanks, split,
  join,
}

-- strings.Contains(text, "\r\n")
unfoldable pub has_crlf : Text → Bool
has_crlf [] = false
has_crlf (c ∷ s) = (c == b'\r' && has_prefix s (b'\n' ∷ [])) || has_crlf s

-- strings.ReplaceAll(text, "\r\n", "\n")
unfoldable pub drop_crlf : Text → Text
drop_crlf [] = []
drop_crlf (c ∷ s) =
    let rest = drop_crlf s in if c == b'\r' && has_prefix s (b'\n' ∷ []) then rest else c ∷ rest

-- strings.TrimSuffix
abbrev pub trim_suffix : Text → Text → Text
trim_suffix s p = reverse (trim_prefix (reverse s) (reverse p))

abbrev pub before_comment : Text → Option ℕ → Text
before_comment s none = s
before_comment s (some i) = trim_space (take i s)

-- `tableHeader`
unfoldable pub table_header : Text → Option Text
unfolding has_prefix index_byte trim_space
table_header line =
    let s = trim_space line in
    let cut = before_comment s (index_byte s b'#') in
    let opened = trim_prefix (trim_prefix cut (codes "[[")) (codes "[") in
    let name = trim_space (trim_suffix (trim_suffix opened (codes "]]")) (codes "]")) in
    if not (has_prefix s (codes "[")) then none else if is_empty name then none else some name

-- `isKeyLine`
unfoldable pub is_key_line : Text → Text → Bool
unfolding has_prefix trim_blanks
is_key_line line key =
    let s = trim_blanks line in
    has_prefix s key && has_prefix (trim_blanks (drop (length key) s)) (codes "=")

-- Where `bracketDelta` is in a line: `inside q` is `inStr == q`, `escaped` the byte that a backslash
-- skips, `comment` the rest of the line, which it does not read.
pub data Place : Type 0 where
  outside escaped comment : Place
  inside : ℕ → Place

abbrev pub bracket_step : ℤ × Place → ℕ → ℤ × Place
bracket_step (d, comment) c = (d, comment)
bracket_step (d, escaped) c = (d, inside b'"')
bracket_step (d, inside q) c =
    if c == b'\\' && q == b'"' then (d, escaped) else if c == q then (d, outside) else (d, inside q)
bracket_step (d, outside) c =
    if c == b'"' || c == b'\''
    then (d, inside c)
    else if c == b'#'
    then (d, comment)
    else if c == b'['
    then (d +ℤ pos 1, outside)
    else if c == b']'
    then (d +ℤ negsuc 0, outside)
    else (d, outside)

unfoldable pub bracket_scan : ℤ × Place → Text → ℤ × Place
bracket_scan st [] = st
bracket_scan st (c ∷ s) = bracket_scan (bracket_step st c) s

-- `bracketDelta`
unfoldable pub bracket_delta : Text → ℤ
unfolding bracket_scan
bracket_delta line = (bracket_scan (pos 0, outside) line).0

-- The lines behind a value whose brackets are `depth` deep before them; `none` if they do not close.
unfoldable pub after_value : ℤ → List Text → Option (List Text)
unfolding bracket_delta
after_value depth [] = if is_positive depth then none else some []
after_value depth (line ∷ lines) =
    let rest = after_value (depth +ℤ bracket_delta line) lines in
    if is_positive depth then rest else some (line ∷ lines)

abbrev pub value_missing : Text → Option ℕ → Bool
value_missing line none = true
value_missing line (some eq) = is_empty (trim_space (drop (suc eq) line))

abbrev pub indent : Text → Text
indent line = take (length line - length (trim_blanks line)) line

abbrev pub new_line : (key literal line : Text) → Text
new_line key literal line = indent line ++ (key ++ (codes " = " ++ literal))

-- From the line of the key on.
unfoldable pub replace_value : (key literal line : Text) → List Text → Option (List Text)
unfolding index_byte trim_space trim_blanks after_value
replace_value key literal line lines =
    if value_missing line (index_byte line b'=')
    then none
    else Option.map (new_line key literal line ∷◌) (after_value (bracket_delta line) lines)

-- The table that is current behind a line.
abbrev pub table_after : Text → Option Text → Text
table_after cur none = cur
table_after cur (some name) = name

abbrev pub is_wanted : (table key cur line : Text) → Option Text → Bool
is_wanted table key cur line (some name) = false
is_wanted table key cur line none = equal cur table && is_key_line line key

-- The loop of `setKeyInTable`, in the table `cur`.
unfoldable pub set_in_lines : (table key literal cur : Text) → List Text → Option (List Text)
unfolding table_header is_key_line replace_value equal
set_in_lines table key literal cur [] = none
set_in_lines table key literal cur (line ∷ lines) =
    let rest = set_in_lines table key literal (table_after cur (table_header line)) lines in
    if is_wanted table key cur line (table_header line)
    then replace_value key literal line lines
    else Option.map (line ∷◌) rest

abbrev pub line_end : Text → Text
line_end text = if has_crlf text then codes "\r\n" else codes "\n"

abbrev pub lines_of : Text → List Text
lines_of text = split (drop_crlf text) b'\n'

-- `setKeyInTable`
unfoldable pub set_key_in_table : (text table key literal : Text) → Option Text
unfolding has_crlf drop_crlf split set_in_lines join
set_key_in_table text table key literal =
    Option.map (λ lines. join lines (line_end text))
      (set_in_lines table key literal [] (lines_of text))

pub record TomlEdit : Type 0 where
  pub table : Text
  pub key : Text
  pub literal : Text

-- `surgicalEdit`
unfoldable pub surgical_edit : Text → List TomlEdit → Option Text
unfolding set_key_in_table
surgical_edit text [] = some text
surgical_edit text (e ∷ edits) = elim (set_key_in_table text e.table e.key e.literal) [
  | none ↦ none
  | some next ↦ surgical_edit next edits
]

-- One byte of `strings.NewReplacer` in `tomlString`.
abbrev pub escape : ℕ → Text
escape c =
    if c == b'\\'
    then codes "\\\\"
    else if c == b'"'
    then codes "\\\""
    else if c == b'\n'
    then codes "\\n"
    else if c == b'\r'
    then codes "\\r"
    else if c == b'\t'
    then codes "\\t"
    else c ∷ []

unfoldable pub escape_all : Text → Text
escape_all [] = []
escape_all (c ∷ s) = escape c ++ escape_all s

-- `tomlString`
unfoldable pub toml_string : Text → Text
unfolding escape_all
toml_string s = b'"' ∷ (escape_all s ++ b'"' ∷ [])

-- `tomlStringArray`
unfoldable pub toml_string_array : List Text → Text
unfolding toml_string join
toml_string_array items = b'[' ∷ (join (map toml_string items) (codes ", ") ++ b']' ∷ [])
