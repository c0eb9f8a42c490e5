-- ===== src/Exec/Toml/Quote.antt =====
-- The strings that `tomlString` writes.
use sentnodes_agent.Base.{ℕ, Option, none, some, [], ◌∷◌, ◌==◌, if◌then◌else◌}
use sentnodes_agent.Base.Text.{Text}

-- The byte that an escape of the TOML specification stands for, of those of one letter.
abbrev pub unescaped : ℕ → Option ℕ
unescaped c =
    if c == b'\\'
    then some b'\\'
    else if c == b'"'
    then some b'"'
    else if c == b'n'
    then some b'\n'
    else if c == b'r'
    then some b'\r'
    else if c == b't'
    then some b'\t'
    else none

abbrev pub put : ℕ → Option (Text × Text) → Option (Text × Text)
put c none = none
put c (some (s, rest)) = some (c ∷ s, rest)

abbrev pub put_escaped : Option ℕ → Option (Text × Text) → Option (Text × Text)
put_escaped none r = none
put_escaped (some c) r = put c r

-- A basic string of the TOML specification, behind its first quote: its value and the text behind
-- its last one. It ends on its line.
unfoldable pub read_basic : Text → Option (Text × Text)
read_basic [] = none
read_basic (c ∷ []) = if c == b'"' then some ([], []) else none
read_basic (c ∷ d ∷ s) =
    let plain = put c (read_basic (d ∷ s)) in
    let special = put_escaped (unescaped d) (read_basic s) in
    if c == b'"'
    then some ([], d ∷ s)
    else if c == b'\\'
    then special
    else if c == b'\n'
    then none
    else plain

unfoldable pub read_string : Text → Option (Text × Text)
unfolding read_basic
read_string [] = none
read_string (c ∷ s) = if c == b'"' then read_basic s else none
