-- ===== src/Base/Escape.antt =====
-- hex.EncodeToString and the escapes of package net/url, which the clients of the chain and of the
-- server use.
pub mod Laws
use Prim.Native.Nat.{ℕ, ◌+◌, ◌/◌, ◌%◌}
use mathlib.Core.Bool.{Bool, ◌&&◌, ◌||◌}
use mathlib.Core.List.{[], ◌∷◌}
use sentnodes_agent.Base.Test.{ltb, leb, ◌==◌, if◌then◌else◌}
use sentnodes_agent.Base.Text.{Text}

-- hex.EncodeToString
abbrev hex_digit : ℕ → ℕ
hex_digit n = if ltb n 10 then b'0' + n else b'W' + n

unfoldable pub hex_encode : Text → Text
hex_encode [] = []
hex_encode (b ∷ bs) = hex_digit (b / 16) ∷ hex_digit (b % 16) ∷ hex_encode bs

abbrev is_unreserved : ℕ → Bool
is_unreserved c =
    (leb b'a' c && leb c b'z')
    || (leb b'A' c && leb c b'Z')
    || (leb b'0' c && leb c b'9')
    || c == b'-'
    || c == b'_'
    || c == b'.'
    || c == b'~'

abbrev upper_digit : ℕ → ℕ
upper_digit n = if ltb n 10 then b'0' + n else b'7' + n

abbrev pub escaped : ℕ → Text → Text
escaped c rest =
    if is_unreserved c
    then c ∷ rest
    else if c == b' '
    then b'+' ∷ rest
    else b'%' ∷ upper_digit (c / 16) ∷ upper_digit (c % 16) ∷ rest

-- url.QueryEscape
unfoldable pub query_escape : Text → Text
query_escape [] = []
query_escape (c ∷ s) = escaped c (query_escape s)

abbrev kept_in_path : ℕ → Bool
kept_in_path c =
    is_unreserved c || c == b'$' || c == b'&' || c == b'+' || c == b'=' || c == b':' || c == b'@'

abbrev pub path_escaped : ℕ → Text → Text
path_escaped c rest =
    if kept_in_path c then c ∷ rest else b'%' ∷ upper_digit (c / 16) ∷ upper_digit (c % 16) ∷ rest

-- url.PathEscape
unfoldable pub path_escape : Text → Text
path_escape [] = []
path_escape (c ∷ s) = path_escaped c (path_escape s)
