-- ===== src/Exec/Edit/Url.antt =====
-- The pattern `httpURLWithPort` of internal/exec/exec.go, `^https?://[^/\s:]+:\d{1,5}(/\S*)?$`.
use sentnodes_agent.Base.{
  ℕ, suc, Bool, true, false, not, ◌&&◌, ◌||◌, [], ◌∷◌, ◌==◌, leb, ltb, if◌then◌else◌, drop,
}
use sentnodes_agent.Base.Text.{Text, codes, has_prefix}
use sentnodes_agent.Decimal.{is_digit}

-- \s
abbrev pub is_pattern_space : ℕ → Bool
is_pattern_space c = c == b'\t' || c == b'\n' || c == 12 || c == b'\r' || c == b' '

-- (/\S*)?$
unfoldable pub no_space : Text → Bool
no_space [] = true
no_space (c ∷ s) = not (is_pattern_space c) && no_space s

abbrev pub url_path : Text → Bool
url_path [] = true
url_path (c ∷ s) = c == b'/' && no_space s

-- \d{1,5} and what follows; `n` digits are read.
unfoldable pub url_port : ℕ → Text → Bool
unfolding no_space
url_port n [] = leb 1 n && leb n 5
url_port n (c ∷ s) =
    let more = url_port (suc n) s in
    if is_digit c then more else leb 1 n && leb n 5 && url_path (c ∷ s)

-- [^/\s:]+: and what follows; `n` bytes of the host are read.
unfoldable pub url_host : ℕ → Text → Bool
unfolding url_port
url_host n [] = false
url_host n (c ∷ s) =
    let more = url_host (suc n) s in
    let port = url_port 0 s in
    if c == b':' then ltb 0 n && port else if c == b'/' || is_pattern_space c then false else more

-- httpURLWithPort.MatchString
unfoldable pub http_url_with_port : Text → Bool
unfolding url_host has_prefix
http_url_with_port s =
    (has_prefix s (codes "http://") && url_host 0 (drop 7 s))
    || (has_prefix s (codes "https://") && url_host 0 (drop 8 s))
