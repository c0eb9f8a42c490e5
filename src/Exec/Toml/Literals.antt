-- ===== src/Exec/Toml/Literals.antt =====
-- The values that `tomlString` and `tomlStringArray` write end on their line.
use sentnodes_agent.Base.{ℕ, List, [], ◌∷◌, ◌++◌, map, ◌≡◌, refl, ap, ◌∙◌, arith}
use mathlib.Core.List.{append_assoc}
use sentnodes_agent.Base.Int.{ℤ, pos, is_positive}
use sentnodes_agent.Base.Text.{Text, codes, join}
use sentnodes_agent.Exec.Toml.{
  outside, inside, bracket_scan, bracket_delta, escape, escape_all, toml_string, toml_string_array,
}
use sentnodes_agent.Exec.Toml.Lines.{IsLiteral}

bracket_scan-escape :
    (d : ℤ) (c : ℕ) (t : Text)
    → bracket_scan (d, inside b'"') (escape c ++ t) ≡ bracket_scan (d, inside b'"') t
unfolding bracket_scan
bracket_scan-escape d c t = ground arith

bracket_scan-escape_all :
    (d : ℤ) (s t : Text)
    → bracket_scan (d, inside b'"') (escape_all s ++ b'"' ∷ t) ≡ bracket_scan (d, outside) t
unfolding escape_all
bracket_scan-escape_all d [] t = unfold bracket_scan in refl
bracket_scan-escape_all d (c ∷ s) t =
    ap (bracket_scan (d, inside b'"')) (append_assoc (escape c) (escape_all s) (b'"' ∷ t))
    ∙ bracket_scan-escape d c (escape_all s ++ b'"' ∷ t)
    ∙ bracket_scan-escape_all d s t

-- The brackets in a string do not count.
bracket_scan-toml_string :
    (d : ℤ) (s t : Text)
    → bracket_scan (d, outside) (toml_string s ++ t) ≡ bracket_scan (d, outside) t
unfolding bracket_scan toml_string
bracket_scan-toml_string d s t =
    ap (bracket_scan (d, inside b'"')) (append_assoc (escape_all s) (b'"' ∷ []) t)
    ∙ bracket_scan-escape_all d s t

bracket_scan-comma :
    (d : ℤ) (t : Text) → bracket_scan (d, outside) (codes ", " ++ t) ≡ bracket_scan (d, outside) t
unfolding bracket_scan
bracket_scan-comma d t = refl

bracket_scan-join :
    (d : ℤ) (items : List Text) (t : Text)
    → bracket_scan (d, outside) (join (map toml_string items) (codes ", ") ++ t)
      ≡ bracket_scan (d, outside) t
unfolding join
bracket_scan-join d [] t = refl
bracket_scan-join d (s ∷ []) t = bracket_scan-toml_string d s t
bracket_scan-join d (s ∷ u ∷ items) t =
    let rest = join (map toml_string (u ∷ items)) (codes ", ") in
    ap (bracket_scan (d, outside)) (
      append_assoc (toml_string s ++ codes ", ") rest t
      ∙ append_assoc (toml_string s) (codes ", ") (rest ++ t))
    ∙ bracket_scan-toml_string d s (codes ", " ++ (rest ++ t))
    ∙ bracket_scan-comma d (rest ++ t)
    ∙ bracket_scan-join d (u ∷ items) t

pub toml_string-IsLiteral : (s : Text) → IsLiteral (toml_string s)
unfolding toml_string bracket_delta bracket_scan
toml_string-IsLiteral s = record {
  first = b'"';
  middle = escape_all s;
  last = b'"';
  was = refl;
  first_shows = omega arith;
  last_shows = omega arith;
  closed = ap (λ st. is_positive st.0) (bracket_scan-escape_all (pos 0) s []);
}

pub toml_string_array-IsLiteral : (items : List Text) → IsLiteral (toml_string_array items)
unfolding toml_string_array bracket_delta bracket_scan
toml_string_array-IsLiteral items = record {
  first = b'[';
  middle = join (map toml_string items) (codes ", ");
  last = b']';
  was = refl;
  first_shows = omega arith;
  last_shows = omega arith;
  closed = ap (λ st. is_positive st.0) (bracket_scan-join (pos 1) items (b']' ∷ []));
}
