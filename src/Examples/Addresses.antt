-- ===== src/Examples/Addresses.antt =====
-- Concrete addresses: internal/bech32/bech32.go, and the texts of config.toml.
use sentnodes_agent.Exec.Toml.Whole.{set_key_in_table-again}
use sentnodes_agent.Exec.Withdraw.Log.{IsLine}
use sentnodes_agent.Exec.Toml.Lines.{IsKey}
use sentnodes_agent.Exec.Toml.Literals.{toml_string_array-IsLiteral}
use sentnodes_agent.Base.{ℕ, List, [], ◌∷◌, true, false, arith, ◌≡◌, refl, All, some}
use sentnodes_agent.Base.Text.{Text, codes, last_index, to_lower, trim_space, equal, index_byte}
use sentnodes_agent.Base.Text.Laws.{IsPlain}
use sentnodes_agent.Bech32.{convert_bits, encode, is_valid, ok}
use sentnodes_agent.Bech32.Detect.{is_valid_detects}
use sentnodes_agent.Bech32.Encode.{encode-is_valid}
use sentnodes_agent.Bech32.Regroup.{value, Regroups, convert_bits-Regroups}
use sentnodes_agent.Exec.Toml.{has_crlf, set_key_in_table, toml_string_array}
use sentnodes_agent.Exec.Toml.Splice.{Splice}

abbrev hrp : Text
hrp = codes "sent"

hrp-IsPlain : All IsPlain hrp
hrp-IsPlain = ground arith

abbrev three : List ℕ
three = 1 ∷ 2 ∷ 3 ∷ []

encode-is_valid_example : (addr : Text) × (encode hrp three ≡ ok addr) × (is_valid addr hrp ≡ true)
encode-is_valid_example = encode-is_valid hrp three hrp-IsPlain (omega arith) (omega arith)

convert_bits-Regroups_example :
    (pad : ℕ) × (conv : List ℕ) × (convert_bits three 8 5 true ≡ ok conv)
    × Regroups (value 256 three) 3 pad conv
convert_bits-Regroups_example = convert_bits-Regroups three (omega arith)

three_is_valid : is_valid (codes "sent1qypqxh800ep") hrp ≡ true
unfolding is_valid last_index to_lower trim_space equal index_byte
three_is_valid = refl

is_valid_detects_example : is_valid (codes "sent1pypqxh800ep") hrp ≡ false
is_valid_detects_example =
    is_valid_detects hrp [] (codes "ypqxh800ep") b'q' b'p' hrp-IsPlain (omega arith) (ground arith)
      (ground arith) (omega arith) (omega arith) three_is_valid

abbrev old_text : Text
old_text = codes "[rpc]\naddrs = [\n  \"a\",\n] # two\nx = 1\n"

abbrev new_text : Text
new_text = codes "[rpc]\naddrs = [\"b\"]\nx = 1\n"

addrs-IsKey : IsKey (codes "addrs")
addrs-IsKey = record {
  head = b'a';
  tail = codes "ddrs";
  was = refl;
  bare = (refl, (refl, (refl, (refl, (refl, tt)))));
}

literal-IsLine : IsLine (toml_string_array (codes "b" ∷ []))
unfolding toml_string_array
literal-IsLine = ground arith

first_edit :
    set_key_in_table old_text (codes "rpc") (codes "addrs") (toml_string_array (codes "b" ∷ []))
    ≡ some new_text
unfolding set_key_in_table toml_string_array
first_edit = refl

no_crlf : (has_crlf old_text ≡ false) × (has_crlf new_text ≡ false)
unfolding has_crlf
no_crlf = (refl, refl)

set_key_in_table-again_example :
    set_key_in_table new_text (codes "rpc") (codes "addrs") (toml_string_array (codes "d" ∷ []))
    ≡ set_key_in_table old_text (codes "rpc") (codes "addrs") (toml_string_array (codes "d" ∷ []))
set_key_in_table-again_example =
    set_key_in_table-again old_text (codes "rpc") (codes "addrs")
      (toml_string_array (codes "b" ∷ [])) (toml_string_array (codes "d" ∷ [])) new_text addrs-IsKey
      (toml_string_array-IsLiteral (codes "b" ∷ [])) literal-IsLine no_crlf.0 no_crlf.1 first_edit
