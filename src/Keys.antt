-- ===== src/Keys.antt =====
-- internal/keys/keys.go: the public identity of the operator key, a signing handle, and the reader of
-- the keyring's record.
pub mod Extract
pub mod Open
pub mod Texts
use sentnodes_agent.Base.{
  ℕ, zero, suc, ◌+◌, ◌-◌, ◌/◌, ◌%◌, ◌^◌, bit_and, Bool, not, ◌&&◌, ◌||◌, Option, none, some, List,
  [], ◌∷◌, ltb, leb, ◌==◌, if◌then◌else◌, length, take, drop,
}
use sentnodes_agent.Base.Escape.{hex_encode}
use sentnodes_agent.Base.Text.{Text}
use sentnodes_agent.Protobuf.{Bytes, uvarint}

pub record Identity : Type 0 where
  pub pub_compressed : Bytes
  pub operator_addr : Text
  pub node_addr : Text

-- An open key: its identity, and what `Sign` makes of a message with the private key that it holds
-- (ECDSA over secp256k1, a library).
pub record Account : Type 0 where
  pub identity : Identity
  pub open identity use *
  pub sign : Bytes → Bytes

-- `SignHex`
abbrev pub sign_hex : Account → (msg : Bytes) → Text
sign_hex acct msg = hex_encode (acct.sign msg)

pub data KeyError : Type 0 where
  bad_tag bad_varint bad_length length_overrun unsupported_wire field_not_found : KeyError
  no_local_key unexpected_length : KeyError

-- How a search ends: `crashed` is the run-time panic of a slice expression, `unfinished` no outcome
-- of the code but the end of the model's fuel.
pub data Lookup : Type 0 where
  found : Bytes → Lookup
  refused : KeyError → Lookup
  crashed unfinished : Lookup

-- What a round of the loop of `pbBytes` meets, with the bytes that the whole record takes.
pub data KeyItem : Type 0 where
  skip : ℕ → KeyItem
  value : ℕ → Bytes → ℕ → KeyItem
  bad : KeyError → KeyItem
  boom : KeyItem

-- `end := i + int(l)` is an int of 64 bits, which wraps round.
unfoldable pub key_slice : ℕ → ℕ → ℕ → ℕ → Bytes → KeyItem
key_slice field i n l rest =
    let end : ℕ = (i + l) % 2 ^ 64 in
    let negative : Bool = leb (2 ^ 63) end in
    if not negative && ltb (i + length rest) end
    then bad length_overrun
    else if negative || ltb end i
    then boom
    else value field (take (end - i) rest) (n + (end - i))

unfoldable pub key_varint : ℕ → Option (ℕ × ℕ) → KeyItem
key_varint n none = bad bad_varint
key_varint n (some (v, m)) = skip (n + m)

unfoldable pub key_bytes : ℕ → ℕ → ℕ → Bytes → Option (ℕ × ℕ) → KeyItem
unfolding key_slice
key_bytes field i n rest none = bad bad_length
key_bytes field i n rest (some (l, m)) = key_slice field (i + m) (n + m) l (drop m rest)

-- The switch on the wire type, behind the tag.
unfoldable pub key_payload : ℕ → ℕ → ℕ → ℕ → Bytes → KeyItem
unfolding key_varint key_bytes uvarint
key_payload field wire i n rest =
    if wire == 0
    then key_varint n (uvarint rest)
    else if wire == 1
    then skip (n + 8)
    else if wire == 5
    then skip (n + 4)
    else if wire == 2
    then key_bytes field i n rest (uvarint rest)
    else bad unsupported_wire

unfoldable pub key_behind_tag : ℕ → Bytes → Option (ℕ × ℕ) → KeyItem
unfolding key_payload
key_behind_tag i rest none = bad bad_tag
key_behind_tag i rest (some (tag, n)) =
    key_payload (tag / 2 ^ 3) (bit_and tag 7) (i + n) n (drop n rest)

-- A round of the loop, where `next n` goes on `n` bytes further.
unfoldable pub key_round : (ℕ → Lookup) → ℕ → KeyItem → Lookup
key_round next want (skip n) = next n
key_round next want (value field val n) = if field == want then found val else next n
key_round next want (bad e) = refused e
key_round next want boom = crashed

-- What stands at position `i` before `rest`.
unfoldable pub key_item : ℕ → Bytes → KeyItem
unfolding key_behind_tag uvarint
key_item i rest = key_behind_tag i rest (uvarint rest)

unfoldable pub key_from : ℕ → ℕ → ℕ → Bytes → Lookup
unfolding key_item key_round
key_from want fuel i [] = refused field_not_found
key_from want zero i (b ∷ rest) = unfinished
key_from want (suc fuel) i (b ∷ rest) =
    key_round (λ n. key_from want fuel (i + n) (drop n (b ∷ rest))) want (key_item i (b ∷ rest))

-- `pbBytes`: each round takes a byte at least, so as many rounds as there are bytes are enough.
unfoldable pub pb_bytes : Bytes → ℕ → Lookup
unfolding key_from
pb_bytes buf want = key_from want (length buf) 0 buf

abbrev pub behind : (Bytes → Lookup) → Lookup → Lookup
behind f (found v) = f v
behind f (refused e) = refused e
behind f crashed = crashed
behind f unfinished = unfinished

abbrev pub or_error : KeyError → Lookup → Lookup
or_error e (refused _) = refused e
or_error e r = r

abbrev pub check_length : Bytes → Lookup
check_length key = if length key == 32 then found key else refused unexpected_length

-- `extractPrivKey`
unfoldable pub extract_priv_key : Bytes → Lookup
unfolding pb_bytes
extract_priv_key record_bytes =
    behind
      (λ local_key.
        behind
          (λ priv_any.
            behind (λ priv_val. behind check_length (pb_bytes priv_val 1)) (pb_bytes priv_any 2))
          (pb_bytes local_key 1))
      (or_error no_local_key (pb_bytes record_bytes 3))
