-- ===== src/Keys/Open.antt =====
-- `Open` and `Sign` of internal/keys/keys.go. The keyring and the cryptography are arguments.
pub mod Addresses
use sentnodes_agent.Base.{not, if◌then◌else◌, ◌++◌, drop}
use sentnodes_agent.Base.Got.{Got, got, failed}
use sentnodes_agent.Base.Text.{Text, codes, equal}
use sentnodes_agent.Bech32.{ConvertError, Result, ok, err, encode}
use sentnodes_agent.Config.{join_path}
use sentnodes_agent.Keys.{
  Identity, Account, KeyError, Lookup, found, refused, crashed, unfinished, extract_priv_key,
}
use sentnodes_agent.Protobuf.{Bytes}

-- `ring` opens the keyring of a directory, which gives the record of a name; `public_key` is the
-- compressed public key of a private key, and `sign_compact` signs a hash, with a byte in front.
pub record Crypto : Type 0 where
  pub ring : Text → Got (Text → Got Bytes)
  pub public_key : Bytes → Bytes
  pub sha256 : Bytes → Bytes
  pub ripemd160 : Bytes → Bytes
  pub sign_compact : (key hash : Bytes) → Bytes

pub data OpenError : Type 0 where
  unsupported_backend : OpenError
  no_ring no_item : Text → OpenError
  bad_record : KeyError → OpenError
  bad_address : ConvertError → OpenError

-- `open_panics` is the panic of `extractPrivKey`.
pub data Opened : Type 0 where
  opened : Account → Opened
  not_opened : OpenError → Opened
  open_panics : Opened

module _ (crypto : Crypto) where
  -- `Sign`
  abbrev pub sign_with : (key msg : Bytes) → Bytes
  sign_with key msg = drop 1 (crypto.sign_compact key (crypto.sha256 msg))

  abbrev pub account_of : (key : Bytes) → (operator node : Text) → Account
  account_of key operator node = record {
    identity = record {
      pub_compressed = crypto.public_key key;
      operator_addr = operator;
      node_addr = node;
    };
    sign = sign_with key;
  }

  abbrev pub with_node : (key : Bytes) → (operator : Text) → Result Text → Opened
  with_node key operator (err e) = not_opened (bad_address e)
  with_node key operator (ok node) = opened (account_of key operator node)

  abbrev pub with_operator : (key : Bytes) → Result Text → Result Text → Opened
  with_operator key (err e) node = not_opened (bad_address e)
  with_operator key (ok operator) node = with_node key operator node

  -- The 20 bytes that the addresses spell.
  abbrev pub account_hash : (key : Bytes) → Bytes
  account_hash key = crypto.ripemd160 (crypto.sha256 (crypto.public_key key))

  abbrev pub with_key : (acct_prefix node_prefix : Text) → Lookup → Opened
  with_key acct_prefix node_prefix (refused e) = not_opened (bad_record e)
  with_key acct_prefix node_prefix (found key) =
      with_operator key (encode acct_prefix (account_hash key))
        (encode node_prefix (account_hash key))
  with_key acct_prefix node_prefix crashed = open_panics
  with_key acct_prefix node_prefix unfinished = open_panics

  abbrev pub with_item : (acct_prefix node_prefix : Text) → Got Bytes → Opened
  with_item acct_prefix node_prefix (failed e) = not_opened (no_item e)
  with_item acct_prefix node_prefix (got item) =
      with_key acct_prefix node_prefix (extract_priv_key item)

  abbrev pub with_ring : (name acct_prefix node_prefix : Text) → Got (Text → Got Bytes) → Opened
  with_ring name acct_prefix node_prefix (failed e) = not_opened (no_ring e)
  with_ring name acct_prefix node_prefix (got items) =
      with_item acct_prefix node_prefix (items (name ++ codes ".info"))

  -- `Open`
  unfoldable pub open_key : (node_home backend name acct_prefix node_prefix : Text) → Opened
  unfolding extract_priv_key encode equal
  open_key node_home backend name acct_prefix node_prefix =
      if not (equal backend (codes "test"))
      then not_opened unsupported_backend
      else with_ring name acct_prefix node_prefix
          (crypto.ring (join_path node_home (codes "keyring-" ++ backend)))
