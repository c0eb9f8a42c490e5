-- ===== src/Keys/Open/Addresses.antt =====
-- The addresses of an open key.
use sentnodes_agent.Base.{true, List, ◌++◌, length, All, ◌≤◌, ◌≡◌, refl}
use sentnodes_agent.Base.Got.{Got, got}
use sentnodes_agent.Base.Text.{Text, codes}
use sentnodes_agent.Bech32.{is_valid}
use sentnodes_agent.Bech32.Encode.{encode-is_valid}
use sentnodes_agent.Bech32.Regroup.{IsByte}
use sentnodes_agent.Base.Text.Laws.{IsPlain}
use sentnodes_agent.Config.{join_path}
use sentnodes_agent.Keys.{Account}
use sentnodes_agent.Keys.Extract.{LocalKey, extract_priv_key-LocalKey}
use sentnodes_agent.Keys.Open.{Crypto, opened, account_of, account_hash, open_key}
use sentnodes_agent.Protobuf.{Bytes}
use sentnodes_agent.Protobuf.Message.{Field, message}

-- A prefix that `Encode` and `IsValid` agree on.
pub record IsPrefix (p : Text) : Type 0 where
  pub plain : All IsPlain p
  pub filled : 1 ≤ length p

-- The keyring of the directory has a record with a local key of 32 bytes under the name.
pub record InRing (crypto : Crypto) (node_home name : Text) (key : Bytes) : Type 0 where
  pub items : Text → Got Bytes
  pub rec : List Field
  pub local_key : List Field
  pub priv_any : List Field
  pub priv_val : List Field
  pub opens : crypto.ring (join_path node_home (codes "keyring-test")) ≡ got items
  pub has_item : items (name ++ codes ".info") ≡ got (message rec)
  pub is_local : LocalKey rec local_key priv_any priv_val key

-- With the test backend, a keyring that has a local key under the name, and a hash that gives
-- bytes, `Open` succeeds with the public key of that key, and `IsValid` accepts both addresses of
-- the account for their prefixes.
pub open_key-is_valid :
    (crypto : Crypto) (node_home name acct_prefix node_prefix : Text) (key : Bytes)
    → InRing crypto node_home name key
    → All IsByte (account_hash crypto key)
    → IsPrefix acct_prefix
    → IsPrefix node_prefix
    → (acct : Account) × (open_key crypto node_home (codes "test") name acct_prefix node_prefix
        ≡ opened acct)
      × (acct.pub_compressed ≡ crypto.public_key key)
      × (is_valid acct.operator_addr acct_prefix ≡ true)
      × (is_valid acct.node_addr node_prefix ≡ true)
unfolding open_key
open_key-is_valid crypto node_home name acct_prefix node_prefix key r b a n =
    let (operator, spelled, operator_good) =
      encode-is_valid acct_prefix (account_hash crypto key) a.plain a.filled b in
    let (node, spelled', node_good) =
      encode-is_valid node_prefix (account_hash crypto key) n.plain n.filled b in
    (
      account_of crypto key operator node,
      rw
          (
            r.opens,
            r.has_item,
            extract_priv_key-LocalKey r.rec r.local_key r.priv_any r.priv_val key r.is_local,
            spelled,
            spelled',
          )
          refl,
      refl,
      operator_good,
      node_good,
    )
