-- ===== src/Examples/Client.antt =====
-- Concrete calls of the chain's endpoints and of the server, and an open key:
-- internal/chain/chain.go, internal/api/client.go and internal/keys/keys.go.
use sentnodes_agent.Base.{
  ℕ, zero, suc, ◌^◌, true, false, none, some, List, [], ◌∷◌, ◌++◌, ◌≡◌, ◌↔◌, refl, if◌then◌else◌,
  arith,
}
use sentnodes_agent.Api.{Server, is_rejected, do_request, request_of}
use sentnodes_agent.Api.Auth.{RefusesBody, RefusesMade, do_request-Refuses}
use sentnodes_agent.Base.Escape.{hex_encode, query_escape}
use sentnodes_agent.Base.Got.{Got, got, failed}
use sentnodes_agent.Base.Int.{pos}
use sentnodes_agent.Base.Text.{Text, codes, trim_space, contains}
use sentnodes_agent.Bech32.{is_valid}
use sentnodes_agent.Chain.{coin}
use sentnodes_agent.Chain.Client.{Web, no_endpoints, call}
use sentnodes_agent.Chain.Client.Answers.{Answers}
use sentnodes_agent.Chain.Client.Failover.{Ends, call-Ends}
use sentnodes_agent.Examples.Messages.{
  zero_key, val_fields, any_fields, local_fields, record_fields, record_fields-LocalKey,
}
use sentnodes_agent.Docker.{Engine, answered, find_container}
use sentnodes_agent.Docker.Discover.{Finds, find_container-Finds}
use sentnodes_agent.Keys.{Account}
use sentnodes_agent.Keys.Open.{Crypto, opened, open_key}
use sentnodes_agent.Keys.Open.Addresses.{InRing, open_key-is_valid}
use sentnodes_agent.Protobuf.{Bytes, str, bytes_field, any_msg, uint64_field}
use sentnodes_agent.Protobuf.Encodes.{Encodes, empty, weaken, add_bytes, add_uint64}
use sentnodes_agent.Protobuf.Message.{Field, bytes_of, uint64_of, message}

-- The first request of a call fails, and the second gets a body.
abbrev second_answers : ℕ → Text → Got Text
second_answers zero url = failed (codes "down")
second_answers (suc n) url = got (codes "b")

-- A chain that answers each query with the bytes.
abbrev pub chain_with : Bytes → Web
chain_with val = record {
  parses = λ url. true;
  get = second_answers;
  envelope = λ t. got (record { result = t; error = none });
  query_response = λ t. got (record { code = pos 0; log = []; value = t });
  broadcast_response = λ t. failed [];
  decode_base64 = λ t. got val;
}

abbrev pub two_endpoints : List Text
two_endpoints = codes "http://a:1" ∷ codes "http://b:2" ∷ []

call-Ends_example :
    Ends
      (chain_with [])
      (codes "/status")
      0
      no_endpoints
      two_endpoints
      (call (chain_with []) two_endpoints (codes "/status"))
call-Ends_example = call-Ends (chain_with []) (codes "/status") two_endpoints

chain_with-Answers :
    (path : Text) (bs val : Bytes) → Answers (chain_with val) two_endpoints path bs val
unfolding call query_escape hex_encode trim_space
chain_with-Answers path bs val = record {
  raw = codes "b";
  response = record { code = pos 0; log = []; value = codes "b" };
  called = refl;
  parsed = refl;
  accepted = refl;
  decoded = refl;
}

abbrev some_coin : Bytes
some_coin = bytes_field [] 1 (coin (codes "udvpn") 1234)

abbrev pub base_account : Bytes
base_account = uint64_field (str [] 1 (codes "sent1a")) 3 7

abbrev pub base_fields : List Field
base_fields = bytes_of 1 (codes "sent1a") ∷ uint64_of 3 7 ∷ []

pub base_account-Encodes : Encodes base_account base_fields (2 ^ 25)
base_account-Encodes =
    let one = add_bytes 1 6 (codes "sent1a") empty (omega arith) (omega arith) (omega arith) in
    weaken (2 ^ 25) (add_uint64 3 7 one (omega arith) (omega arith)) (omega arith)

abbrev pub some_account : Bytes
some_account = bytes_field [] 1 (any_msg (codes "/cosmos.auth.v1beta1.BaseAccount") base_account)

abbrev ring_of : Text → Got (Text → Got Bytes)
ring_of dir = got (λ name. got (message record_fields))

abbrev pub toy_crypto : Crypto
toy_crypto = record {
  ring = ring_of;
  public_key = λ key. 2 ∷ [];
  sha256 = λ bs. 1 ∷ 2 ∷ [];
  ripemd160 = λ bs. 1 ∷ 2 ∷ 3 ∷ [];
  sign_compact = λ key hash. 0 ∷ 9 ∷ [];
}

toy_ring : InRing toy_crypto (codes "/h") (codes "main") (zero_key 32)
toy_ring = record {
  items = λ name. got (message record_fields);
  rec = record_fields;
  local_key = local_fields;
  priv_any = any_fields;
  priv_val = val_fields;
  opens = refl;
  has_item = refl;
  is_local = record_fields-LocalKey;
}

open_key-is_valid_example :
    (acct : Account) × (open_key toy_crypto
        (codes "/h")
        (codes "test")
        (codes "main")
        (codes "sent")
        (codes "sentnode")
      ≡ opened acct)
    × (acct.pub_compressed ≡ 2 ∷ [])
    × (is_valid acct.operator_addr (codes "sent") ≡ true)
    × (is_valid acct.node_addr (codes "sentnode") ≡ true)
open_key-is_valid_example =
    open_key-is_valid toy_crypto (codes "/h") (codes "main") (codes "sent") (codes "sentnode")
      (zero_key 32) toy_ring (omega arith) (record { plain = ground arith; filled = omega arith })
      (record { plain = ground arith; filled = omega arith })

-- A server that rejects every token.
abbrev rejecting : Server
rejecting = record {
  new_request = λ url. none;
  send = λ r. got (401, codes "{}");
  envelope = λ t. got (record { success = false; bytes = []; errors = none });
}

do_request-Refuses_example :
    (is_rejected (
        do_request rejecting
          (codes "https://s")
          (codes "GET")
          (codes "/v1/agent/commands")
          (codes "t")
          none
          (some (λ t. got t))
          [])
      ≡ true)
    ↔ RefusesBody
        (λ text.
          RefusesMade rejecting
            (request_of
              (codes "GET")
              (codes "https://s" ++ codes "/v1/agent/commands")
              (codes "t")
              text)
            (rejecting.new_request (codes "https://s" ++ codes "/v1/agent/commands")))
        none
do_request-Refuses_example =
    do_request-Refuses (some (λ t. got t)) [] rejecting (codes "https://s") (codes "GET")
      (codes "/v1/agent/commands") (codes "t") none

-- A host with the agent's container, one that cannot be inspected, and the node's.
abbrev inspected : Text → Got (ℕ × Text)
inspected url = if contains url (codes "gone") then failed (codes "gone") else got (200, url)

abbrev pub host : Engine
host = record {
  base = codes "http://docker";
  parses = λ url. true;
  get = inspected;
  post = λ url. failed [];
  hostname = got (codes "abc");
  container_json = λ body. got (record {
    id = codes "n1";
    name = codes "/node";
    state = none;
    restart_count = pos 0;
    mounts =
        record { name = []; source = codes "/srv"; destination = codes "/root/.sentinel" } ∷ [];
  });
  ids_json = λ body. got [];
  stats_json = λ body. failed [];
}

abbrev host_ids : List Text
host_ids = codes "abcdef" ∷ codes "gone" ∷ codes "n1" ∷ []

finds_node : find_container host (codes "abc") [] [] host_ids ≡ answered (codes "n1", codes "node")
unfolding find_container
finds_node = refl

find_container-Finds_example :
    Finds host (codes "abc") [] [] host_ids (find_container host (codes "abc") [] [] host_ids)
find_container-Finds_example = find_container-Finds host (codes "abc") [] [] host_ids
