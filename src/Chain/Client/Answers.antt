-- ===== src/Chain/Client/Answers.antt =====
-- What the client reads of the answers of the chain.
use sentnodes_agent.Base.{
  IsU64, ℕ, ◌^◌, ◌≤◌, ◌<◌, true, none, some, List, [], ◌∷◌, length, ◌≡◌, refl, ap, ◌∙◌, arith,
}
use sentnodes_agent.Base.Got.{got}
use sentnodes_agent.Base.Int.{is_zero}
use sentnodes_agent.Base.Text.{Text, codes}
use sentnodes_agent.Chain.{coin}
use sentnodes_agent.Chain.Client.{
  Web, QueryResponse, BroadcastResponse, broadcast_path, broadcast_tx, reply, call, query_of,
  abci_query, inner_field, amount_value, query_account, query_balance,
}
use sentnodes_agent.Chain.Fields.{coin-Encodes, any_msg-Encodes}
use sentnodes_agent.Decimal.{format_uint, parse_uint, parsed_value}
use sentnodes_agent.Decimal.Laws.{parse_uint-format_uint, length-format_uint}
use sentnodes_agent.Protobuf.{Bytes, str, bytes_field, any_msg}
use sentnodes_agent.Protobuf.Encodes.{Encodes, empty, add_bytes, read_bytes, read_uint64}
use sentnodes_agent.Protobuf.Message.{Field, find_bytes, find_uint64}

-- Some endpoint answers the query with the bytes `val`.
pub record Answers (web : Web) (eps : List Text) (path : Text) (bs val : Bytes) : Type 0 where
  pub raw : Text
  pub response : QueryResponse
  pub called : call web eps (query_of web path bs) ≡ reply raw
  pub parsed : web.query_response raw ≡ got response
  pub accepted : is_zero response.code ≡ true
  pub decoded : web.decode_base64 response.value ≡ got val

abci_query-Answers :
    (web : Web) (eps : List Text) (path : Text) (bs val : Bytes)
    → Answers web eps path bs val
    → abci_query web eps path bs ≡ reply val
unfolding abci_query
abci_query-Answers web eps path bs val a = rw (a.called, a.parsed, a.accepted, a.decoded) refl

inner_field-Encodes :
    (outer inner bs : Bytes) (xs ys : List Field) (n m : ℕ)
    → Encodes outer xs n
    → Encodes inner ys m
    → n < 2 ^ 63
    → m < 2 ^ 63
    → find_bytes 1 xs ≡ some inner
    → find_bytes 2 ys ≡ some bs
    → inner_field outer ≡ reply (some bs)
unfolding inner_field
inner_field-Encodes outer inner bs xs ys n m o i hn hm found inside =
    rw (read_bytes o hn 1, found, read_bytes i hm 2, inside) refl

amount_value-format_uint : (amt : ℕ) → IsU64 amt → amount_value (format_uint amt) ≡ amt
amount_value-format_uint amt u =
    filled (format_uint amt) (length-format_uint amt)
    ∙ ap parsed_value (parse_uint-format_uint amt u)
  where
    filled : (s : Text) → 1 ≤ length s → amount_value s ≡ parsed_value (parse_uint s)
    filled [] h = absurd (omega arith)
    filled (c ∷ s) h = refl

-- Some endpoint answers the broadcast of the transaction with the code 0.
pub record Accepts (web : Web) (eps : List Text) (tx : Bytes) : Type 0 where
  pub raw : Text
  pub response : BroadcastResponse
  pub called : call web eps (broadcast_path tx) ≡ reply raw
  pub parsed : web.broadcast_response raw ≡ got response
  pub accepted : is_zero response.code ≡ true

pub broadcast_tx-Accepts :
    (web : Web) (eps : List Text) (tx : Bytes) (a : Accepts web eps tx)
    → broadcast_tx web eps tx ≡ reply (a.response.hash, none)
unfolding broadcast_tx
broadcast_tx-Accepts web eps tx a = rw (a.called, a.parsed, a.accepted) refl

module _ (web : Web) (eps : List Text) (addr : Text) where
  -- When some endpoint answers the query of `Balance` with the coin of an amount, `Balance`
  -- returns the amount, for any uint64 and any denomination of at most 2 ^ 20 bytes.
  pub query_balance-coin :
      (denom shown : Text) (amt : ℕ)
      → length shown ≤ 2 ^ 20
      → IsU64 amt
      → Answers web eps
          (codes "/cosmos.bank.v1beta1.Query/Balance")
          (str (str [] 1 addr) 2 denom)
          (bytes_field [] 1 (coin shown amt))
      → query_balance web eps addr denom ≡ reply amt
  unfolding query_balance
  query_balance-coin denom shown amt h u a =
      let inner = coin-Encodes shown amt h in
      let outer =
        add_bytes 1 (2 ^ 21) (coin shown amt) empty (omega arith) inner.size (omega arith) in
      rw
        (
          abci_query-Answers web eps _ _ _ a,
          inner_field-Encodes _ (coin shown amt) (format_uint amt) _ _ _ _ outer inner (omega arith)
              (omega arith) refl refl,
          amount_value-format_uint amt u,
        )
        refl

  -- When some endpoint answers the query of `Account` with an account whose fields are those of a
  -- message of at most 2 ^ 25 bytes, `Account` returns the numbers of its fields 3 and 4, and 0 for a
  -- field that is left out.
  pub query_account-message :
      (url : Text) (base : Bytes) (fields : List Field)
      → length url ≤ 2 ^ 20
      → Encodes base fields (2 ^ 25)
      → Answers web eps
          (codes "/cosmos.auth.v1beta1.Query/Account")
          (str [] 1 addr)
          (bytes_field [] 1 (any_msg url base))
      → query_account web eps addr ≡ reply (find_uint64 3 fields, find_uint64 4 fields)
  unfolding query_account
  query_account-message url base fields h e a =
      let inner = any_msg-Encodes url base (2 ^ 25) h e.size (omega arith) in
      let outer =
        add_bytes 1 (2 ^ 27) (any_msg url base) empty (omega arith) (omega (arith, inner.size))
          (omega arith) in
      rw
        (
          abci_query-Answers web eps _ _ _ a,
          inner_field-Encodes _ (any_msg url base) base _ _ _ _ outer inner (omega arith)
              (omega arith) refl refl,
          read_uint64 e (omega arith) 3,
          read_uint64 e (omega arith) 4,
        )
        refl
