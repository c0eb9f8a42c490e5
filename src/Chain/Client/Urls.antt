-- ===== src/Chain/Client/Urls.antt =====
-- The URL of `Broadcast` of internal/chain/chain.go carries the transaction.
use sentnodes_agent.Base.{Option, List, ◌++◌, All, ◌≡◌, refl}
use sentnodes_agent.Base.Escape.{hex_encode}
use sentnodes_agent.Base.Escape.Laws.{
  read_hex, read_hex-hex_encode, IsHexDigit, hex_encode-IsHexDigit,
}
use sentnodes_agent.Base.Text.{Text, codes}
use sentnodes_agent.Bech32.Regroup.{IsByte}
use sentnodes_agent.Chain.Client.{Web, RpcError, Reply, call, after_call, broadcast_tx}
use sentnodes_agent.Protobuf.{Bytes}

-- The call asks the endpoints with the digits of the transaction behind the path.
pub record Carries (web : Web) (eps : List Text) (tx : Bytes) (r : Reply (Text × Option RpcError))
    : Type 0 where
  pub digits : Text
  pub are_digits : All IsHexDigit digits
  pub stand_for : read_hex digits ≡ tx
  pub asks : r ≡ after_call web (call web eps (codes "/broadcast_tx_sync?tx=0x" ++ digits))

-- For a transaction of bytes, `Broadcast` asks the endpoints with hexadecimal digits behind the path,
-- and reading the digits back gives the transaction.
pub broadcast_tx-Carries :
    (web : Web) (eps : List Text) (tx : Bytes)
    → All IsByte tx
    → Carries web eps tx (broadcast_tx web eps tx)
unfolding broadcast_tx
broadcast_tx-Carries web eps tx h = record {
  digits = hex_encode tx;
  are_digits = hex_encode-IsHexDigit tx h;
  stand_for = read_hex-hex_encode tx h;
  asks = refl;
}
