-- ===== src/Chain/Client/Texts.antt =====
-- The texts of the errors of internal/chain/chain.go.
use sentnodes_agent.Base.{suc, ◌∷◌, ◌++◌}
use sentnodes_agent.Base.Int.{ℤ, pos, negsuc}
use sentnodes_agent.Base.Text.{Text, codes}
use sentnodes_agent.Chain.Client.{
  RpcError, unreachable, bad_response, rpc_failed, no_endpoints, bad_json, bad_base64, query_failed,
  no_account, tx_rejected,
}
use sentnodes_agent.Decimal.{format_uint}

-- The verb %d.
unfoldable pub format_int : ℤ → Text
unfolding format_uint
format_int (pos n) = format_uint n
format_int (negsuc n) = b'-' ∷ format_uint (suc n)

unfoldable pub rpc_error_text : RpcError → Text
unfolding format_int
rpc_error_text (unreachable e) = e
rpc_error_text (bad_response endpoint body) = endpoint ++ (codes ": bad response: " ++ body)
rpc_error_text (rpc_failed endpoint message more) =
    endpoint ++ (codes ": rpc error: " ++ (message ++ b' ' ∷ more))
rpc_error_text no_endpoints = codes "no RPC endpoints configured"
rpc_error_text (bad_json e) = e
rpc_error_text (bad_base64 e) = e
rpc_error_text (query_failed path code log) =
    codes "query "
    ++ (path ++ (codes " failed (code " ++ (format_int code ++ (codes "): " ++ log))))
rpc_error_text no_account =
    codes "could not parse account (vesting/module accounts are unsupported)"
rpc_error_text (tx_rejected code codespace log) =
    codes "tx rejected (code "
    ++ (format_int code ++ (codes ", " ++ (codespace ++ (codes "): " ++ log))))
