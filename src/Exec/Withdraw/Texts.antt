-- ===== src/Exec/Withdraw/Texts.antt =====
-- The texts of the errors of `Withdraw` of internal/exec/exec.go, with `p2p`.
use sentnodes_agent.Base.{ℕ, ◌++◌}
use sentnodes_agent.Base.Text.{Text, codes}
use sentnodes_agent.Docker.Stats.{Quotients}
use sentnodes_agent.Exec.Withdraw.{
  WithdrawError, disabled, not_positive, open_key, query_balance, query_account,
  nothing_to_withdraw, below_minimum, would_leave_less, broadcast_failed,
}
use sentnodes_agent.Float.{Floats}

module _ (fl : Floats) (q : Quotients fl) (format_float : fl.Float → Text) where
  -- `p2p`; `format_float` is strconv.FormatFloat in the format 'f' with as many digits as are needed.
  unfoldable pub p2p : ℕ → Text
  p2p udvpn = format_float (q.div (fl.of_uint64 udvpn) (fl.of_uint64 1_000_000))

  unfoldable pub withdraw_error_text : WithdrawError → Text
  unfolding p2p
  withdraw_error_text disabled = codes "withdrawals disabled: WITHDRAWAL_ADDRESS is not set"
  withdraw_error_text not_positive = codes "amount must be positive"
  withdraw_error_text (open_key e) = codes "open key: " ++ e
  withdraw_error_text (query_balance e) = codes "query balance: " ++ e
  withdraw_error_text (query_account e) = codes "query account: " ++ e
  withdraw_error_text (nothing_to_withdraw bal reserve) =
      codes "balance "
      ++ (p2p bal
          ++ (codes " P2P is at or below the "
              ++ (p2p reserve ++ codes " P2P reserve plus fee; nothing to withdraw")))
  withdraw_error_text (below_minimum amount min) =
      codes "amount "
      ++ (p2p amount
          ++ (codes " P2P is below the minimum withdrawal of " ++ (p2p min ++ codes " P2P")))
  withdraw_error_text (would_leave_less reserve amount fee bal) =
      codes "would leave less than the "
      ++ (p2p reserve
          ++ (codes " P2P reserve: amount "
              ++ (p2p amount
                  ++ (codes " P2P (+"
                      ++ (p2p fee ++ (codes " fee), balance " ++ (p2p bal ++ codes " P2P")))))))
  withdraw_error_text (broadcast_failed e) = e
