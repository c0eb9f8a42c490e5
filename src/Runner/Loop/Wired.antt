-- ===== src/Runner/Loop/Wired.antt =====
-- The loop of internal/runner/runner.go over the keyring of internal/keys/keys.go, the client of
-- internal/chain/chain.go and the docker client of internal/dockerx/dockerx.go: what it hands to the
-- endpoints of the chain.
use sentnodes_agent.Base.{
  IsU64, ℕ, Bool, Option, none, some, List, [], ◌++◌, All, All-map, ◌≡◌, sym,
}
use mathlib.Core.Path.{subst}
use sentnodes_agent.Api.{ApiResult}
use sentnodes_agent.Base.Text.{Text, codes}
use sentnodes_agent.Decimal.{format_uint}
use sentnodes_agent.Docker.{
  Engine, DockerError, no_answer, bad_json, http_status, not_found, Called, answered, refused,
  panics, restart_container,
}
use sentnodes_agent.Exec.Withdraw.Wired.{Outside, opens, answers_of}
use sentnodes_agent.Exec.Withdraw.Wired.Safe.{
  IsPayment, answers_with-balance_fits, IsWithdrawal-IsPayment,
}
use sentnodes_agent.Float.{Floats}
use sentnodes_agent.Protobuf.{Bytes}
use sentnodes_agent.Runner.Enroll.{Settings}
use sentnodes_agent.Runner.Handlers.{Surroundings}
use sentnodes_agent.Runner.Handlers.Safe.{IsPollTx, AreAllU64, fee_of}
use sentnodes_agent.Runner.Loop.{Running, Attempts, Commands, Turn, loop}
use sentnodes_agent.Runner.Loop.Forever.{loop-IsPollTx}

-- The text of an error of `Restart`, which finds no container and reads no JSON.
abbrev restart_error_text : DockerError → Text
restart_error_text (no_answer e) = e
restart_error_text (bad_json e) = e
restart_error_text (http_status status body) =
    codes "restart failed: http " ++ (format_uint status ++ (codes ": " ++ body))
restart_error_text not_found = []

-- A panic of `Restart` ends the program.
abbrev restart_error_of : Called (Unit {0}) → Option Text
restart_error_of (answered x) = none
restart_error_of (refused e) = some (restart_error_text e)
restart_error_of panics = none

-- The surroundings of the handlers with the components in place; `outs` and `engines` are what the
-- calls of the loop meet in turn.
unfoldable pub wired :
    (fl : Floats)
    → Surroundings fl
    → (outs : ℕ → Outside) → (engines : ℕ → Engine) → Surroundings fl
unfolding restart_container format_uint
wired fl env outs engines = record env {
  answers = λ n. answers_of (outs n) env.cfg;
  restart_error = λ n. restart_error_of (restart_container (engines n) env.container_id);
}

module _ (fl : Floats) (env : Surroundings fl) (outs : ℕ → Outside) (engines : ℕ → Engine)
    (s : Settings) where
  -- A transaction that is a payment of some call of `Withdraw`.
  pub record IsPaymentTx (tx : Bytes) : Type 0 where
    pub call : ℕ
    pub all : Bool
    pub asked : ℕ
    pub is_payment : IsPayment env.cfg (outs call) (fee_of fl env) all asked tx

  wired-AreAllU64 :
      IsU64 (fee_of fl env)
      → IsU64 env.cfg.withdraw_reserve
      → ((x : fl.Float) → IsU64 (fl.to_uint64 x))
      → AreAllU64 fl (wired fl env outs engines)
  unfolding wired
  wired-AreAllU64 f r n = record {
    bal_fits = λ n. answers_with-balance_fits (outs n) env.cfg (opens (outs n) env.cfg);
    fee_fits = f;
    reserve_fits = r;
    number_fits = n;
  }

  IsPollTx-IsPaymentTx : (tx : Bytes) → IsPollTx fl (wired fl env outs engines) tx → IsPaymentTx tx
  unfolding wired
  IsPollTx-IsPaymentTx tx p = record {
    call = p.call;
    all = p.all;
    asked = p.asked;
    is_payment =
        IsWithdrawal-IsPayment (outs p.call) env.cfg (fee_of fl env) p.all p.asked tx
          p.is_withdrawal;
  }

  -- Where the fee, the reserve and the numbers of the commands are uint64s, over a whole run of
  -- the loop from a node that has broadcast nothing, whatever the server commands, the keyring
  -- holds and the endpoints answer, every transaction that is broadcast is a payment: to the
  -- configured address, which is set, signed with the key that `Open` gives for the configured
  -- name, of an amount that is positive, at least the minimum, and leaves the reserve, with the
  -- fee paid, of the balance that the endpoints answer for that key's address.
  pub loop-IsPaymentTx :
      IsU64 (fee_of fl env)
      → IsU64 env.cfg.withdraw_reserve
      → ((x : fl.Float) → IsU64 (fl.to_uint64 x))
      → (reply : ApiResult (Commands fl (wired fl env outs engines) s × Text)) (t : Attempts)
        (ts : List (Turn fl (wired fl env outs engines) s)) (r : Running)
      → r.node.sent ≡ []
      → All IsPaymentTx (loop fl (wired fl env outs engines) s reply t ts r).node.sent
  loop-IsPaymentTx f w n reply t ts r e = All-map _ _ _ IsPollTx-IsPaymentTx (
      loop-IsPollTx fl (wired fl env outs engines) s (wired-AreAllU64 f w n) reply t ts r
        (subst (λ x. All (IsPollTx fl (wired fl env outs engines)) x) (sym e) tt))
