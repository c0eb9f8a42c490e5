-- ===== src/Runner/Handlers/Safe.antt =====
-- What a poll may broadcast: the safety of `Withdraw` through the handlers.
use sentnodes_agent.Base.{
  IsU64, ℕ, Bool, not, ◌&&◌, Option, none, some, List, All, All-append, ◌==◌, ◌≡◌, sym, Bool-cases,
  inl, inr, arith,
}
use mathlib.Core.Path.{subst}
use sentnodes_agent.Base.Got.{got}
use sentnodes_agent.Base.Text.{Text, codes, equal}
use sentnodes_agent.Exec.Withdraw.{compute_fee, withdraw}
use sentnodes_agent.Exec.Withdraw.Safe.{IsWithdrawal, SendsWithdrawal, AreU64, withdraw_safe}
use sentnodes_agent.Float.{Floats}
use sentnodes_agent.Protobuf.{Bytes}
use sentnodes_agent.Runner.Handlers.{
  Json, number, string, boolean, array, other, Payload, payload_at, as_bool, to_uint, Node,
  Surroundings, apply_config, run_withdraw, execute, restart_node, handlers,
}
use sentnodes_agent.Runner.Handlers.Same.{Same, apply_config-Same, restart_node-Same}
use sentnodes_agent.Runner.Poll.{Command, run_batch}
use sentnodes_agent.Runner.Poll.Keeps.{run_batch-keeps, no_condition}

module _ (fl : Floats) (env : Surroundings fl) where
  abbrev pub fee_of : ℕ
  fee_of = compute_fee fl env.cfg.gas env.cfg.gas_prices

  -- A transaction of some call of `Withdraw`.
  pub record IsPollTx (tx : Bytes) : Type 0 where
    pub call : ℕ
    pub all : Bool
    pub asked : ℕ
    pub is_withdrawal : IsWithdrawal env.cfg (env.answers call) fee_of all asked tx

  -- The numbers of every call are uint64s.
  pub record AreAllU64 : Type 0 where
    pub bal_fits : (n bal : ℕ) → (env.answers n).balance ≡ got bal → IsU64 bal
    pub fee_fits : IsU64 fee_of
    pub reserve_fits : IsU64 env.cfg.withdraw_reserve
    pub number_fits : (x : fl.Float) → IsU64 (fl.to_uint64 x)

  module _ (u : AreAllU64) where
    to_uint-fits : (v : Option (Json fl.Float)) → IsU64 (to_uint fl v).0
    to_uint-fits (some (number x)) = elim (Bool-cases (fl.ge_zero x)) [
      | inl y ↦ rw y (u.number_fits x)
      | inr n ↦ rw n (omega arith)
    ]
    to_uint-fits (some (string s)) = omega arith
    to_uint-fits (some (boolean b)) = omega arith
    to_uint-fits (some (array es)) = omega arith
    to_uint-fits (some other) = omega arith
    to_uint-fits none = omega arith

    sent-IsPollTx :
        (n : ℕ) (all : Bool) (asked : ℕ) (sent : List Bytes)
        → SendsWithdrawal env.cfg (env.answers n) fee_of all asked sent
        → All IsPollTx sent
    sent-IsPollTx n all asked sent (inl e) = subst (λ s. All IsPollTx s) (sym e) tt
    sent-IsPollTx n all asked sent (inr (tx, e, w)) =
        subst (λ s. All IsPollTx s) (sym e)
          (record { call = n; all = all; asked = asked; is_withdrawal = w }, tt)

    run_withdraw-IsPollTx :
        (key : Text) (all : Bool) (asked : ℕ) (w : Node)
        → IsU64 asked
        → All IsPollTx w.sent
        → All IsPollTx (run_withdraw fl env key all asked w).0.sent
    unfolding run_withdraw
    run_withdraw-IsPollTx key all asked w a h = elim (Bool-cases (not all && asked == 0)) [
      | inl bad ↦ rw bad h
      | inr good ↦
          let ans = env.answers w.calls in
          let numbers : AreU64 fl env.cfg ans asked = record {
            bal_fits = u.bal_fits w.calls;
            fee_fits = u.fee_fits;
            asked_fits = a;
            reserve_fits = u.reserve_fits;
          } in
          let sent = (withdraw fl env.cfg ans asked all key w.log).sent in
          rw good (
            All-append IsPollTx w.sent sent h (
              sent-IsPollTx w.calls all asked sent
                (withdraw_safe fl env.cfg ans all asked key w.log numbers)))
    ]

    execute-IsPollTx :
        (c : Command (Payload fl.Float)) (w : Node)
        → All IsPollTx w.sent
        → All IsPollTx (execute fl env c w).0.sent
    unfolding execute
    execute-IsPollTx c w h = elim (Bool-cases (equal c.type (codes "status"))) [
      | inl a ↦ rw a h
      | inr a ↦ elim (Bool-cases (equal c.type (codes "withdraw"))) [
        | inl b ↦
            let amount = payload_at c.payload (codes "amount") in
            rw (a, b)
              (run_withdraw-IsPollTx c.id (as_bool (payload_at c.payload (codes "all")))
                (to_uint fl amount).0 w (to_uint-fits amount) h)
        | inr b ↦ rw (a, b) h
      ]
    ]

    Same-IsPollTx : (w v : Node) → Same fl env w v → All IsPollTx w.sent → All IsPollTx v.sent
    Same-IsPollTx w v s h = subst (λ t. All IsPollTx t) (sym s.0) h

    -- Whatever the server commands, each transaction that a poll broadcasts is a withdrawal: it
    -- goes to the configured address, is signed with the operator key, and leaves the reserve,
    -- with the fee paid, of the balance that the chain has answered. The numbers of the calls are
    -- uint64s.
    pub run_batch-IsPollTx :
        (cmds : List (Command (Payload fl.Float))) (w : Node)
        → All IsPollTx w.sent
        → All IsPollTx (run_batch (handlers fl env) cmds w).0.sent
    run_batch-IsPollTx cmds w h =
        run_batch-keeps (handlers fl env) (λ v. All IsPollTx v.sent) (λ c. Unit {0})
          (λ c q v i. Same-IsPollTx v (apply_config fl env c v).0 (apply_config-Same fl env c v) i)
          (λ c q v i. execute-IsPollTx c v i)
          (λ v i. Same-IsPollTx v (restart_node fl env v).0 (restart_node-Same fl env v) i) cmds w
          (no_condition cmds) h
