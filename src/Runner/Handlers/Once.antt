-- ===== src/Runner/Handlers/Once.antt =====
-- Commands that the server delivers again: what is paid is not paid twice.
use sentnodes_agent.Base.{
  ℕ, Bool, false, not, ◌&&◌, Option, List, [], ◌++◌, All, ◌==◌, ◌≡◌, refl, sym, ap, ◌∙◌, Bool-cases,
  inl, inr,
}
use mathlib.Core.List.{append-nil}
use mathlib.Core.Path.{subst}
use sentnodes_agent.Base.Text.{Text, codes, equal, is_empty}
use sentnodes_agent.Config.{Config}
use sentnodes_agent.Exec.Withdraw.{Answers, lookup_withdraw, withdraw}
use sentnodes_agent.Exec.Withdraw.Paid.{Paid, Paid-lookup, withdraw-Paid}
use sentnodes_agent.Float.{Floats}
use sentnodes_agent.Runner.Handlers.{
  Payload, payload_at, as_bool, to_uint, Node, Surroundings, apply_config, run_withdraw, execute,
  restart_node, handlers,
}
use sentnodes_agent.Runner.Handlers.Same.{Same, apply_config-Same, restart_node-Same}
use sentnodes_agent.Runner.Poll.{Command, run_batch}
use sentnodes_agent.Runner.Poll.Keeps.{run_batch-keeps, no_condition}

withdraw-sends_nothing :
    (key hash : Text) (fl : Floats) (cfg : Config) (ans : Answers) (asked : ℕ) (all : Bool)
    (log : Option Text)
    → Paid key hash log
    → (withdraw fl cfg ans asked all key log).sent ≡ []
unfolding withdraw
withdraw-sends_nothing key hash fl cfg ans asked all log p =
    elim (Bool-cases (is_empty cfg.withdraw_addr)) [
      | inl off ↦ rw off refl
      | inr on ↦
          let old : is_empty (lookup_withdraw log key) ≡ false =
            ap is_empty (Paid-lookup key hash log p) ∙ p.filled in
          rw (on, old) refl
    ]

module _ (fl : Floats) (env : Surroundings fl) where
  -- Every key that the log of `w` has paid, the log of `v` has paid too.
  abbrev pub StaysPaid : Node → Node → Type 0
  StaysPaid w v = (key hash : Text) → Paid key hash w.log → Paid key hash v.log

  run_withdraw-StaysPaid :
      (k : Text) (all : Bool) (asked : ℕ) (w : Node)
      → StaysPaid w (run_withdraw fl env k all asked w).0
  unfolding run_withdraw
  run_withdraw-StaysPaid k all asked w key hash p = elim (Bool-cases (not all && asked == 0)) [
    | inl bad ↦ rw bad p
    | inr good ↦
        rw good (withdraw-Paid key hash fl env.cfg (env.answers w.calls) asked all k w.log p)
  ]

  execute-StaysPaid :
      (c : Command (Payload fl.Float)) (w : Node) → StaysPaid w (execute fl env c w).0
  unfolding execute
  execute-StaysPaid c w key hash p = elim (Bool-cases (equal c.type (codes "status"))) [
    | inl a ↦ rw a p
    | inr a ↦ elim (Bool-cases (equal c.type (codes "withdraw"))) [
      | inl b ↦
          let all = as_bool (payload_at c.payload (codes "all")) in
          let amount = to_uint fl (payload_at c.payload (codes "amount")) in
          rw (a, b) (run_withdraw-StaysPaid c.id all amount.0 w key hash p)
      | inr b ↦ rw (a, b) p
    ]
  ]

  Same-StaysPaid : (w v : Node) → Same fl env w v → StaysPaid w v
  Same-StaysPaid w v s key hash p = subst (λ l. Paid key hash l) (sym s.1) p

  run_withdraw-sent :
      (key hash : Text) (all : Bool) (asked : ℕ) (w : Node)
      → Paid key hash w.log
      → (run_withdraw fl env key all asked w).0.sent ≡ w.sent
  unfolding run_withdraw
  run_withdraw-sent key hash all asked w p = elim (Bool-cases (not all && asked == 0)) [
    | inl bad ↦ rw bad refl
    | inr good ↦ rw good (
        ap (w.sent ++◌)
          (withdraw-sends_nothing key hash fl env.cfg (env.answers w.calls) asked all w.log p)
        ∙ append-nil w.sent)
  ]

  execute-sent :
      (c : Command (Payload fl.Float)) (hash : Text) (w : Node)
      → Paid c.id hash w.log
      → (execute fl env c w).0.sent ≡ w.sent
  unfolding execute
  execute-sent c hash w p = elim (Bool-cases (equal c.type (codes "status"))) [
    | inl a ↦ rw a refl
    | inr a ↦ elim (Bool-cases (equal c.type (codes "withdraw"))) [
      | inl b ↦
          let all = as_bool (payload_at c.payload (codes "all")) in
          let amount = to_uint fl (payload_at c.payload (codes "amount")) in
          rw (a, b) (run_withdraw-sent c.id hash all amount.0 w p)
      | inr b ↦ rw (a, b) refl
    ]
  ]

  -- What a poll of commands with paid ids keeps of the node that it starts from.
  abbrev Keeps : Node → Node → Type 0
  Keeps w v = (v.sent ≡ w.sent) × StaysPaid w v

  Same-Keeps : (w v u : Node) → Same fl env v u → Keeps w v → Keeps w u
  Same-Keeps w v u s k = (s.0 ∙ k.0, λ key hash p. Same-StaysPaid v u s key hash (k.1 key hash p))

  -- A poll of which each command has an id that the log has paid already broadcasts nothing, whatever
  -- the types and payloads, and whatever is paid stays paid.
  pub run_batch-sends_nothing :
      (cmds : List (Command (Payload fl.Float))) (w : Node)
      → All (λ c. (hash : Text) × Paid c.id hash w.log) cmds
      → let v = (run_batch (handlers fl env) cmds w).0 in (v.sent ≡ w.sent) × StaysPaid w v
  run_batch-sends_nothing cmds w paid =
      run_batch-keeps (handlers fl env) (Keeps w) (λ c. (hash : Text) × Paid c.id hash w.log)
        (λ c q v k. Same-Keeps w v (apply_config fl env c v).0 (apply_config-Same fl env c v) k)
        (λ c q v k. (
          execute-sent c q.0 v (k.1 c.id q.0 q.1) ∙ k.0,
          λ key hash p. execute-StaysPaid c v key hash (k.1 key hash p),
        ))
        (λ v k. Same-Keeps w v (restart_node fl env v).0 (restart_node-Same fl env v) k) cmds w paid
        (refl, λ key hash p. p)

  -- Whatever a poll commands, each key that the log has paid stays paid with its hash.
  pub run_batch-StaysPaid :
      (cmds : List (Command (Payload fl.Float))) (w : Node)
      → StaysPaid w (run_batch (handlers fl env) cmds w).0
  run_batch-StaysPaid cmds w key hash p =
      run_batch-keeps (handlers fl env) (λ v. Paid key hash v.log) (λ c. Unit {0})
        (λ c q v i.
          Same-StaysPaid v (apply_config fl env c v).0 (apply_config-Same fl env c v) key hash i)
        (λ c q v i. execute-StaysPaid c v key hash i)
        (λ v i. Same-StaysPaid v (restart_node fl env v).0 (restart_node-Same fl env v) key hash i)
        cmds w (no_condition cmds) p
