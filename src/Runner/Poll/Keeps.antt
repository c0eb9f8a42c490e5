-- ===== src/Runner/Poll/Keeps.antt =====
-- What every handler of a poll keeps, the poll keeps.
use sentnodes_agent.Base.{true, false, List, [], ◌∷◌, All, Bool-cases, inl, inr}
use sentnodes_agent.Runner.Poll.{
  Command, Answer, Handlers, Kind, restart_kind, config_kind, other_kind, kind_of, Batch,
  after_edit, on_kind, run_commands, finish_batch, fresh, run_batch,
}

module _ {P R W : Type 0} (h : Handlers P R W) (I : W → Type 0) (Q : Command P → Type 0)
    (edit : (c : Command P) → Q c → (w : W) → I w → I (h.apply_config c w).0)
    (run : (c : Command P) → Q c → (w : W) → I w → I (h.execute c w).0)
    (restart : (w : W) → I w → I (h.restart_node w).0) where
  after_edit-keeps :
      (c : Command P) (b : Batch P R W) (r : W × Answer R) → I r.0 → I (after_edit c b r).world
  after_edit-keeps c b (w, (true, r)) i = i
  after_edit-keeps c b (w, (false, r)) i = i

  on_kind-keeps :
      (k : Kind) (c : Command P) (b : Batch P R W) → Q c → I b.world → I (on_kind h k c b).world
  on_kind-keeps restart_kind c b q i = i
  on_kind-keeps config_kind c b q i =
      after_edit-keeps c b (h.apply_config c b.world) (edit c q b.world i)
  on_kind-keeps other_kind c b q i = run c q b.world i

  run_commands-keeps :
      (cmds : List (Command P)) (b : Batch P R W)
      → All Q cmds
      → I b.world
      → I (run_commands h cmds b).world
  unfolding run_commands
  run_commands-keeps [] b q i = i
  run_commands-keeps (c ∷ cmds) b (q, qs) i =
      run_commands-keeps cmds (on_kind h (kind_of c.type) c b) qs
        (on_kind-keeps (kind_of c.type) c b q i)

  finish_batch-keeps : (b : Batch P R W) → I b.world → I (finish_batch h b).0
  finish_batch-keeps b i = elim (Bool-cases b.restart) [
    | inl on ↦ rw on (restart b.world i)
    | inr off ↦ rw off i
  ]

  pub run_batch-keeps :
      (cmds : List (Command P)) (w : W) → All Q cmds → I w → I (run_batch h cmds w).0
  unfolding run_batch
  run_batch-keeps cmds w q i =
      finish_batch-keeps (run_commands h cmds (fresh h w)) (run_commands-keeps cmds (fresh h w) q i)

pub no_condition : {P : Type 0} (cmds : List (Command P)) → All (λ c. Unit {0}) cmds
no_condition [] = tt
no_condition (c ∷ cmds) = (tt, no_condition cmds)
