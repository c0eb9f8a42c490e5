-- ===== src/Runner/Poll/Order.antt =====
-- A poll restarts the node at most once, behind all that the commands do.
use sentnodes_agent.Base.{
  true, false, List, [], ◌∷◌, ◌++◌, map, All, All-append, Bool-cases, ◌≡◌, ◌⊎◌, inl, inr, refl, sym,
}
use mathlib.Core.List.{append-nil}
use sentnodes_agent.Runner.Poll.{
  Command, Answer, Handlers, Event, edited, executed, restarted, reported, Kind, restart_kind,
  config_kind, other_kind, kind_of, Batch, after_edit, on_kind, run_commands, after_restart,
  finish_batch, fresh, run_batch,
}

module _ {P R : Type 0} where
  abbrev pub NoRestart : Event P R → Type 0
  NoRestart restarted = ⊥
  NoRestart _ = Unit

  abbrev pub IsReport : Event P R → Type 0
  IsReport (reported c a) = Unit
  IsReport _ = ⊥

  -- No restart at first, then nothing, or one restart with nothing but reports behind it.
  pub record OneRestart (events : List (Event P R)) : Type 0 where
    pub front : List (Event P R)
    pub back : List (Event P R)
    pub parts : events ≡ front ++ back
    pub quiet : All NoRestart front
    pub ends :
        (back ≡ [])
        ⊎ ((reports : List (Event P R)) × (back ≡ restarted ∷ reports) × All IsReport reports)

  reports-IsReport :
      (a : Answer R) (cs : List (Command P)) → All IsReport (map (λ c. reported c a) cs)
  reports-IsReport a [] = tt
  reports-IsReport a (c ∷ cs) = (tt, reports-IsReport a cs)

  module _ {W : Type 0} (h : Handlers P R W) where
    after_edit-quiet :
        (c : Command P) (b : Batch P R W) (r : W × Answer R)
        → All NoRestart b.events
        → All NoRestart (after_edit c b r).events
    after_edit-quiet c b (w, (true, r)) q = All-append NoRestart b.events (edited c ∷ []) q (tt, tt)
    after_edit-quiet c b (w, (false, r)) q =
        All-append NoRestart b.events (edited c ∷ reported c (false, r) ∷ []) q (tt, (tt, tt))

    on_kind-quiet :
        (k : Kind) (c : Command P) (b : Batch P R W)
        → All NoRestart b.events
        → All NoRestart (on_kind h k c b).events
    on_kind-quiet restart_kind c b q = q
    on_kind-quiet config_kind c b q = after_edit-quiet c b (h.apply_config c b.world) q
    on_kind-quiet other_kind c b q =
        let a = (h.execute c b.world).1 in
        All-append NoRestart b.events (executed c ∷ reported c a ∷ []) q (tt, (tt, tt))

    run_commands-quiet :
        (cmds : List (Command P)) (b : Batch P R W)
        → All NoRestart b.events
        → All NoRestart (run_commands h cmds b).events
    unfolding run_commands
    run_commands-quiet [] b q = q
    run_commands-quiet (c ∷ cmds) b q =
        run_commands-quiet cmds (on_kind h (kind_of c.type) c b)
          (on_kind-quiet (kind_of c.type) c b q)

    after_restart-OneRestart :
        (b : Batch P R W) (r : W × Answer R)
        → All NoRestart b.events
        → OneRestart (after_restart h b r).1
    after_restart-OneRestart b (w, a) q = record {
      front = b.events;
      back = restarted ∷ map (λ c. reported c a) b.deferred;
      parts = refl;
      quiet = q;
      ends = inr (map (λ c. reported c a) b.deferred, refl, reports-IsReport a b.deferred);
    }

    finish_batch-OneRestart :
        (b : Batch P R W) → All NoRestart b.events → OneRestart (finish_batch h b).1
    finish_batch-OneRestart b q = elim (Bool-cases b.restart) [
      | inl on ↦ rw on (after_restart-OneRestart b (h.restart_node b.world) q)
      | inr off ↦ rw off (record {
        front = b.events;
        back = [];
        parts = sym (append-nil b.events);
        quiet = q;
        ends = inl refl;
      })
    ]

    -- In a poll the node restarts at most once, and what comes behind the restart are reports only:
    -- every edit and every other command is done before it.
    pub run_batch-OneRestart : (cmds : List (Command P)) (w : W) → OneRestart (run_batch h cmds w).1
    unfolding run_batch
    run_batch-OneRestart cmds w =
        finish_batch-OneRestart (run_commands h cmds (fresh h w))
          (run_commands-quiet cmds (fresh h w) tt)
