-- ===== src/Runner/Poll/Reports.antt =====
-- Each command of a poll is reported once.
use sentnodes_agent.Base.{
  ℕ, ◌+◌, true, false, List, [], ◌∷◌, ◌++◌, map, ◌≡◌, refl, arith, if◌then◌else◌, ap, ◌∙◌,
  Bool-cases, inl, inr,
}
use sentnodes_agent.Base.Text.{Text, equal}
use sentnodes_agent.Runner.Poll.{
  Command, Answer, Handlers, Event, edited, executed, restarted, reported, Kind, restart_kind,
  config_kind, other_kind, kind_of, Batch, after_edit, on_kind, run_commands, after_restart,
  finish_batch, fresh, run_batch,
}

module _ {P : Type 0} (id : Text) where
  abbrev one : Command P → ℕ
  one c = if equal c.id id then 1 else 0

  -- How many commands have the id.
  abbrev pub count_commands : List (Command P) → ℕ
  count_commands [] = 0
  count_commands (c ∷ cs) = one c + count_commands cs

  count_commands-append :
      (xs ys : List (Command P)) → count_commands (xs ++ ys) ≡ count_commands xs + count_commands ys
  count_commands-append [] ys = omega arith
  count_commands-append (x ∷ xs) ys = omega (arith, count_commands-append xs ys)

module _ {P R : Type 0} (id : Text) where
  -- How many events report it.
  abbrev pub count_reports : List (Event P R) → ℕ
  count_reports [] = 0
  count_reports (reported c a ∷ es) = one id c + count_reports es
  count_reports (edited c ∷ es) = count_reports es
  count_reports (executed c ∷ es) = count_reports es
  count_reports (restarted ∷ es) = count_reports es

  count_reports-append :
      (xs ys : List (Event P R)) → count_reports (xs ++ ys) ≡ count_reports xs + count_reports ys
  count_reports-append [] ys = omega arith
  count_reports-append (reported c a ∷ xs) ys = omega (arith, count_reports-append xs ys)
  count_reports-append (edited c ∷ xs) ys = count_reports-append xs ys
  count_reports-append (executed c ∷ xs) ys = count_reports-append xs ys
  count_reports-append (restarted ∷ xs) ys = count_reports-append xs ys

  count_reports-map :
      (a : Answer R) (cs : List (Command P))
      → count_reports (map (λ c. reported c a) cs) ≡ count_commands id cs
  count_reports-map a [] = omega arith
  count_reports-map a (c ∷ cs) = omega (arith, count_reports-map a cs)

  -- Reported so far, or waiting for the restart.
  abbrev due : {W : Type 0} → Batch P R W → ℕ
  due b = count_reports b.events + count_commands id b.deferred

  -- Without a restart nothing waits.
  abbrev Waits : {W : Type 0} → Batch P R W → Type 0
  Waits b = b.restart ≡ false → b.deferred ≡ []

  after_edit-due :
      {W : Type 0} (c : Command P) (b : Batch P R W) (r : W × Answer R)
      → due (after_edit c b r) ≡ due b + one id c
  after_edit-due c b (w, (true, r)) = omega (
    arith,
    count_reports-append b.events (edited c ∷ []),
    count_commands-append id b.deferred (c ∷ []),
  )
  after_edit-due c b (w, (false, r)) =
      omega (arith, count_reports-append b.events (edited c ∷ reported c (false, r) ∷ []))

  after_edit-Waits :
      {W : Type 0} (c : Command P) (b : Batch P R W) (r : W × Answer R)
      → Waits b
      → Waits (after_edit c b r)
  after_edit-Waits c b (w, (true, r)) h e = absurd (ground arith)
  after_edit-Waits c b (w, (false, r)) h e = h e

  module _ {W : Type 0} (h : Handlers P R W) where
    on_kind-due :
        (k : Kind) (c : Command P) (b : Batch P R W) → due (on_kind h k c b) ≡ due b + one id c
    on_kind-due restart_kind c b = omega (arith, count_commands-append id b.deferred (c ∷ []))
    on_kind-due config_kind c b = after_edit-due c b (h.apply_config c b.world)
    on_kind-due other_kind c b =
        let a = (h.execute c b.world).1 in
        omega (arith, count_reports-append b.events (executed c ∷ reported c a ∷ []))

    on_kind-Waits : (k : Kind) (c : Command P) (b : Batch P R W) → Waits b → Waits (on_kind h k c b)
    on_kind-Waits restart_kind c b w e = absurd (ground arith)
    on_kind-Waits config_kind c b w e = after_edit-Waits c b (h.apply_config c b.world) w e
    on_kind-Waits other_kind c b w e = w e

    run_commands-due :
        (cmds : List (Command P)) (b : Batch P R W)
        → due (run_commands h cmds b) ≡ due b + count_commands id cmds
    unfolding run_commands
    run_commands-due [] b = omega arith
    run_commands-due (c ∷ cmds) b =
        let k : Kind = kind_of c.type in
        omega (arith, run_commands-due cmds (on_kind h k c b), on_kind-due k c b)

    run_commands-Waits :
        (cmds : List (Command P)) (b : Batch P R W) → Waits b → Waits (run_commands h cmds b)
    unfolding run_commands
    run_commands-Waits [] b w = w
    run_commands-Waits (c ∷ cmds) b w =
        run_commands-Waits cmds (on_kind h (kind_of c.type) c b)
          (on_kind-Waits (kind_of c.type) c b w)

    after_restart-due :
        (b : Batch P R W) (r : W × Answer R) → count_reports (after_restart h b r).1 ≡ due b
    after_restart-due b (w, a) = omega (
      arith,
      count_reports-append b.events (restarted ∷ map (λ c. reported c a) b.deferred),
      count_reports-map a b.deferred,
    )

    finish_batch-due : (b : Batch P R W) → Waits b → count_reports (finish_batch h b).1 ≡ due b
    finish_batch-due b w = elim (Bool-cases b.restart) [
      | inl yes_restart ↦ rw yes_restart (after_restart-due b (h.restart_node b.world))
      | inr no_restart ↦ rw no_restart (omega (arith, ap (count_commands id) (w no_restart)))
    ]

    -- A poll reports each command once, whatever the handlers answer: for every id there are as many
    -- reports as there are commands.
    pub run_batch-reports :
        (cmds : List (Command P)) (w : W)
        → count_reports (run_batch h cmds w).1 ≡ count_commands id cmds
    unfolding run_batch
    run_batch-reports cmds w =
        let b : Batch P R W = run_commands h cmds (fresh h w) in
        finish_batch-due b (run_commands-Waits cmds (fresh h w) (λ e. refl))
        ∙ omega (arith, run_commands-due cmds (fresh h w))
