-- ===== src/Runner/Watch/Settles.antt =====
-- No event of the container is lost, and bursts of events are collapsed.
use sentnodes_agent.Base.{ℕ, ◌+◌, ◌≤◌, Bool, true, false, List, [], ◌∷◌, ◌≡◌, ◌⊎◌}
use sentnodes_agent.Base.Text.{Text}
use sentnodes_agent.Runner.Watch.{Input, received, fired, taken, Watch}

abbrev count : Bool → ℕ
count true = 1
count false = 0

-- A message that no turn has followed yet is still on its way, and there are never more turns,
-- taken or on their way, than messages.
pub record IsCoherent (w : Watch) : Type 0 where
  pub on_its_way : w.due ≡ true → (w.queued ≡ true) ⊎ ((w.armed ≡ true) ⊎ (w.pending ≡ true))
  pub enough : w.turns + (count w.queued + (count w.armed + count w.pending)) ≤ w.messages

abbrev pub last_steps : List Input
last_steps = received ∷ fired ∷ taken ∷ []
