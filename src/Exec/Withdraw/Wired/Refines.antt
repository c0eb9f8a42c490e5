-- ===== src/Exec/Withdraw/Wired/Refines.antt =====
-- `Withdraw` with its parts in place does what `withdraw` does with the answers of the parts.
use sentnodes_agent.Base.{ℕ, Option, ◌≡◌}
use sentnodes_agent.Base.Text.{Text}
use sentnodes_agent.Config.{Config}
use sentnodes_agent.Exec.Withdraw.{Answers, Outcome}
use sentnodes_agent.Exec.Withdraw.Wired.{Outside, Run, returns, panicked, answers_with}
use sentnodes_agent.Keys.{Account}
use sentnodes_agent.Keys.Open.{opened}

-- The run returns the outcome, or panics with the outcome's transactions handed to `Broadcast`.
abbrev pub RunRefines : Run → Outcome → Type 0
RunRefines (returns o) o' = o ≡ o'
RunRefines (panicked sent) o' = sent ≡ o'.sent

module _ (out : Outside) (cfg : Config) (log : Option Text) (key : Text) where
  module _ (signer : Account) (fee : ℕ) where
    abbrev ans : Answers
    ans = answers_with out cfg (opened signer)
