-- ===== src/Runner/Loop/Once.antt =====
-- A withdrawal is paid once, over a whole run of the loop.
use sentnodes_agent.Base.{ℕ, Bool, true, Option, none, List, [], ◌≡◌}
use sentnodes_agent.Base.Text.{Text}
use sentnodes_agent.Exec.Withdraw.{lookup_withdraw, Answers, withdraw}
use sentnodes_agent.Exec.Withdraw.Log.{text_of, AreLines, IsWord}
use sentnodes_agent.Exec.Withdraw.Paid.{Paid}
use sentnodes_agent.Float.{Floats}
use sentnodes_agent.Runner.Handlers.{Surroundings}

-- A first withdrawal under a key, on a log of whole lines that does not have the key, that
-- succeeds and is recorded, with visible text.
pub record FirstPaid (fl : Floats) (env : Surroundings fl) (key : Text) (log : Option Text)
    : Type 0 where
  pub ls : Option (List Text)
  pub ans : Answers
  pub asked : ℕ
  pub all : Bool
  pub are_lines : AreLines ls
  pub key_word : IsWord key
  pub is_recorded : ans.recorded ≡ true
  pub is_new : lookup_withdraw (text_of ls) key ≡ []
  pub succeeded : (withdraw fl env.cfg ans asked all key (text_of ls)).error ≡ none
  pub hash_word : IsWord (withdraw fl env.cfg ans asked all key (text_of ls)).hash
  pub left : log ≡ (withdraw fl env.cfg ans asked all key (text_of ls)).log
