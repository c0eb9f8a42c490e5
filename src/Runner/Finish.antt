-- ===== src/Runner/Finish.antt =====
-- `finish` of internal/runner/runner.go, with wire.ResultReq, and what follows a poll that has
-- answered.
use sentnodes_agent.Base.{Bool, List, [], ◌∷◌, All, ◌≡◌}
use sentnodes_agent.Api.{Server, ApiResult, send_result}
use sentnodes_agent.Api.Paths.{ReportsOn, send_result-ReportsOn}
use sentnodes_agent.Base.Got.{Got, got}
use sentnodes_agent.Base.Text.{Text}
use sentnodes_agent.Bech32.Regroup.{IsByte}
use sentnodes_agent.Docker.Stats.{Quotients}
use sentnodes_agent.Exec.Withdraw.Texts.{withdraw_error_text}
use sentnodes_agent.Float.{Floats}
use sentnodes_agent.Runner.Handlers.{Failure, message, withdrawal_failed}
use sentnodes_agent.Runner.Poll.{Command, Answer, Event, edited, executed, restarted, reported}

-- wire.ResultReq
pub record ResultReq (R : Type 0) : Type 0 where
  pub ok : Bool
  pub result : R

-- The text under "error" of the map of `fail`.
unfoldable pub failure_text :
    (fl : Floats) → Quotients fl → (format_float : fl.Float → Text) → Failure → Text
unfolding withdraw_error_text
failure_text fl q format_float (message e) = e
failure_text fl q format_float (withdrawal_failed e) = withdraw_error_text fl q format_float e

abbrev pub req_of : {R : Type 0} → Answer R → ResultReq R
req_of (ok, r) = record { ok = ok; result = r }

module _ {P R : Type 0} (server : Server) (base token : Text)
    (marshal : ResultReq R → Got Text) where
  -- `finish`: its call of the server, whose error is only logged.
  unfoldable pub finish : Command P → Answer R → ApiResult (Unit {0})
  unfolding send_result
  finish c a = send_result server base token c.id (marshal (req_of a))

  -- The calls of `finish` of a poll, in order.
  unfoldable pub finish_all : List (Event P R) → List (ApiResult (Unit {0}))
  unfolding finish
  finish_all [] = []
  finish_all (reported c a ∷ es) = finish c a ∷ finish_all es
  finish_all (edited c ∷ es) = finish_all es
  finish_all (executed c ∷ es) = finish_all es
  finish_all (restarted ∷ es) = finish_all es

  -- For a command whose id is bytes and an answer that encodes to `body`, `finish` sends one
  -- request, with that body, to the path of that command: the id is one segment of the path,
  -- without a slash, a question mark or a number sign, and reading the segment back gives the id.
  pub finish-ReportsOn :
      (c : Command P) (a : Answer R) (body : Text)
      → All IsByte c.id
      → marshal (req_of a) ≡ got body
      → ReportsOn server base token c.id body (finish c a)
  unfolding finish
  finish-ReportsOn c a body h e = rw e (send_result-ReportsOn server base token c.id body h)
