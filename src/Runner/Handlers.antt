-- ===== src/Runner/Handlers.antt =====
-- `applyConfig`, `execute` and `restartNode` of internal/runner/runner.go over the commands of
-- exec: the handlers of a poll.
pub mod Same
pub mod Safe
pub mod Once
use sentnodes_agent.Base.{
  ℕ, suc, ◌+◌, Bool, true, false, not, ◌&&◌, Option, none, some, List, [], ◌∷◌, ◌++◌, ◌==◌,
  if◌then◌else◌,
}
use sentnodes_agent.Base.Text.{Text, codes, equal, is_empty, trim_space}
use sentnodes_agent.Config.{Config}
use sentnodes_agent.Exec.Edit.{
  TomlLibrary, Files, Faults, edit_prices, edit_rpc, edit_moniker, edit_oracle,
}
use sentnodes_agent.Exec.Status.{Status, status}
use sentnodes_agent.Exec.Withdraw.{WithdrawError, Answers, Outcome, withdraw}
use sentnodes_agent.Float.{Floats}
use sentnodes_agent.Keys.{Identity}
use sentnodes_agent.Protobuf.{Bytes}
use sentnodes_agent.Runner.Poll.{Command, Answer, Handlers}

-- interface{} as encoding/json fills it; `other` is null or an object.
mutual
  pub data Json (F : Type 0) : Type 0 where
    string : Text → Json F
    boolean : Bool → Json F
    number : F → Json F
    array : Jsons F → Json F
    other : Json F

  pub data Jsons (F : Type 0) : Type 0 where
    nil : Jsons F
    cons : Json F → Jsons F → Jsons F

abbrev pub Payload : Type 0 → Type 0
Payload F = List (Text × Json F)

module _ {F : Type 0} where
  -- c.Payload[key]
  unfoldable pub payload_at : Payload F → Text → Option (Json F)
  unfolding equal
  payload_at [] key = none
  payload_at ((k, v) ∷ m) key = if equal k key then some v else payload_at m key

  -- `s, _ := v.(string)`
  abbrev pub as_string : Option (Json F) → Text
  as_string (some (string s)) = s
  as_string _ = []

  -- `b, _ := v.(bool)`
  abbrev pub as_bool : Option (Json F) → Bool
  as_bool (some (boolean b)) = b
  as_bool _ = false

  abbrev pub keep_string : Json F → List Text → List Text
  keep_string (string s) rest = if is_empty (trim_space s) then rest else s ∷ rest
  keep_string _ rest = rest

  unfoldable pub strings_of : Jsons F → List Text
  unfolding trim_space
  strings_of nil = []
  strings_of (cons e es) = keep_string e (strings_of es)

  -- `toStrings`
  abbrev pub to_strings : Option (Json F) → List Text
  to_strings (some (array es)) = strings_of es
  to_strings _ = []

-- `toUint`
abbrev pub to_uint : (fl : Floats) → Option (Json fl.Float) → ℕ × Bool
to_uint fl (some (number f)) = if fl.ge_zero f then (fl.to_uint64 f, true) else (0, false)
to_uint fl _ = (0, false)

-- The text of an error, or an error of `Withdraw`.
pub data Failure : Type 0 where
  message : Text → Failure
  withdrawal_failed : WithdrawError → Failure

-- The result map that goes to the server; `no_map` is nil.
pub data ResultMap : Type 0 where
  no_map : ResultMap
  fail : Failure → ResultMap
  tx_hash : Text → ResultMap
  status_map : Status → ResultMap

-- What the commands change: the files beside config.toml, the log of withdrawals, what went to the
-- chain, and how often the container was restarted. `calls` counts the calls that the world answers.
pub record Node : Type 0 where
  pub files : Files
  pub log : Option Text
  pub sent : List Bytes
  pub restarts : ℕ
  pub calls : ℕ

-- What the runner knows, and what the world answers to its calls in turn.
pub record Surroundings (fl : Floats) : Type 0 where
  pub cfg : Config
  pub id : Identity
  pub container_id : Text
  pub lib : TomlLibrary
  pub faults : ℕ → Faults
  pub answers : ℕ → Answers
  pub restart_error : ℕ → Option Text

module _ (fl : Floats) (env : Surroundings fl) where
  abbrev pub failure : Failure → Answer ResultMap
  failure e = (false, fail e)

  abbrev pub after_files : Node → Files × Option Text → Node × Answer ResultMap
  after_files w (f, none) = (record w { files = f; calls = suc w.calls }, (true, no_map))
  after_files w (f, some e) = (record w { files = f; calls = suc w.calls }, failure (message e))

  -- The oracle is optional.
  unfoldable pub update_oracle : Node → Option (Json fl.Float) → Node × Answer ResultMap
  unfolding edit_oracle
  update_oracle w none = (w, (true, no_map))
  update_oracle w (some v) =
      after_files w (edit_oracle env.lib (env.faults w.calls) w.files (as_string (some v)))

  abbrev pub after_prices :
      Option (Json fl.Float) → Node × Answer ResultMap → Node × Answer ResultMap
  after_prices oracle (w, (false, r)) = (w, (false, r))
  after_prices oracle (w, (true, r)) = update_oracle w oracle

  unfoldable pub update_prices : Payload fl.Float → Node → Node × Answer ResultMap
  unfolding edit_prices update_oracle payload_at
  update_prices p w = after_prices (payload_at p (codes "oracle")) (
      after_files w (
        edit_prices env.lib (env.faults w.calls) w.files
          (as_string (payload_at p (codes "gigabytePrices")))
          (as_string (payload_at p (codes "hourlyPrices")))))

  unfoldable pub update_rpc : List Text → Node → Node × Answer ResultMap
  unfolding edit_rpc
  update_rpc [] w = (w, failure (message (codes "no rpc addresses provided")))
  update_rpc (a ∷ addrs) w =
      after_files w (edit_rpc env.lib (env.faults w.calls) w.files (a ∷ addrs))

  -- `applyConfig`
  unfoldable pub apply_config : Command (Payload fl.Float) → Node → Node × Answer ResultMap
  unfolding update_prices update_rpc edit_moniker payload_at strings_of equal
  apply_config c w =
      if equal c.type (codes "price_update")
      then update_prices c.payload w
      else if equal c.type (codes "rpc_update")
      then update_rpc (to_strings (payload_at c.payload (codes "addrs"))) w
      else if equal c.type (codes "moniker_update")
      then after_files w (
          edit_moniker env.lib (env.faults w.calls) w.files
            (as_string (payload_at c.payload (codes "moniker"))))
      else (w, failure (message (codes "unknown config command: " ++ c.type)))

  abbrev pub withdraw_answer : Text → Option WithdrawError → Answer ResultMap
  withdraw_answer h none = (true, tx_hash h)
  withdraw_answer h (some e) = failure (withdrawal_failed e)

  abbrev pub after_withdraw : Node → Outcome → Node × Answer ResultMap
  after_withdraw w o = (
    record w { log = o.log; sent = w.sent ++ o.sent; calls = suc w.calls },
    withdraw_answer o.hash o.error,
  )

  unfoldable pub run_withdraw : Text → Bool → ℕ → Node → Node × Answer ResultMap
  unfolding withdraw
  run_withdraw key all amount w =
      if not all && amount == 0
      then (w, failure (message (codes "invalid withdrawal amount")))
      else after_withdraw w (withdraw fl env.cfg (env.answers w.calls) amount all key w.log)

  -- `execute`
  unfoldable pub execute : Command (Payload fl.Float) → Node → Node × Answer ResultMap
  unfolding run_withdraw payload_at equal
  execute c w =
      if equal c.type (codes "status")
      then (w, (true, status_map (status env.cfg env.id)))
      else if equal c.type (codes "withdraw")
      then run_withdraw c.id (as_bool (payload_at c.payload (codes "all")))
          (to_uint fl (payload_at c.payload (codes "amount"))).0 w
      else (w, failure (message (codes "unknown command type: " ++ c.type)))

  abbrev pub after_docker : Node → Option Text → Node × Answer ResultMap
  after_docker w none =
      (record w { restarts = suc w.restarts; calls = suc w.calls }, (true, no_map))
  after_docker w (some e) = (record w { calls = suc w.calls }, failure (message e))

  -- `restartNode`
  unfoldable pub restart_node : Node → Node × Answer ResultMap
  restart_node w =
      if is_empty env.container_id
      then (w, failure (message (codes "node container not found")))
      else after_docker w (env.restart_error w.calls)

  abbrev pub handlers : Handlers (Payload fl.Float) ResultMap Node
  handlers = record { apply_config = apply_config; execute = execute; restart_node = restart_node }
