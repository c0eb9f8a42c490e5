-- ===== src/Runner/Poll.antt =====
-- `pollOnce` of internal/runner/runner.go: a batch of commands costs one restart. What the
-- commands do to the node is the interface `Handlers`, which `applyConfig`, `execute` and
-- `restartNode` fill.
pub mod Reports
pub mod Order
pub mod Keeps
use sentnodes_agent.Base.{
  Bool, true, false, not, ◌&&◌, ◌||◌, List, [], ◌∷◌, ◌++◌, map, if◌then◌else◌,
}
use sentnodes_agent.Base.Text.{Text, codes, equal, is_empty}

-- wire.Command, with the payload of a type `P`
pub record Command (P : Type 0) : Type 0 where
  pub id : Text
  pub type : Text
  pub payload : P

-- The result of a command: the flag and the map, of a type `R`, that go to the server.
abbrev pub Answer : Type 0 → Type 0
Answer R = Bool × R

-- What a poll does with commands, in a world of a type `W`.
pub record Handlers (P R W : Type 0) : Type 0 where
  pub apply_config : Command P → W → W × Answer R
  pub execute : Command P → W → W × Answer R
  pub restart_node : W → W × Answer R

-- What a poll has done, in order; `reported` is a call of `finish`.
pub data Event (P R : Type 0) : Type 0 where
  edited executed : Command P → Event P R
  restarted : Event P R
  reported : Command P → Answer R → Event P R

-- The switch of `pollOnce` on the type of a command.
pub data Kind : Type 0 where
  restart_kind config_kind other_kind : Kind

unfoldable pub kind_of : Text → Kind
unfolding equal
kind_of t =
    if equal t (codes "restart")
    then restart_kind
    else if equal t (codes "price_update")
        || equal t (codes "rpc_update")
        || equal t (codes "moniker_update")
    then config_kind
    else other_kind

-- The variables of the loop, with the world and the events so far.
pub record Batch (P R W : Type 0) : Type 0 where
  pub world : W
  pub events : List (Event P R)
  pub restart : Bool
  pub deferred : List (Command P)

module _ {P R W : Type 0} where
  abbrev pub defer : Command P → Batch P R W → Batch P R W
  defer c b = record b { restart = true; deferred = b.deferred ++ c ∷ [] }

  abbrev pub after_edit : Command P → Batch P R W → W × Answer R → Batch P R W
  after_edit c b (w, (true, r)) =
      defer c (record b { world = w; events = b.events ++ edited c ∷ [] })
  after_edit c b (w, (false, r)) = record b {
    world = w;
    events = b.events ++ edited c ∷ reported c (false, r) ∷ [];
  }

  abbrev pub after_run : Command P → Batch P R W → W × Answer R → Batch P R W
  after_run c b (w, a) = record b { world = w; events = b.events ++ executed c ∷ reported c a ∷ [] }

  module _ (h : Handlers P R W) where
    abbrev pub on_kind : Kind → Command P → Batch P R W → Batch P R W
    on_kind restart_kind c b = defer c b
    on_kind config_kind c b = after_edit c b (h.apply_config c b.world)
    on_kind other_kind c b = after_run c b (h.execute c b.world)

    -- The loop over the commands.
    unfoldable pub run_commands : List (Command P) → Batch P R W → Batch P R W
    unfolding kind_of
    run_commands [] b = b
    run_commands (c ∷ cmds) b = run_commands cmds (on_kind (kind_of c.type) c b)

    -- The restart behind the loop, with the results of the commands that wait for it.
    abbrev pub after_restart : Batch P R W → W × Answer R → W × List (Event P R)
    after_restart b (w, a) = (w, b.events ++ restarted ∷ map (λ c. reported c a) b.deferred)

    abbrev pub finish_batch : Batch P R W → W × List (Event P R)
    finish_batch b = elim b.restart [
      | true ↦ after_restart b (h.restart_node b.world)
      | false ↦ (b.world, b.events)
    ]

    abbrev pub fresh : W → Batch P R W
    fresh w = record { world = w; events = []; restart = false; deferred = [] }

    -- `pollOnce` behind a poll that succeeds.
    unfoldable pub run_batch : List (Command P) → W → W × List (Event P R)
    unfolding run_commands
    run_batch cmds w = finish_batch (run_commands cmds (fresh w))
