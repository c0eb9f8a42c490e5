-- ===== src/Check.antt =====
-- internal/check/check.go: the signals of the agent's self-check.
use sentnodes_agent.Base.{Bool, List, [], ◌∷◌}
use sentnodes_agent.Base.Text.{Text, codes}

pub record Signals : Type 0 where
  pub volume : Bool
  pub config : Bool
  pub keyring : Bool
  pub backend : Bool
  pub container : Bool
  pub server : Bool

-- `Map`, as an association list.
abbrev pub signals_map : Signals → List (Text × Bool)
signals_map s =
    (codes "volume", s.volume)
    ∷ (codes "config", s.config)
    ∷ (codes "keyring", s.keyring)
    ∷ (codes "backend", s.backend)
    ∷ (codes "container", s.container)
    ∷ (codes "server", s.server)
    ∷ []
