-- ===== src/Docker/State.antt =====
-- `Inspect` of internal/dockerx/dockerx.go.
use sentnodes_agent.Base.{Option, none, some, []}
use sentnodes_agent.Base.Int.{ℤ, pos}
use sentnodes_agent.Base.Text.{Text, codes, trim_prefix, has_prefix}
use sentnodes_agent.Docker.{
  Container, ContainerState, Engine, Called, answered, refused, panics, inspect_container,
}

-- State
pub record DockerState : Type 0 where
  pub id : Text
  pub name : Text
  pub status : Text
  pub health : Text
  pub exit_code : ℤ
  pub started_at : Text
  pub restart_count : ℤ

abbrev health_of : Option Text → Text
health_of (some h) = h
health_of none = []

abbrev pub state_of_container : Container → Option ContainerState → DockerState
state_of_container c none = record {
  id = c.id;
  name = trim_prefix c.name (codes "/");
  status = [];
  health = [];
  exit_code = pos 0;
  started_at = [];
  restart_count = c.restart_count;
}
state_of_container c (some st) = record {
  id = c.id;
  name = trim_prefix c.name (codes "/");
  restart_count = c.restart_count;
  status = st.status;
  health = health_of st.health;
  exit_code = st.exit_code;
  started_at = st.started_at;
}

abbrev pub state_of_called : Called Container → Called DockerState
state_of_called (answered c) = answered (state_of_container c c.state)
state_of_called (refused e) = refused e
state_of_called panics = panics

-- `Inspect`
unfoldable pub inspect : Engine → (id : Text) → Called DockerState
unfolding inspect_container has_prefix
inspect engine id = state_of_called (inspect_container engine id)
