-- ===== src/Docker.antt =====
-- internal/dockerx/dockerx.go: the discovery of the node's container, its state, its restart and its
-- statistics. HTTP, JSON and the host name are arguments.
pub mod Discover
pub mod State
pub mod Stats
use sentnodes_agent.Base.{
  ℕ, ◌-◌, Bool, true, false, not, ◌&&◌, ◌||◌, Option, none, some, List, [], ◌∷◌, ◌++◌, length, take,
  leb, ltb, if◌then◌else◌,
}
use sentnodes_agent.Base.Escape.{path_escape}
use sentnodes_agent.Base.Got.{Got, got, failed}
use sentnodes_agent.Base.Int.{ℤ, pos}
use sentnodes_agent.Base.Text.{
  Text, codes, equal, is_empty, has_prefix, trim_prefix, trim_space, contains,
}
use sentnodes_agent.Float.{Floats}

-- The transport of `New`: the base of its URLs, and the socket that it dials, if it dials one.
pub record Transport : Type 0 where
  pub base : Text
  pub socket : Option Text

-- `New` on the value of DOCKER_HOST; `none` is the error for another scheme.
abbrev transport_of : Text → Option Transport
transport_of host =
    if has_prefix host (codes "tcp://")
    then some
        (record { base = codes "http://" ++ trim_prefix host (codes "tcp://"); socket = none })
    else if has_prefix host (codes "unix://")
    then some (record {
      base = codes "http://docker";
      socket = some (trim_prefix host (codes "unix://"));
    })
    else none

unfoldable pub new_docker : Text → Option Transport
unfolding has_prefix
new_docker host = transport_of (if is_empty host then codes "unix:///var/run/docker.sock" else host)

-- containerJSON
pub record Mount : Type 0 where
  pub name : Text
  pub source : Text
  pub destination : Text

pub record ContainerState : Type 0 where
  pub status : Text
  pub exit_code : ℤ
  pub started_at : Text
  pub health : Option Text

pub record Container : Type 0 where
  pub id : Text
  pub name : Text
  pub state : Option ContainerState
  pub restart_count : ℤ
  pub mounts : List Mount

-- cpuStats, with the number of the entries of percpu_usage, and statsJSON, with the entry "cache".
pub record CpuStats : Type 0 where
  pub total_usage : ℕ
  pub percpu : ℕ
  pub system_usage : ℕ
  pub online_cpus : ℕ

pub record StatsJson : Type 0 where
  pub cpu : CpuStats
  pub precpu : CpuStats
  pub usage : ℕ
  pub cache : Option ℕ

-- `parses` says that a URL makes a request; then the status and the body that a request gets, and
-- encoding/json.
pub record Engine : Type 0 where
  pub base : Text
  pub parses : Text → Bool
  pub get : Text → Got (ℕ × Text)
  pub post : Text → Got (ℕ × Text)
  pub hostname : Got Text
  pub container_json : Text → Got Container
  pub ids_json : Text → Got (List Text)
  pub stats_json : Text → Got StatsJson

pub data DockerError : Type 0 where
  no_answer bad_json : Text → DockerError
  http_status : ℕ → Text → DockerError
  not_found : DockerError

-- `panics` is the panic of a client that is given the nil request of a URL that does not parse.
pub data Called {ℓ} (A : Type ℓ) : Type ℓ where
  answered : A → Called A
  refused : DockerError → Called A
  panics : Called A

abbrev error_body : Text → Text
error_body body = trim_space (take 4096 body)

module _ {ℓ} {A : Type ℓ} where
  abbrev pub of_decoded : Got A → Called A
  of_decoded (got a) = answered a
  of_decoded (failed e) = refused (bad_json e)

  abbrev pub of_status : (Text → Got A) → Got (ℕ × Text) → Called A
  of_status decode (failed e) = refused (no_answer e)
  of_status decode (got (status, body)) =
      if leb 300 status
      then refused (http_status status (error_body body))
      else of_decoded (decode body)

module _ (engine : Engine) where
  module _ {ℓ} {A : Type ℓ} where
    -- `getJSON`
    unfoldable pub get_json : (path : Text) → (Text → Got A) → Called A
    unfolding trim_space
    get_json path decode =
        if engine.parses (engine.base ++ path)
        then of_status decode (engine.get (engine.base ++ path))
        else panics

  -- `inspect`
  unfoldable pub inspect_container : (id : Text) → Called Container
  unfolding get_json path_escape
  inspect_container id =
      get_json (codes "/containers/" ++ (path_escape id ++ codes "/json")) engine.container_json

  -- The source and the name of the mount at the home of the node.
  unfoldable pub mount_at : (node_home : Text) → List Mount → Text × Text
  unfolding equal
  mount_at node_home [] = ([], [])
  mount_at node_home (m ∷ ms) =
      if equal m.destination node_home then (m.source, m.name) else mount_at node_home ms

  abbrev pub mount_of : (node_home : Text) → Called Container → Called (Text × Text)
  mount_of node_home (answered c) = answered (mount_at node_home c.mounts)
  mount_of node_home (refused e) = answered ([], [])
  mount_of node_home panics = panics

  -- `selfMount`
  abbrev pub self_mount_on : (node_home : Text) → Got Text → Called (Text × Text)
  self_mount_on node_home (failed e) = answered ([], [])
  self_mount_on node_home (got self) = mount_of node_home (inspect_container self)

  unfoldable pub self_mount : (node_home : Text) → Called (Text × Text)
  unfolding inspect_container mount_at
  self_mount node_home = self_mount_on node_home engine.hostname

  abbrev pub is_node_mount : (source name : Text) → Mount → Bool
  is_node_mount source name m =
      (not (is_empty source)
        && (equal m.source source || (not (is_empty name) && equal m.name name)))
      || contains m.destination (codes ".sentinel")

  -- Some mount of the container is that of the node.
  unfoldable pub has_node_mount : (source name : Text) → List Mount → Bool
  unfolding equal contains
  has_node_mount source name [] = false
  has_node_mount source name (m ∷ ms) = is_node_mount source name m || has_node_mount source name ms

  abbrev pub id_and_name : Container → Text × Text
  id_and_name c = (c.id, trim_prefix c.name (codes "/"))

  abbrev pub take_or :
      (source name : Text) → Called Container → Called (Text × Text) → Called (Text × Text)
  take_or source name (answered c) rest =
      if has_node_mount source name c.mounts then answered (id_and_name c) else rest
  take_or source name (refused e) rest = rest
  take_or source name panics rest = panics

  -- The loop of `Discover` over the ids of the containers.
  unfoldable pub find_container : (self source name : Text) → List Text → Called (Text × Text)
  unfolding inspect_container has_node_mount has_prefix
  find_container self source name [] = refused not_found
  find_container self source name (id ∷ ids) =
      let rest = find_container self source name ids in
      if has_prefix id self then rest else take_or source name (inspect_container id) rest

  abbrev pub preferred : Called Container → Called (Text × Text)
  preferred (answered c) = answered (id_and_name c)
  preferred (refused e) = refused e
  preferred panics = panics

  -- `self, _ := os.Hostname()`
  abbrev pub host_or_empty : Got Text → Text
  host_or_empty (got self) = self
  host_or_empty (failed e) = []

  abbrev pub with_list : Text × Text → Called (List Text) → Called (Text × Text)
  with_list (source, name) (answered ids) =
      find_container (host_or_empty engine.hostname) source name ids
  with_list mount (refused e) = refused e
  with_list mount panics = panics

  abbrev pub with_mount : Called (Text × Text) → Called (Text × Text)
  with_mount (answered mount) =
      with_list mount (get_json (codes "/containers/json?all=1") engine.ids_json)
  with_mount (refused e) = refused e
  with_mount panics = panics

  -- `Discover`
  unfoldable pub discover : (node_home prefer_name : Text) → Called (Text × Text)
  unfolding get_json self_mount inspect_container find_container
  discover node_home prefer_name =
      if is_empty prefer_name
      then with_mount (self_mount node_home)
      else preferred (inspect_container prefer_name)

  abbrev pub of_post : Got (ℕ × Text) → Called (Unit {0})
  of_post (failed e) = refused (no_answer e)
  of_post (got (status, body)) =
      if leb 300 status then refused (http_status status (error_body body)) else answered tt

  abbrev restart_url : Text → Text
  restart_url id = engine.base ++ (codes "/containers/" ++ (path_escape id ++ codes "/restart"))

  -- `Restart`
  unfoldable pub restart_container : (id : Text) → Called (Unit {0})
  unfolding path_escape trim_space
  restart_container id =
      if engine.parses (restart_url id) then of_post (engine.post (restart_url id)) else panics
