-- ===== src/Api.antt =====
-- internal/api/client.go with the shapes of internal/wire/wire.go: the requests of the agent and
-- what it makes of their answers. HTTP and JSON are arguments.
pub mod Auth
pub mod Paths
pub mod Accepted
use sentnodes_agent.Base.{
  ℕ, ◌^◌, Bool, true, false, not, Option, none, some, List, [], ◌∷◌, ◌++◌, ◌==◌, if◌then◌else◌,
  take,
}
use sentnodes_agent.Base.Escape.{query_escape, path_escape}
use sentnodes_agent.Base.Got.{Got, got, failed}
use sentnodes_agent.Base.Int.{ℤ, pos}
use sentnodes_agent.Base.Text.{Text, codes, is_empty}

-- wire.Envelope; the code of an error is what fmt.Sprint prints of it, and `bytes` is the JSON of
-- the data, empty where there is none.
pub record Envelope : Type 0 where
  pub success : Bool
  pub bytes : Text
  pub errors : Option (Text × Text)

-- The request that goes out, with the headers that the client sets.
pub record Request : Type 0 where
  pub method : Text
  pub url : Text
  pub headers : List (Text × Text)
  pub body : Option Text

-- What the client asks of other code: the error of http.NewRequest for a URL, the status and the body
-- that a request gets, and encoding/json.
pub record Server : Type 0 where
  pub new_request : Text → Option Text
  pub send : Request → Got (ℕ × Text)
  pub envelope : Text → Got Envelope

-- `APIError`, the error for a body that is no envelope, and every other error.
pub data ApiError : Type 0 where
  api_error : ℕ → (code message : Text) → ApiError
  bad_body : ℕ → Text → ApiError
  other_error : Text → ApiError

pub data ApiResult {ℓ} (A : Type ℓ) : Type ℓ where
  answer : A → ApiResult A
  error : ApiError → ApiResult A

abbrev auth_headers : Text → List (Text × Text)
auth_headers [] = []
auth_headers (c ∷ bearer) = (codes "Authorization", codes "Bearer " ++ c ∷ bearer) ∷ []

abbrev type_headers : Option Text → List (Text × Text)
type_headers none = []
type_headers (some body) = (codes "Content-Type", codes "application/json") ∷ []

abbrev pub request_of : (method url bearer : Text) → Option Text → Request
request_of method url bearer body = record {
  method = method;
  url = url;
  headers =
      (codes "User-Agent", codes "SENTNODES-AGENT")
      ∷ (codes "Accept", codes "application/json")
      ∷ (auth_headers bearer ++ type_headers body);
  body = body;
}

abbrev message_or : Text → Text
message_or [] = codes "request failed"
message_or (c ∷ m) = c ∷ m

-- The `APIError` of an envelope without success.
abbrev pub refusal : ℕ → Option (Text × Text) → ApiError
refusal status none = api_error status [] (codes "request failed")
refusal status (some (code, message)) = api_error status code (message_or message)

module _ {ℓ} {A : Type ℓ} where
  abbrev pub of_json : Got A → ApiResult A
  of_json (got a) = answer a
  of_json (failed e) = error (other_error e)

  -- `zero` is the value that the answer is decoded into, and `decode` is absent for a call that
  -- wants none.
  abbrev pub decoded : Option (Text → Got A) → A → Text → ApiResult A
  decoded none zero bytes = answer zero
  decoded (some decode) zero [] = answer zero
  decoded (some decode) zero (c ∷ bytes) = of_json (decode (c ∷ bytes))

  abbrev pub of_envelope : Option (Text → Got A) → A → ℕ → Text → Got Envelope → ApiResult A
  of_envelope decode zero status raw (failed e) = error (bad_body status raw)
  of_envelope decode zero status raw (got env) =
      if not env.success then error (refusal status env.errors) else decoded decode zero env.bytes

  -- json.Marshal of the body, if there is one
  abbrev pub with_body : (Option Text → ApiResult A) → Option (Got Text) → ApiResult A
  with_body go none = go none
  with_body go (some (failed e)) = error (other_error e)
  with_body go (some (got body)) = go (some body)

  module _ (server : Server) where
    abbrev pub of_sent : Option (Text → Got A) → A → Got (ℕ × Text) → ApiResult A
    of_sent decode zero (failed e) = error (other_error e)
    of_sent decode zero (got (status, body)) =
        let raw = take (2 ^ 20) body in of_envelope decode zero status raw (server.envelope raw)

    abbrev pub send_made : Request → Option (Text → Got A) → A → Option Text → ApiResult A
    send_made r decode zero (some e) = error (other_error e)
    send_made r decode zero none = of_sent decode zero (server.send r)

    -- `do`
    unfoldable pub do_request :
        (base method path bearer : Text)
        → Option (Got Text)
        → Option (Text → Got A)
        → A
        → ApiResult A
    do_request base method path bearer body decode zero =
        with_body
          (λ text.
            send_made (request_of method (base ++ path) bearer text) decode zero
              (server.new_request (base ++ path)))
          body

-- wire.RegisterReq
pub record RegisterReq : Type 0 where
  pub node_addr : Text
  pub operator_addr : Text
  pub pubkey : Text
  pub signature : Text
  pub host_id : Text
  pub node_container : Text
  pub version : Text
  pub withdraw_destination : Text
  pub withdraw_min : ℕ
  pub withdraw_reserve : ℕ

-- wire.RegisterData
pub record RegisterData : Type 0 where
  pub agent_token : Text
  pub agent_id : ℤ

-- wire.ChallengeData
pub record ChallengeData : Type 0 where
  pub nonce : Text
  pub ttl : ℤ

-- wire.PollData, with commands of a type `C`
pub record PollData (C : Type 0) : Type 0 where
  pub commands : List C
  pub latest_version : Text

-- The zero values that the answers are decoded into.
abbrev no_challenge : ChallengeData
no_challenge = record { nonce = []; ttl = pos 0 }

abbrev no_registration : RegisterData
no_registration = record { agent_token = []; agent_id = pos 0 }

abbrev no_poll : {C : Type 0} → PollData C
no_poll = record { commands = []; latest_version = [] }

-- The calls of the server at `base`; `decode` is json.Unmarshal of the data.
module _ (server : Server) (base : Text) where
  -- `Challenge`
  unfoldable pub challenge :
      (decode : Text → Got ChallengeData) (node_addr api_key : Text) → ApiResult ChallengeData
  unfolding do_request query_escape
  challenge decode node_addr api_key =
      do_request server base (codes "GET")
        (codes "/v1/agent/challenge?node_addr=" ++ query_escape node_addr) api_key none
        (some decode) no_challenge

  -- `Register`
  unfoldable pub register :
      (marshal : RegisterReq → Got Text) (decode : Text → Got RegisterData) (api_key : Text)
      → RegisterReq
      → ApiResult RegisterData
  unfolding do_request
  register marshal decode api_key req =
      do_request server base (codes "POST") (codes "/v1/agent/register") api_key
        (some (marshal req)) (some decode) no_registration

  module _ {C : Type 0} where
    abbrev polled_data : ApiResult (PollData C) → ApiResult (List C × Text)
    polled_data (answer out) = answer (out.commands, out.latest_version)
    polled_data (error e) = error e

    -- `Poll`: the commands and the latest version.
    unfoldable pub poll :
        (decode : Text → Got (PollData C)) (token : Text) → ApiResult (List C × Text)
    unfolding do_request
    poll decode token = polled_data (
        do_request server base (codes "GET") (codes "/v1/agent/commands") token none (some decode)
          no_poll)

  -- A call that wants no answer: `Result`, `Metrics` and `Heartbeat` with their bodies in JSON.
  unfoldable pub post : (path token : Text) → Got Text → ApiResult (Unit {0})
  unfolding do_request
  post path token body = do_request server base (codes "POST") path token (some body) none tt

  unfoldable pub send_result : (token id : Text) → Got Text → ApiResult (Unit {0})
  unfolding post path_escape
  send_result token id =
      post (codes "/v1/agent/commands/" ++ (path_escape id ++ codes "/result")) token

  unfoldable pub send_metrics : (token : Text) → Got Text → ApiResult (Unit {0})
  unfolding post
  send_metrics = post (codes "/v1/agent/metrics")

  unfoldable pub send_heartbeat : (token : Text) → Got Text → ApiResult (Unit {0})
  unfolding post
  send_heartbeat = post (codes "/v1/agent/heartbeat")

-- `isAuthErr` of internal/runner/runner.go
abbrev pub is_auth_err : ApiError → Bool
is_auth_err (api_error status code message) = status == 401
is_auth_err _ = false

-- The error of a call is one of a rejected token.
abbrev pub is_rejected {ℓ} : {A : Type ℓ} → ApiResult A → Bool
is_rejected (answer a) = false
is_rejected (error e) = is_auth_err e
