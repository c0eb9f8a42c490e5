-- ===== src/Runner/Enroll.antt =====
-- `enroll`, `ensureEnrolled`, `reenroll` and `refreshIdentity` of internal/runner/runner.go. What the
-- keyring, the server and the file system do in an attempt is an argument.
pub mod Resume
pub mod Eventually
pub mod Fresh
pub mod Wired
use sentnodes_agent.Base.{Bool, true, false, Option, none, some, List, [], ◌∷◌, ◌++◌, if◌then◌else◌}
use sentnodes_agent.Api.{ApiError, ApiResult, answer, error, RegisterReq}
use sentnodes_agent.Base.Escape.{hex_encode}
use sentnodes_agent.Base.Got.{Got, got, failed}
use sentnodes_agent.Base.Text.{Text, equal, is_empty}
use sentnodes_agent.Config.{Config}
use sentnodes_agent.Keys.{Identity, Account, sign_hex}
use sentnodes_agent.Runner.State.{read_state, write_state}

-- What a write of the state file does: when it fails, it returns an error and leaves some file.
pub data Writing : Type 0 where
  write_works : Writing
  write_fails : (e : Text) → (left : Option Text) → Writing

-- One attempt of `enroll`: what opens of the keyring, what the server answers, and the write.
pub record Try : Type 0 where
  pub key : Got Account
  -- Challenge with the address of the node and the agent's key: the nonce
  pub challenge : (node_addr api_key : Text) → ApiResult Text
  -- Register with the agent's key: the token
  pub register : Text → RegisterReq → ApiResult Text
  pub write : Writing

-- What is fixed at the start of the runner.
pub record Settings : Type 0 where
  pub cfg : Config
  pub host_id : Text
  pub container_name : Text
  pub version : Text

-- The identity and the token of the runner, the text of the state file, and the requests for a
-- registration that went out.
pub record Agent : Type 0 where
  pub id : Identity
  pub token : Text
  pub file : Option Text
  pub asked : List RegisterReq

pub data EnrollError : Type 0 where
  no_key : Text → EnrollError
  refused : ApiError → EnrollError
  not_written : Text → EnrollError

-- `writeState`
abbrev pub write_file : Writing → Agent → (addr token : Text) → Agent × Option EnrollError
write_file write_works a addr token = (record a { file = some (write_state addr token) }, none)
write_file (write_fails e left) a addr token = (record a { file = left }, some (not_written e))

-- The request of `enroll`.
abbrev pub register_req : Settings → Account → (nonce : Text) → RegisterReq
register_req s signer nonce = record {
  node_addr = signer.node_addr;
  operator_addr = signer.operator_addr;
  pubkey = hex_encode signer.pub_compressed;
  signature = sign_hex signer nonce;
  host_id = s.host_id;
  node_container = s.container_name;
  version = s.version;
  withdraw_destination = s.cfg.withdraw_addr;
  withdraw_min = s.cfg.withdraw_min;
  withdraw_reserve = s.cfg.withdraw_reserve;
}

module _ (s : Settings) (t : Try) where
  abbrev pub after_register : Agent → Account → ApiResult Text → Agent × Option EnrollError
  after_register a signer (error e) = (a, some (refused e))
  after_register a signer (answer token) =
      write_file t.write (record a { token = token }) signer.node_addr token

  abbrev pub after_challenge : Agent → Account → ApiResult Text → Agent × Option EnrollError
  after_challenge a signer (error e) = (a, some (refused e))
  after_challenge a signer (answer nonce) =
      let req = register_req s signer nonce in
      after_register (record a { asked = a.asked ++ req ∷ [] }) signer
        (t.register s.cfg.api_key req)

  abbrev pub with_signer : Agent → Got Account → Agent × Option EnrollError
  with_signer a (failed e) = (a, some (no_key e))
  with_signer a (got signer) = after_challenge a signer (t.challenge signer.node_addr s.cfg.api_key)

  -- The part of `enroll` that registers.
  unfoldable pub register_anew : Agent → Agent × Option EnrollError
  unfolding write_state hex_encode
  register_anew a = with_signer a t.key

  abbrev pub without_error : Agent × Option EnrollError → Agent × Option EnrollError
  without_error (a, e) = (a, none)

  -- The switch of `enroll` on the address and the token of the state file.
  unfoldable pub adopt : Agent → (addr token : Text) → Agent × Option EnrollError
  unfolding register_anew write_state equal
  adopt a addr token =
      if is_empty token
      then register_anew a
      else if is_empty addr
      then without_error (write_file t.write (record a { token = token }) a.id.node_addr token)
      else if equal addr a.id.node_addr
      then (record a { token = token }, none)
      else register_anew a

  -- `enroll`
  unfoldable pub enroll : Agent → Agent × Option EnrollError
  unfolding adopt read_state
  enroll a = let (addr, token) = read_state a.file in adopt a addr token

abbrev pub or_again : (Agent → Agent × Bool) → Agent × Option EnrollError → Agent × Bool
or_again again (a, none) = (a, true)
or_again again (a, some e) = again a

-- `ensureEnrolled` on the attempts that are made until one succeeds or the context is cancelled, `t`
-- and then `ts`. The flag says that the last one has succeeded.
unfoldable pub ensure_enrolled : Settings → Try → List Try → Agent → Agent × Bool
unfolding enroll
ensure_enrolled s t [] a = or_again (λ b. (b, false)) (enroll s t a)
ensure_enrolled s t (u ∷ ts) a = or_again (λ b. ensure_enrolled s u ts b) (enroll s t a)

-- os.Remove of the state file, with its error dropped.
abbrev pub remove_state : Bool → Agent → Agent
remove_state true a = record a { file = none; token = [] }
remove_state false a = record a { token = [] }

-- `reenroll`; `removed` says whether the state file could be removed.
unfoldable pub reenroll : Settings → (removed : Bool) → Try → List Try → Agent → Agent × Bool
unfolding ensure_enrolled
reenroll s removed t ts a = ensure_enrolled s t ts (remove_state removed a)

-- `refreshIdentity`, with what opens of the keyring.
abbrev pub refresh_with :
    Settings → Got Account → (removed : Bool) → Try → List Try → Agent → Agent × Bool
refresh_with s (failed e) removed t ts a = (a, true)
refresh_with s (got signer) removed t ts a =
    if equal signer.node_addr a.id.node_addr
    then (a, true)
    else reenroll s removed t ts (record a { id = signer.identity })

unfoldable pub refresh_identity :
    Settings → Got Account → (removed : Bool) → Try → List Try → Agent → Agent × Bool
unfolding reenroll equal
refresh_identity = refresh_with
