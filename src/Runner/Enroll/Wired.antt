-- ===== src/Runner/Enroll/Wired.antt =====
-- `openSigner` and `enroll` of internal/runner/runner.go with the keyring of internal/keys/keys.go
-- and the client of internal/api/client.go in place.
use sentnodes_agent.Base.{[]}
use sentnodes_agent.Api.{
  Server, ApiResult, answer, error, RegisterReq, RegisterData, ChallengeData, challenge, register,
}
use sentnodes_agent.Api.Accepted.{Accepted}
use sentnodes_agent.Base.Got.{Got, got, failed}
use sentnodes_agent.Base.Text.{Text, codes}
use sentnodes_agent.Config.{Config}
use sentnodes_agent.Keys.{Account}
use sentnodes_agent.Keys.Open.{Crypto, Opened, opened, not_opened, open_panics, open_key}
use sentnodes_agent.Keys.Texts.{open_error_text}
use sentnodes_agent.Runner.Enroll.{Writing, Try}

-- `openSigner`
unfoldable pub open_signer : Crypto → Config → Opened
unfolding open_key
open_signer crypto cfg =
    open_key crypto cfg.node_home cfg.keyring_backend cfg.from_name (codes "sent")
      (codes "sentnode")

-- The JSON of the two calls of an enrollment.
pub record Codecs : Type 0 where
  pub marshal : RegisterReq → Got Text
  pub challenge_data : Text → Got ChallengeData
  pub register_data : Text → Got RegisterData

abbrev nonce_of : ApiResult ChallengeData → ApiResult Text
nonce_of (answer ch) = answer ch.nonce
nonce_of (error e) = error e

abbrev token_of : ApiResult RegisterData → ApiResult Text
token_of (answer reg) = answer reg.agent_token
token_of (error e) = error e

-- The key of an attempt; a panic of `Open` ends the program, and no attempt.
abbrev key_of : Opened → Got Account
key_of (opened signer) = got signer
key_of (not_opened e) = failed (open_error_text e)
key_of open_panics = failed []

-- An attempt with what opens of the keyring, the client of the server, and a write.
unfoldable pub attempt_of : Server → Codecs → Config → Opened → Writing → Try
unfolding challenge register open_error_text
attempt_of server codecs cfg o write = record {
  key = key_of o;
  challenge = λ addr key. nonce_of (challenge server cfg.server_url codecs.challenge_data addr key);
  register = λ key req.
      token_of (register server cfg.server_url codecs.marshal codecs.register_data key req);
  write = write;
}
