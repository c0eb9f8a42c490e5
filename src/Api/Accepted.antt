-- ===== src/Api/Accepted.antt =====
-- Requests that the server answers with data: internal/api/client.go.
use sentnodes_agent.Base.{ℕ, ◌^◌, true, false, none, some, [], ◌∷◌, ◌++◌, take, ◌≡◌, refl, arith}
use sentnodes_agent.Base.Escape.{query_escape}
use sentnodes_agent.Base.Got.{Got, got}
use sentnodes_agent.Base.Text.{Text, codes, is_empty}
use sentnodes_agent.Api.{
  Envelope, Request, Server, answer, RegisterReq, RegisterData, ChallengeData, request_of, decoded,
  send_made, do_request, challenge, register,
}

-- The server answers the request with an envelope of success whose data decode to `a`.
pub record Accepted {ℓ} {A : Type ℓ} (server : Server) (r : Request) (decode : Text → Got A) (a : A)
    : Type ℓ where
  pub status : ℕ
  pub body : Text
  pub env : Envelope
  pub made : server.new_request r.url ≡ none
  pub sent : server.send r ≡ got (status, body)
  pub parsed : server.envelope (take (2 ^ 20) body) ≡ got env
  pub succeeded : env.success ≡ true
  pub filled : is_empty env.bytes ≡ false
  pub decodes : decode env.bytes ≡ got a

module _ {ℓ} {A : Type ℓ} where
  decoded-filled :
      (decode : Text → Got A) (zero a : A) (bytes : Text)
      → is_empty bytes ≡ false
      → decode bytes ≡ got a
      → decoded (some decode) zero bytes ≡ answer a
  decoded-filled decode zero a [] f d = absurd (ground (arith, f))
  decoded-filled decode zero a (c ∷ bytes) f d = rw d refl

  send_made-Accepted :
      (server : Server) (r : Request) (decode : Text → Got A) (zero a : A)
      → Accepted server r decode a
      → send_made server r (some decode) zero (server.new_request r.url) ≡ answer a
  send_made-Accepted server r decode zero a h =
      rw (h.made, h.sent, h.parsed, h.succeeded)
        (decoded-filled decode zero a h.env.bytes h.filled h.decodes)

module _ (server : Server) (base : Text) where
  -- The two requests of an enrollment.
  abbrev pub challenge_request : (node_addr api_key : Text) → Request
  challenge_request node_addr api_key =
      request_of (codes "GET")
        (base ++ (codes "/v1/agent/challenge?node_addr=" ++ query_escape node_addr)) api_key none

  abbrev pub register_request : (api_key body : Text) → Request
  register_request api_key body =
      request_of (codes "POST") (base ++ codes "/v1/agent/register") api_key (some body)

  pub challenge-Accepted :
      (decode : Text → Got ChallengeData) (node_addr api_key : Text) (a : ChallengeData)
      → Accepted server (challenge_request node_addr api_key) decode a
      → challenge server base decode node_addr api_key ≡ answer a
  unfolding challenge do_request
  challenge-Accepted decode node_addr api_key a h =
      send_made-Accepted server (challenge_request node_addr api_key) decode _ a h

  pub register-Accepted :
      (marshal : RegisterReq → Got Text) (decode : Text → Got RegisterData) (api_key body : Text)
      (req : RegisterReq) (a : RegisterData)
      → marshal req ≡ got body
      → Accepted server (register_request api_key body) decode a
      → register server base marshal decode api_key req ≡ answer a
  unfolding register do_request
  register-Accepted marshal decode api_key body req a m h =
      rw m (send_made-Accepted server (register_request api_key body) decode _ a h)
