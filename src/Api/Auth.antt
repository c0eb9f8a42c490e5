-- ===== src/Api/Auth.antt =====
-- Which answers of the server count as a rejected token.
use sentnodes_agent.Base.{
  ℕ, ◌^◌, true, false, Option, none, some, [], ◌∷◌, ◌++◌, ◌==◌, ==_iff, take, ◌≡◌, ◌↔◌, refl, sym,
  ap, ◌∙◌, arith, Bool-cases, inl, inr,
}
use sentnodes_agent.Base.Got.{Got, got, failed}
use sentnodes_agent.Base.Text.{Text}
use sentnodes_agent.Api.{
  Envelope, Request, Server, ApiResult, request_of, refusal, of_json, decoded, of_envelope, of_sent,
  send_made, with_body, do_request, is_auth_err, is_rejected,
}

-- The server has refused a request with status 401, in an envelope.
pub record Refuses (server : Server) (r : Request) : Type 0 where
  pub raw : Text
  pub env : Envelope
  pub sent : server.send r ≡ got (401, raw)
  pub parsed : server.envelope (take (2 ^ 20) raw) ≡ got env
  pub refused : env.success ≡ false

-- The request goes out and is refused so.
abbrev pub RefusesMade : Server → Request → Option Text → Type 0
RefusesMade server r made = (made ≡ none) × Refuses server r

abbrev pub RefusesBody : (Option Text → Type 0) → Option (Got Text) → Type 0
RefusesBody P none = P none
RefusesBody P (some (got text)) = P (some text)
RefusesBody P (some (failed e)) = ⊥

refusal_lem :
    (status : ℕ) (errors : Option (Text × Text))
    → is_auth_err (refusal status errors) ≡ (status == 401)
refusal_lem status none = refl
refusal_lem status (some (code, message)) = refl

module _ {ℓ} {A : Type ℓ} (decode : Option (Text → Got A)) (zero : A) where
  is_rejected-of_json : (g : Got A) → is_rejected (of_json g) ≡ false
  is_rejected-of_json (got a) = refl
  is_rejected-of_json (failed e) = refl

  is_rejected-decoded :
      (d : Option (Text → Got A)) (bytes : Text) → is_rejected (decoded d zero bytes) ≡ false
  is_rejected-decoded none bytes = refl
  is_rejected-decoded (some d) [] = refl
  is_rejected-decoded (some d) (c ∷ bytes) = is_rejected-of_json (d (c ∷ bytes))

  of_envelope-refused :
      (status : ℕ) (raw : Text) (g : Got Envelope)
      → is_rejected (of_envelope decode zero status raw g) ≡ true
      → (env : Envelope) × (g ≡ got env) × (env.success ≡ false) × (status ≡ 401)
  of_envelope-refused status raw (failed e) h = absurd (ground (arith, h))
  of_envelope-refused status raw (got env) h = elim (Bool-cases env.success) [
    | inl fine ↦ absurd (ground (arith, is_rejected-decoded decode env.bytes, rw fine at h))
    | inr bad ↦ (
      env,
      refl,
      bad,
      (==_iff status 401).0 (sym (refusal_lem status env.errors) ∙ (rw bad at h)),
    )
  ]

  module _ (server : Server) (r : Request) where
    of_sent-refused :
        (g : Got (ℕ × Text))
        → server.send r ≡ g
        → is_rejected (of_sent server decode zero g) ≡ true
        → Refuses server r
    of_sent-refused (failed e) s h = absurd (ground (arith, h))
    of_sent-refused (got (status, raw)) s h =
        let (env, parsed, bad, code) =
          of_envelope-refused status _ (server.envelope (take (2 ^ 20) raw)) h in
        record {
          raw = raw;
          env = env;
          sent = s ∙ ap (λ (n : ℕ). got (n, raw)) code;
          parsed = parsed;
          refused = bad;
        }

    send_made-refused :
        (made : Option Text)
        → is_rejected (send_made server r decode zero made) ≡ true
        → RefusesMade server r made
    send_made-refused none h = (refl, of_sent-refused (server.send r) refl h)
    send_made-refused (some e) h = absurd (ground (arith, h))

    refused-send_made :
        (made : Option Text)
        → RefusesMade server r made
        → is_rejected (send_made server r decode zero made) ≡ true
    refused-send_made none (m, q) = rw (q.sent, q.parsed, q.refused) (refusal_lem 401 q.env.errors)
    refused-send_made (some e) (m, q) = cc

  with_body_iff :
      (f : Option Text → ApiResult A) (P : Option Text → Type 0) (body : Option (Got Text))
      → ((text : Option Text) → (is_rejected (f text) ≡ true) ↔ P text)
      → (is_rejected (with_body f body) ≡ true) ↔ RefusesBody P body
  with_body_iff f P none h = h none
  with_body_iff f P (some (got text)) h = h (some text)
  with_body_iff f P (some (failed e)) h = (λ x. ground (arith, x), λ x. absurd x)

  -- A call fails with an error that counts as a rejected token exactly when its body is encoded, its
  -- request is made and sent, and the server answers status 401 with an envelope that reports no
  -- success: a 401 with any other body does not count.
  pub do_request-Refuses :
      (server : Server) (base method path bearer : Text) (body : Option (Got Text))
      → (is_rejected (do_request server base method path bearer body decode zero) ≡ true)
        ↔ RefusesBody
            (λ text.
              RefusesMade server
                (request_of method (base ++ path) bearer text)
                (server.new_request (base ++ path)))
            body
  unfolding do_request
  do_request-Refuses server base method path bearer body =
      let made = server.new_request (base ++ path) in
      let request : Option Text → Request = request_of method (base ++ path) bearer in
      with_body_iff (λ text. send_made server (request text) decode zero made)
        (λ text. RefusesMade server (request text) made) body
        (λ text. (
          send_made-refused server (request text) made,
          refused-send_made server (request text) made,
        ))
