-- ===== src/Chain/Client/Failover.antt =====
-- Which endpoint answers a call.
use sentnodes_agent.Base.{
  ℕ, suc, ◌+◌, List, [], ◌∷◌, ◌++◌, length, ◌≡◌, refl, ap, arith, ◌⊎◌, inl, inr,
}
use mathlib.Core.Path.{subst}
use sentnodes_agent.Base.Text.{Text}
use sentnodes_agent.Chain.Client.{
  Web, RpcError, no_endpoints, Reply, reply, refused, panics, try_endpoint, try_endpoints, call,
}

module _ (web : Web) (query : Text) where
  -- Every endpoint refuses, the first of them at the n-th request.
  abbrev pub AllRefuse : ℕ → List Text → Type 0
  AllRefuse n [] = Unit
  AllRefuse n (ep ∷ eps) =
      ((e : RpcError) × (try_endpoint web n query ep ≡ refused e)) × AllRefuse (suc n) eps

  -- `ep` stands in the list with request `m`, and every endpoint before it refuses.
  pub record Reaches (n : ℕ) (eps : List Text) (m : ℕ) (ep : Text) (after : List Text)
      : Type 0 where
    pub before : List Text
    pub split_at : eps ≡ before ++ ep ∷ after
    pub turn : m ≡ n + length before
    pub refuse : AllRefuse n before

  -- How a call on the endpoints ends, from the n-th request on.
  pub data Ends (n : ℕ) (last : RpcError) (eps : List Text) : Reply Text → Type 0 where
    answers :
        (m : ℕ) (ep : Text) (after : List Text) (r : Text)
        → Reaches n eps m ep after
        → try_endpoint web m query ep ≡ reply r
        → Ends n last eps (reply r)
    crashes :
        (m : ℕ) (ep : Text) (after : List Text)
        → Reaches n eps m ep after
        → try_endpoint web m query ep ≡ panics
        → Ends n last eps panics
    gives_up :
        (m : ℕ) (ep : Text) (e : RpcError)
        → Reaches n eps m ep []
        → try_endpoint web m query ep ≡ refused e
        → Ends n last eps (refused e)
    unasked : eps ≡ [] → Ends n last eps (refused last)

  at_front : (n : ℕ) (ep : Text) (eps : List Text) → Reaches n (ep ∷ eps) n ep eps
  at_front n ep eps = record { before = []; split_at = refl; turn = omega arith; refuse = tt }

  one_more :
      (n m : ℕ) (ep x : Text) (eps after : List Text) (e : RpcError)
      → try_endpoint web n query x ≡ refused e
      → Reaches (suc n) eps m ep after
      → Reaches n (x ∷ eps) m ep after
  one_more n m ep x eps after e h r = record {
    before = x ∷ r.before;
    split_at = ap (x ∷◌) r.split_at;
    turn = omega (arith, r.turn);
    refuse = ((e, h), r.refuse);
  }

  past :
      (n : ℕ) (last e : RpcError) (x : Text) (eps : List Text) {r : Reply Text}
      → try_endpoint web n query x ≡ refused e
      → Ends (suc n) e eps r
      → Ends n last (x ∷ eps) r
  past n last e x eps h (answers m ep after r at good) =
      answers m ep after r (one_more n m ep x eps after e h at) good
  past n last e x eps h (crashes m ep after at bad) =
      crashes m ep after (one_more n m ep x eps after e h at) bad
  past n last e x eps h (gives_up m ep e' at bad) =
      gives_up m ep e' (one_more n m ep x eps [] e h at) bad
  past n last e x eps h (unasked none_left) =
      gives_up n x e (subst (λ l. Reaches n (x ∷ l) n x []) (cc) (at_front n x [])) h

  Reply-cases :
      (r : Reply Text)
      → ((t : Text) × (r ≡ reply t)) ⊎ (((e : RpcError) × (r ≡ refused e)) ⊎ (r ≡ panics))
  Reply-cases (reply t) = inl (t, refl)
  Reply-cases (refused e) = inr (inl (e, refl))
  Reply-cases panics = inr (inr refl)

  try_endpoints-Ends :
      (n : ℕ) (last : RpcError) (eps : List Text)
      → Ends n last eps (try_endpoints web n query last eps)
  unfolding try_endpoints
  try_endpoints-Ends n last [] = unasked refl
  try_endpoints-Ends n last (ep ∷ eps) = elim (Reply-cases (try_endpoint web n query ep)) [
    | inl (t, h) ↦ rw (h, try_endpoints) (answers n ep eps t (at_front n ep eps) h)
    | inr (inl (e, h)) ↦
        rw (h, try_endpoints) (past n last e ep eps h (try_endpoints-Ends (suc n) e eps))
    | inr (inr h) ↦ rw (h, try_endpoints) (crashes n ep eps (at_front n ep eps) h)
  ]

  -- A call has the result of the first endpoint that does not refuse, asked after every endpoint
  -- before it; when all refuse it has the error of the last one, and without endpoints the error
  -- that says so.
  pub call-Ends : (eps : List Text) → Ends 0 no_endpoints eps (call web eps query)
  unfolding call
  call-Ends eps = try_endpoints-Ends 0 no_endpoints eps
