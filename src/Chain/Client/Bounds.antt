-- ===== src/Chain/Client/Bounds.antt =====
-- The number that `Balance` of internal/chain/chain.go returns is a uint64.
use sentnodes_agent.Base.{IsU64, ℕ, List, [], ◌∷◌, ◌≡◌, refl, arith}
use sentnodes_agent.Base.Text.{Text, codes}
use sentnodes_agent.Chain.Client.{
  Web, Reply, reply, refused, panics, ◌and_then◌, or_nil, inner_field, amount_value, abci_query,
  query_balance,
}
use mathlib.Core.Path.{subst}
use sentnodes_agent.Decimal.Laws.{parsed_value-IsU64}
use sentnodes_agent.Protobuf.{str}

-- A chain of calls that replies has replied at its first step.
pub and_then-reply {ℓ κ} :
    {A : Type ℓ} {B : Type κ} (m : Reply A) (f : A → Reply B) {b : B}
    → (m and_then f) ≡ reply b
    → (a : A) × (m ≡ reply a) × (f a ≡ reply b)
and_then-reply (reply a) f h = (a, refl, h)
and_then-reply (refused e) f h = absurd (ground (arith, h))
and_then-reply panics f h = absurd (ground (arith, h))

pub reply-injective {ℓ} : {A : Type ℓ} {a b : A} → reply a ≡ reply b → a ≡ b
reply-injective h = ground (arith, h)

amount_value-IsU64 : (s : Text) → IsU64 (amount_value s)
amount_value-IsU64 [] = omega arith
amount_value-IsU64 (c ∷ s) = parsed_value-IsU64 (c ∷ s)

-- Whatever the endpoints answer, a balance that `Balance` returns is a uint64.
pub query_balance-IsU64 :
    (web : Web) (eps : List Text) (addr denom : Text) {bal : ℕ}
    → query_balance web eps addr denom ≡ reply bal
    → IsU64 bal
unfolding query_balance
query_balance-IsU64 web eps addr denom {bal} h =
    let (amount, found, same) =
      and_then-reply
        (abci_query web eps (codes "/cosmos.bank.v1beta1.Query/Balance")
            (str (str [] 1 addr) 2 denom)
          and_then inner_field)
        (λ amount. reply (amount_value (or_nil amount))) h in
    subst IsU64 (reply-injective same) (amount_value-IsU64 (or_nil amount))
