-- ===== src/Exec/Withdraw/Guard.antt =====
-- The amount checks on uint64s: what they let through leaves the reserve, wrap-around or not.
use sentnodes_agent.Base.{
  IsU64, ℕ, ◌+◌, ◌≤◌, ◌<◌, Bool, true, false, arith, ◌≡◌, ◌↔◌, leb, if◌then◌else◌, Bool-cases, inl,
  inr, sym, ap, ◌∙◌,
}
use mathlib.Core.Path.{subst}
use sentnodes_agent.Exec.Withdraw.{send_amount, check_amount, settle_amount, sub64, add64}

-- The amount is positive, at least the minimum, and leaves the reserve when the fee is paid too.
pub record IsCovered (amount bal fee min reserve : ℕ) : Type 0 where
  pub positive : 0 < amount
  pub minimum : min ≤ amount
  pub leaves : amount + fee + reserve ≤ bal

module _ (amount bal fee min reserve : ℕ) (a : IsU64 amount) (b : IsU64 bal) (f : IsU64 fee)
    (r : IsU64 reserve) where
  -- On uint64s, whatever the minimum, the checks pass an amount exactly when it is covered.
  pub check_amount_iff :
      (check_amount amount bal fee min reserve ≡ send_amount amount)
      ↔ IsCovered amount bal fee min reserve
  unfolding check_amount
  check_amount_iff = (λ h. ground arith, λ c. ground arith)

  check_amount-same : (x : ℕ) → check_amount amount bal fee min reserve ≡ send_amount x → x ≡ amount
  unfolding check_amount
  check_amount-same x h = ground arith

  check_amount-IsCovered :
      (x : ℕ)
      → check_amount amount bal fee min reserve ≡ send_amount x
      → (x ≡ amount) × IsCovered x bal fee min reserve
  check_amount-IsCovered x h =
      let same = check_amount-same x h in
      (
        same,
        subst (λ y. IsCovered y bal fee min reserve) (sym same)
            (check_amount_iff.0 (h ∙ ap send_amount same)),
      )

module _ (bal fee min reserve : ℕ) (b : IsU64 bal) (f : IsU64 fee) (r : IsU64 reserve) where
  -- On uint64s: without `all`, the amount that passes is the one asked for; with it, the amount
  -- leaves exactly the reserve. It is covered in both cases.
  pub settle_amount-IsCovered :
      (all : Bool) (amount x : ℕ)
      → IsU64 amount
      → settle_amount all amount bal fee min reserve ≡ send_amount x
      → (if all then x + fee + reserve ≡ bal else x ≡ amount) × IsCovered x bal fee min reserve
  unfolding settle_amount
  settle_amount-IsCovered false amount x a h =
      check_amount-IsCovered amount bal fee min reserve a b f r x h
  settle_amount-IsCovered true amount x a h = elim (Bool-cases (leb bal (add64 reserve fee))) [
    | inl low ↦ absurd (ground arith)
    | inr high ↦
        let y : ℕ = sub64 (sub64 bal fee) reserve in
        let (same, c) =
          check_amount-IsCovered y bal fee min reserve (omega arith) b f r x (rw high at h) in
        (omega (arith, same, c.leaves), c)
  ]

  -- And an amount that is so chosen and covered passes.
  pub IsCovered-settle_amount :
      (all : Bool) (amount x : ℕ)
      → IsU64 amount
      → (if all then x + fee + reserve ≡ bal else x ≡ amount)
      → IsCovered x bal fee min reserve
      → settle_amount all amount bal fee min reserve ≡ send_amount x
  unfolding settle_amount
  IsCovered-settle_amount false amount x a same c =
      subst (λ y. check_amount y bal fee min reserve ≡ send_amount x) same
        ((check_amount_iff x bal fee min reserve (subst IsU64 (sym same) a) b f r).1 c)
  IsCovered-settle_amount true amount x a same c =
      let positive = c.positive in
      let low : leb bal (add64 reserve fee) ≡ false = ground arith in
      let rest : sub64 (sub64 bal fee) reserve ≡ x = omega arith in
      rw (low, rest) ((check_amount_iff x bal fee min reserve (omega arith) b f r).1 c)
