-- ===== src/Runner/Limits.antt =====
-- The part of `Run` in internal/runner/runner.go that checks the withdrawal settings.
use sentnodes_agent.Base.{
  ℕ, ◌≤◌, Bool, true, false, [], ltb, if◌then◌else◌, ◌≡◌, ◌⊎◌, inl, inr, refl, arith, Bool-cases,
}
use sentnodes_agent.Base.Text.{Text, codes, is_empty}
use sentnodes_agent.Bech32.{is_valid}
use sentnodes_agent.Config.{Config, withdraw_floor_udvpn}

-- An invalid address disables withdrawals.
abbrev pub checked_addr : Text → Bool → Text
checked_addr addr true = addr
checked_addr addr false = []

abbrev pub at_least_floor : ℕ → ℕ
at_least_floor v = if ltb v withdraw_floor_udvpn then withdraw_floor_udvpn else v

unfoldable pub enforce_limits : Config → Config
unfolding is_valid
enforce_limits cfg = record cfg {
  withdraw_addr =
      if is_empty cfg.withdraw_addr
      then cfg.withdraw_addr
      else checked_addr cfg.withdraw_addr (is_valid cfg.withdraw_addr (codes "sent"));
  withdraw_min = at_least_floor cfg.withdraw_min;
  withdraw_reserve = at_least_floor cfg.withdraw_reserve;
}

at_least_floor-le : (v : ℕ) → (withdraw_floor_udvpn ≤ at_least_floor v) × (v ≤ at_least_floor v)
at_least_floor-le v = ground arith

checked_addr-valid :
    (addr : Text)
    → (is_empty (checked_addr addr (is_valid addr (codes "sent"))) ≡ true)
      ⊎ (is_valid (checked_addr addr (is_valid addr (codes "sent"))) (codes "sent") ≡ true)
checked_addr-valid addr = elim (Bool-cases (is_valid addr (codes "sent"))) [
  | inl good ↦ rw good (inr good)
  | inr bad ↦ rw bad (inl refl)
]

-- Past the checks both limits are at least the floor of 50 P2P and no lower than configured, and the
-- address is empty, which disables withdrawals, or valid for the prefix.
pub enforce_limits-safe :
    (cfg : Config)
    → let c = enforce_limits cfg in
      (withdraw_floor_udvpn ≤ c.withdraw_min)
      × (withdraw_floor_udvpn ≤ c.withdraw_reserve)
      × (cfg.withdraw_min ≤ c.withdraw_min)
      × (cfg.withdraw_reserve ≤ c.withdraw_reserve)
      × ((is_empty c.withdraw_addr ≡ true) ⊎ (is_valid c.withdraw_addr (codes "sent") ≡ true))
unfolding enforce_limits
enforce_limits-safe cfg =
    let (low, up) = at_least_floor-le cfg.withdraw_min in
    let (low', up') = at_least_floor-le cfg.withdraw_reserve in
    (
      low,
      low',
      up,
      up',
      elim (Bool-cases (is_empty cfg.withdraw_addr)) [
        | inl off ↦ rw off (inl off)
        | inr on ↦ rw on (checked_addr-valid cfg.withdraw_addr)
      ],
    )
