-- ===== src/Config/Limits.antt =====
-- What `Load` guarantees of the configuration that it returns.
use sentnodes_agent.Base.{IsU64, ℕ, ◌&&◌, ◌<◌, ◌≡◌, sym, arith, false, Bool-cases, inl, inr}
use mathlib.Core.Path.{subst}
use sentnodes_agent.Base.Text.{Text, codes, is_empty}
use sentnodes_agent.Float.{Floats}
use sentnodes_agent.Config.{
  Config, ReadFile, content, not_exist, read_error, loaded, Outside, from_env, with_toml, with_file,
  load, config_path, env_p2p_udvpn, default_withdraw_reserve_udvpn,
}

module _ (fl : Floats) (out : Outside) where
  with_file-gas :
      (r : ReadFile) {c : Config}
      → with_file out (from_env fl out) r ≡ loaded c
      → (0 < c.gas)
        × (c.api_key ≡ out.getenv (codes "SENTNODES_AGENT_KEY"))
        × (c.withdraw_addr ≡ out.getenv (codes "WITHDRAWAL_ADDRESS"))
  unfolding from_env with_toml
  with_file-gas (content text) h = ground arith
  with_file-gas not_exist h = cc
  with_file-gas (read_error e) h = cc

  -- A configuration that loads has an agent key and some gas, and its withdrawal address is that of
  -- the environment, whatever the file says.
  pub load_checked :
      {c : Config}
      → load fl out ≡ loaded c
      → (0 < c.gas)
        × (is_empty c.api_key ≡ false)
        × (c.withdraw_addr ≡ out.getenv (codes "WITHDRAWAL_ADDRESS"))
  unfolding load
  load_checked {c} h = elim (Bool-cases (is_empty (out.getenv (codes "SENTNODES_AGENT_KEY")))) [
    | inl e ↦ absurd (ground arith)
    | inr e ↦
        let (gas, key, addr) =
          with_file-gas (out.read_file (config_path (from_env fl out))) {c = c} (ground arith) in
        (gas, rw key e, addr)
  ]

  with_file-reserve :
      (r : ReadFile) {c : Config}
      → with_file out (from_env fl out) r ≡ loaded c
      → c.withdraw_reserve
        ≡ env_p2p_udvpn fl out (codes "WITHDRAWAL_RESERVE") default_withdraw_reserve_udvpn
  unfolding from_env with_toml
  with_file-reserve (content text) h = ground arith
  with_file-reserve not_exist h = cc
  with_file-reserve (read_error e) h = cc

  -- The reserve that loads is that of the environment.
  pub load-reserve :
      {c : Config}
      → load fl out ≡ loaded c
      → c.withdraw_reserve
        ≡ env_p2p_udvpn fl out (codes "WITHDRAWAL_RESERVE") default_withdraw_reserve_udvpn
  unfolding load
  load-reserve {c} h = elim (Bool-cases (is_empty (out.getenv (codes "SENTNODES_AGENT_KEY")))) [
    | inl e ↦ absurd (ground arith)
    | inr e ↦
        with_file-reserve (out.read_file (config_path (from_env fl out))) {c = c} (ground arith)
  ]

  env_p2p_udvpn-IsU64 :
      (k : Text) (d : ℕ)
      → IsU64 d
      → ((x : fl.Float) → IsU64 (fl.to_uint64 x))
      → IsU64 (env_p2p_udvpn fl out k d)
  unfolding env_p2p_udvpn
  env_p2p_udvpn-IsU64 k d h f = elim (Bool-cases (is_empty (out.getenv k))) [
    | inl unset ↦ rw unset h
    | inr set ↦
        elim (Bool-cases
          ((fl.parse_float (out.getenv k)).1 && fl.ge_zero (fl.parse_float (out.getenv k)).0)) [
            | inl good ↦ rw (set, good) (f _)
            | inr bad ↦ rw (set, bad) h
          ]
  ]

  -- Where floats become uint64s, the reserve that loads is a uint64.
  pub load-reserve_fits :
      {c : Config}
      → load fl out ≡ loaded c
      → ((x : fl.Float) → IsU64 (fl.to_uint64 x))
      → IsU64 c.withdraw_reserve
  load-reserve_fits h f = subst IsU64 (sym (load-reserve h)) (
      env_p2p_udvpn-IsU64 (codes "WITHDRAWAL_RESERVE") default_withdraw_reserve_udvpn (omega arith)
        f)
