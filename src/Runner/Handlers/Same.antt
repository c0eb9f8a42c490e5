-- ===== src/Runner/Handlers/Same.antt =====
-- The edits and the restart of a poll leave the chain and the log of withdrawals alone.
use sentnodes_agent.Base.{
  true, false, Option, none, some, List, [], ◌∷◌, ◌≡◌, refl, Bool-cases, inl, inr, arith,
}
use sentnodes_agent.Base.Text.{Text, codes, equal, is_empty}
use sentnodes_agent.Exec.Edit.{Files, edit_prices}
use sentnodes_agent.Float.{Floats}
use sentnodes_agent.Runner.Handlers.{
  Json, Payload, payload_at, as_string, ResultMap, Node, Surroundings, after_files, update_oracle,
  after_prices, update_prices, update_rpc, apply_config, after_docker, restart_node,
}
use sentnodes_agent.Runner.Poll.{Command, Answer}

module _ (fl : Floats) (env : Surroundings fl) where
  -- The edits of the configuration and the restart change only what they are for.
  abbrev pub Same : Node → Node → Type 0
  Same w v = (v.sent ≡ w.sent) × (v.log ≡ w.log)

  after_files-Same : (w : Node) (r : Files × Option Text) → Same w (after_files fl env w r).0
  after_files-Same w (f, none) = (refl, refl)
  after_files-Same w (f, some e) = (refl, refl)

  update_oracle-Same : (w : Node) (o : Option (Json fl.Float)) → Same w (update_oracle fl env w o).0
  unfolding update_oracle
  update_oracle-Same w none = (refl, refl)
  update_oracle-Same w (some v) = after_files-Same w _

  after_prices-Same :
      (w : Node) (o : Option (Json fl.Float)) (r : Node × Answer ResultMap)
      → Same w r.0
      → Same w (after_prices fl env o r).0
  after_prices-Same w o (v, (false, r)) s = s
  after_prices-Same w o (v, (true, r)) s =
      let t = update_oracle-Same v o in ground (arith, t.0, t.1, s.0, s.1)

  update_rpc-Same : (w : Node) (addrs : List Text) → Same w (update_rpc fl env addrs w).0
  unfolding update_rpc
  update_rpc-Same w [] = (refl, refl)
  update_rpc-Same w (a ∷ addrs) = after_files-Same w _

  update_prices-Same : (w : Node) (p : Payload fl.Float) → Same w (update_prices fl env p w).0
  unfolding update_prices
  update_prices-Same w p =
      let r =
        edit_prices env.lib (env.faults w.calls) w.files
          (as_string (payload_at p (codes "gigabytePrices")))
          (as_string (payload_at p (codes "hourlyPrices"))) in
      after_prices-Same w (payload_at p (codes "oracle")) (after_files fl env w r)
        (after_files-Same w r)

  pub apply_config-Same :
      (c : Command (Payload fl.Float)) (w : Node) → Same w (apply_config fl env c w).0
  unfolding apply_config
  apply_config-Same c w = elim (Bool-cases (equal c.type (codes "price_update"))) [
    | inl a ↦ rw a (update_prices-Same w c.payload)
    | inr a ↦ elim (Bool-cases (equal c.type (codes "rpc_update"))) [
      | inl b ↦ rw (a, b) (update_rpc-Same w _)
      | inr b ↦ elim (Bool-cases (equal c.type (codes "moniker_update"))) [
        | inl d ↦ rw (a, b, d) (after_files-Same w _)
        | inr d ↦ rw (a, b, d) (refl, refl)
      ]
    ]
  ]

  after_docker-Same : (w : Node) (e : Option Text) → Same w (after_docker fl env w e).0
  after_docker-Same w none = (refl, refl)
  after_docker-Same w (some e) = (refl, refl)

  pub restart_node-Same : (w : Node) → Same w (restart_node fl env w).0
  unfolding restart_node
  restart_node-Same w = elim (Bool-cases (is_empty env.container_id)) [
    | inl y ↦ rw y (refl, refl)
    | inr n ↦ rw n (after_docker-Same w _)
  ]
