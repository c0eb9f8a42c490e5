-- ===== src/Examples/Commands.antt =====
-- Concrete withdrawals and configurations: internal/exec/exec.go and internal/config/config.go.
use sentnodes_agent.Base.{ℕ, ◌+◌, ◌*◌, [], ◌∷◌, none, true, arith, ◌≡◌, ◌↔◌, refl, ◌==◌}
use sentnodes_agent.Base.Got.{got}
use sentnodes_agent.Base.Text.{Text, codes}
use sentnodes_agent.Config.{
  Config, Outside, NodeToml, decoded, content, load, loaded, from_env, with_toml,
}
use sentnodes_agent.Exec.Withdraw.{Answers, check_amount, settle_amount, send_amount, compute_fee}
use sentnodes_agent.Exec.Withdraw.Guard.{IsCovered, check_amount_iff, settle_amount-IsCovered}
use sentnodes_agent.Exec.Withdraw.Safe.{AreU64}
use sentnodes_agent.Float.{Floats}

-- Numbers in units of a tenth, saturated at the uint64s.
abbrev pub tenths : Floats
tenths = record {
  Float = ℕ;
  parse_float = λ s. (0, true);
  of_uint64 = λ n. n;
  to_uint64 = λ x. x;
  ceil = λ x. x;
  mul = λ x y. x * y;
  le_zero = λ x. x == 0;
  ge_zero = λ x. true;
  tenth = 1;
}

abbrev pub node : NodeToml
node = record {
  backend = codes "test";
  name = codes "sentinel";
  addrs = codes "http://a" ∷ [];
  chain_id = codes "sentinelhub-2";
  from_name = codes "main";
  gas = 0;
  gas_prices = codes "0.1udvpn";
  moniker = codes "m";
  gigabyte_prices = [];
  hourly_prices = [];
  oracle_name = [];
}

-- Every variable of the environment is `x`.
abbrev outside : Outside
outside = record {
  getenv = λ k. codes "x";
  read_file = λ p. content (codes "t");
  unmarshal = λ t. decoded node;
}

abbrev config : Config
config = with_toml (from_env tenths outside) node

loads : load tenths outside ≡ loaded config
unfolding load
loads = refl

check_amount_iff_example :
    (check_amount 300 1000 20 250 50 ≡ send_amount 300) ↔ IsCovered 300 1000 20 250 50
check_amount_iff_example =
    check_amount_iff 300 1000 20 250 50 (omega arith) (omega arith) (omega arith) (omega arith)

settles : settle_amount true 0 1000 20 250 50 ≡ send_amount 930
unfolding settle_amount
settles = refl

settle_amount-IsCovered_example : (930 + 20 + 50 ≡ 1000) × IsCovered 930 1000 20 250 50
settle_amount-IsCovered_example =
    settle_amount-IsCovered 1000 20 250 50 (omega arith) (omega arith) (omega arith) true 0 930
      (omega arith) settles

abbrev pub answers : Answers
answers = record {
  key = got (record {
    identity = record {
      pub_compressed = 2 ∷ [];
      operator_addr = codes "sent1a";
      node_addr = codes "sentnode1a";
    };
    sign = λ msg. 1 ∷ [];
  });
  balance = got 1_000_000_000;
  account = got (5, 9);
  broadcast = λ tx. (codes "AB", none);
  recorded = true;
}

abbrev pub settings : Config
settings = record {
  server_url = [];
  api_key = codes "k";
  withdraw_addr = codes "sent1b";
  withdraw_min = 250_000_000;
  withdraw_reserve = 50_000_000;
  node_container = [];
  node_home = codes "/h";
  keyring_backend = codes "test";
  keyring_name = [];
  from_name = codes "main";
  chain_id = codes "sentinelhub-2";
  rpc_addrs = [];
  moniker = [];
  gigabyte_prices = [];
  hourly_prices = [];
  oracle = [];
  gas = 200000;
  gas_prices = codes "0.1udvpn";
}

answers-AreU64 : AreU64 tenths settings answers 300_000_000
unfolding compute_fee
answers-AreU64 = record {
  bal_fits = λ bal e. ground arith;
  fee_fits = omega arith;
  asked_fits = omega arith;
  reserve_fits = omega arith;
}

abbrev pub first_key : Text
first_key = codes "01J"
