-- ===== src/Exec/Withdraw.antt =====
-- `Withdraw` of internal/exec/exec.go, with the fee and the local log of withdrawals.
-- The keyring, the answers of the chain and the outcome of writing the log are arguments; what the
-- call broadcasts and what it leaves in the log are its results.
pub mod Guard
pub mod Safe
pub mod Log
pub mod Once
pub mod Paid
pub mod Pays
pub mod Wired
pub mod Texts
use sentnodes_agent.Base.{
  ℕ, zero, suc, ◌+◌, ◌-◌, ◌*◌, ◌%◌, ◌^◌, Bool, true, false, ◌&&◌, ◌||◌, Option, none, some, List,
  [], ◌∷◌, ◌++◌, ltb, leb, ◌==◌, if◌then◌else◌, take,
}
use sentnodes_agent.Base.Got.{Got, got, failed}
use sentnodes_agent.Base.Text.{Text, codes, equal, is_empty, split, fields}
use sentnodes_agent.Chain.{Send, build_signed_send}
use sentnodes_agent.Config.{Config}
use sentnodes_agent.Decimal.{is_digit}
use sentnodes_agent.Float.{Floats}
use sentnodes_agent.Keys.{Account}
use sentnodes_agent.Protobuf.{Bytes}

-- a - b on uint64
abbrev pub sub64 : ℕ → ℕ → ℕ
sub64 a b = (a + 2 ^ 64 - b) % 2 ^ 64

abbrev pub add64 : ℕ → ℕ → ℕ
add64 a b = (a + b) % 2 ^ 64

-- The digits and points at the front of `s`.
unfoldable pub number_prefix : Text → Text
number_prefix [] = []
number_prefix (c ∷ s) = if c == b'.' || is_digit c then c ∷ number_prefix s else []

module _ (fl : Floats) where
  open fl use {Float, parse_float, of_uint64, to_uint64, ceil, mul, le_zero, tenth}

  unfoldable pub parse_gas_price : Text → Float
  unfolding number_prefix
  parse_gas_price s = (parse_float (number_prefix s)).0

  unfoldable pub compute_fee : ℕ → Text → ℕ
  unfolding parse_gas_price
  compute_fee gas gas_prices =
      let price = parse_gas_price gas_prices in
      to_uint64 (ceil (mul (of_uint64 gas) (if le_zero price then tenth else price)))

-- The errors, with the amounts that their texts print.
pub data WithdrawError : Type 0 where
  disabled not_positive : WithdrawError
  open_key query_balance query_account : Text → WithdrawError
  nothing_to_withdraw : (bal reserve : ℕ) → WithdrawError
  below_minimum : (amount min : ℕ) → WithdrawError
  would_leave_less : (reserve amount fee bal : ℕ) → WithdrawError
  broadcast_failed : Text → WithdrawError

pub data Checked : Type 0 where
  send_amount : ℕ → Checked
  refuse : WithdrawError → Checked

-- The checks between the balance and the account, on an amount that is settled.
unfoldable pub check_amount : (amount bal fee min reserve : ℕ) → Checked
check_amount amount bal fee min reserve =
    if amount == 0
    then refuse not_positive
    else if ltb amount min
    then refuse (below_minimum amount min)
    else if ltb bal amount
        || ltb (sub64 bal amount) fee
        || ltb (sub64 (sub64 bal amount) fee) reserve
    then refuse (would_leave_less reserve amount fee bal)
    else send_amount amount

-- With `all`, the amount is everything above the reserve and the fee.
unfoldable pub settle_amount : Bool → (amount bal fee min reserve : ℕ) → Checked
unfolding check_amount
settle_amount all amount bal fee min reserve =
    if all
    then if leb bal (add64 reserve fee)
      then refuse (nothing_to_withdraw bal reserve)
      else check_amount (sub64 (sub64 bal fee) reserve) bal fee min reserve
    else check_amount amount bal fee min reserve

-- A line of the log, and what the lines behind it hold.
abbrev pub entry_or : Text → List Text → Text → Text
entry_or key (name ∷ hash ∷ more) other = if equal name key then hash else other
entry_or key (name ∷ []) other = other
entry_or key [] other = other

-- `lookupWithdraw` on the lines of the log.
unfoldable pub lookup_lines : List Text → Text → Text
unfolding equal
lookup_lines [] key = []
lookup_lines (line ∷ lines) key = entry_or key (fields line) (lookup_lines lines key)

-- `none` is a log that is not there yet.
unfoldable pub lookup_withdraw : Option Text → Text → Text
unfolding lookup_lines
lookup_withdraw none key = []
lookup_withdraw (some log) key = lookup_lines (split log b'\n') key

abbrev pub log_entry : Text → Text → Text
log_entry key hash = key ++ b' ' ∷ (hash ++ b'\n' ∷ [])

-- `recordWithdraw`: the log after a write that succeeds.
unfoldable pub record_withdraw : Option Text → Text → Text → Text
record_withdraw none key hash = log_entry key hash
record_withdraw (some log) key hash = log ++ log_entry key hash

-- What the rest of the world answers during one call.
pub record Answers : Type 0 where
  -- keys.Open
  pub key : Got Account
  -- chain.Client.Balance in udvpn, and Account: the number and the sequence
  pub balance : Got ℕ
  pub account : Got (ℕ × ℕ)
  -- chain.Client.Broadcast: the hash comes with an error too
  pub broadcast : Bytes → Text × Option Text
  -- whether `recordWithdraw` writes the log
  pub recorded : Bool

-- The result of a call, with the transactions that it broadcast and the log that it left.
pub record Outcome : Type 0 where
  pub hash : Text
  pub error : Option WithdrawError
  pub sent : List Bytes
  pub log : Option Text

abbrev pub fails : Option Text → WithdrawError → Outcome
fails log e = record { hash = []; error = some e; sent = []; log = log }

abbrev pub udvpn : Text
udvpn = codes "udvpn"

abbrev pub withdrawal_memo : Text
withdrawal_memo = codes "SentNodes Agent Withdrawal"

-- The arguments of `BuildSignedSend`; the destination is the configured one.
abbrev pub withdrawal : Config → (amount fee number sequence : ℕ) → Send
withdrawal cfg amount fee number sequence = record {
  chain_id = cfg.chain_id;
  to = cfg.withdraw_addr;
  denom = udvpn;
  amount = amount;
  fee = fee;
  gas = cfg.gas;
  account_number = number;
  sequence = sequence;
  memo = withdrawal_memo;
}

-- From the answer of the broadcast on.
unfoldable pub finish_withdraw : Answers → Option Text → Text → Bytes → Text × Option Text → Outcome
unfolding record_withdraw
finish_withdraw ans log key tx (h, some e) = record {
  hash = h;
  error = some (broadcast_failed e);
  sent = tx ∷ [];
  log = log;
}
finish_withdraw ans log key tx (h, none) = record {
  hash = h;
  error = none;
  sent = tx ∷ [];
  log = if ans.recorded then some (record_withdraw log key h) else log;
}

-- From the account on.
unfoldable pub send_withdraw :
    Config → Answers → Option Text → Text → Account → (amount fee : ℕ) → Got (ℕ × ℕ) → Outcome
unfolding finish_withdraw build_signed_send
send_withdraw cfg ans log key signer amount fee (failed e) = fails log (query_account e)
send_withdraw cfg ans log key signer amount fee (got (number, sequence)) =
    let tx = build_signed_send signer (withdrawal cfg amount fee number sequence) in
    finish_withdraw ans log key tx (ans.broadcast tx)

abbrev pub act_on : Config → Answers → Option Text → Text → Account → ℕ → Checked → Outcome
act_on cfg ans log key signer fee (refuse e) = fails log e
act_on cfg ans log key signer fee (send_amount amount) =
    send_withdraw cfg ans log key signer amount fee ans.account

-- From the balance on.
unfoldable pub check_withdraw :
    Config → Answers → Option Text → Text → Account → Bool → (amount fee : ℕ) → Got ℕ → Outcome
unfolding settle_amount send_withdraw
check_withdraw cfg ans log key signer all amount fee (failed e) = fails log (query_balance e)
check_withdraw cfg ans log key signer all amount fee (got bal) =
    act_on cfg ans log key signer fee
      (settle_amount all amount bal fee cfg.withdraw_min cfg.withdraw_reserve)

-- From the key on.
unfoldable pub open_withdraw :
    Floats → Config → Answers → Option Text → Text → Bool → ℕ → Got Account → Outcome
unfolding check_withdraw compute_fee
open_withdraw fl cfg ans log key all amount (failed e) = fails log (open_key e)
open_withdraw fl cfg ans log key all amount (got signer) =
    check_withdraw cfg ans log key signer all amount (compute_fee fl cfg.gas cfg.gas_prices)
      ans.balance

-- `Withdraw`
unfoldable pub withdraw :
    Floats → Config → Answers → (amount : ℕ) → (all : Bool) → (key : Text) → Option Text → Outcome
unfolding lookup_withdraw open_withdraw
withdraw fl cfg ans amount all key log =
    if is_empty cfg.withdraw_addr
    then fails log disabled
    else if is_empty (lookup_withdraw log key)
    then open_withdraw fl cfg ans log key all amount ans.key
    else record { hash = lookup_withdraw log key; error = none; sent = []; log = log }
