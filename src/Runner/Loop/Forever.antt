-- ===== src/Runner/Loop/Forever.antt =====
-- What holds over a whole run of the loop.
use sentnodes_agent.Base.{
  Bool, true, false, not, ◌&&◌, List, [], ◌∷◌, All, All-map, Bool-cases, inl, inr,
}
use sentnodes_agent.Api.{ApiResult, answer, error, is_auth_err}
use sentnodes_agent.Base.Text.{Text, equal, is_empty}
use sentnodes_agent.Exec.Withdraw.Paid.{Paid}
use sentnodes_agent.Float.{Floats}
use sentnodes_agent.Keys.{Identity}
use sentnodes_agent.Protobuf.{Bytes}
use sentnodes_agent.Runner.Enroll.{Settings}
use sentnodes_agent.Runner.Handlers.{Node, Surroundings, handlers}
use sentnodes_agent.Runner.Handlers.Once.{run_batch-StaysPaid}
use sentnodes_agent.Runner.Handlers.Safe.{IsPollTx, AreAllU64, run_batch-IsPollTx}
use sentnodes_agent.Runner.Loop.{
  Running, Attempts, Commands, log_latest, poll_failed, polled, poll_once, Turn, poll_turn,
  heartbeat_turn, metrics_turn, settled_turn, take_turn, take_turns, loop,
}
use sentnodes_agent.Runner.Poll.{run_batch}

module _ (fl : Floats) (env : Surroundings fl) (s : Settings) where
  -- The turns of the loop change the node by batches alone.
  module _ (I : Node → Type 0)
      (batch : (id : Identity) (cmds : Commands fl env s) (w : Node)
        → I w
        → I (run_batch (handlers fl (record env { id = id })) cmds w).0) where
    log_latest-keeps :
        (latest : Text) (r : Running) → I r.node → I (log_latest fl env s latest r).node
    log_latest-keeps latest r i =
        elim (Bool-cases (
          not (is_empty latest)
          && not (equal latest s.version)
          && not (equal latest r.logged_latest))) [ inl news ↦ rw news i | inr old ↦ rw old i ]

    poll_failed-keeps :
        (auth : Bool) (t : Attempts) (r : Running)
        → I r.node
        → I (poll_failed fl env s auth t r).node
    poll_failed-keeps true t r i = i
    poll_failed-keeps false t r i = i

    polled-keeps :
        (t : Attempts) (reply : ApiResult (Commands fl env s × Text)) (r : Running)
        → I r.node
        → I (polled fl env s t reply r).node
    polled-keeps t (error e) r i = poll_failed-keeps (is_auth_err e) t r i
    polled-keeps t (answer (cmds, latest)) r i =
        let logged = log_latest fl env s latest r in
        batch logged.agent.id cmds logged.node (log_latest-keeps latest r i)

    take_turn-keeps : (t : Turn fl env s) (r : Running) → I r.node → I (take_turn fl env s t r).node
    unfolding take_turn poll_once
    take_turn-keeps (poll_turn reply t) r i = polled-keeps t reply r i
    take_turn-keeps heartbeat_turn r i = i
    take_turn-keeps metrics_turn r i = i
    take_turn-keeps (settled_turn key t) r i = i

    take_turns-keeps :
        (ts : List (Turn fl env s)) (r : Running) → I r.node → I (take_turns fl env s ts r).node
    unfolding take_turns
    take_turns-keeps [] r i = i
    take_turns-keeps (t ∷ ts) r i =
        take_turns-keeps ts (take_turn fl env s t r) (take_turn-keeps t r i)

    loop-keeps :
        (reply : ApiResult (Commands fl env s × Text)) (t : Attempts) (ts : List (Turn fl env s))
        (r : Running)
        → I r.node
        → I (loop fl env s reply t ts r).node
    unfolding loop
    loop-keeps reply t ts r i =
        take_turns-keeps (poll_turn reply t ∷ heartbeat_turn ∷ metrics_turn ∷ ts) r i

  -- Over a whole run of the loop, whatever the server answers and commands and whatever becomes of
  -- the enrollment and the identity, a key that the log of withdrawals has paid stays paid with
  -- its hash.
  pub loop-StaysPaid :
      (reply : ApiResult (Commands fl env s × Text)) (t : Attempts) (ts : List (Turn fl env s))
      (r : Running) (key hash : Text)
      → Paid key hash r.node.log
      → Paid key hash (loop fl env s reply t ts r).node.log
  loop-StaysPaid reply t ts r key hash p =
      loop-keeps (λ w. Paid key hash w.log)
        (λ id cmds w i. run_batch-StaysPaid fl (record env { id = id }) cmds w key hash i) reply t
        ts r p

  AreAllU64-id : (id : Identity) → AreAllU64 fl env → AreAllU64 fl (record env { id = id })
  AreAllU64-id id u = record {
    bal_fits = u.bal_fits;
    fee_fits = u.fee_fits;
    reserve_fits = u.reserve_fits;
    number_fits = u.number_fits;
  }

  IsPollTx-to :
      (id : Identity) (tx : Bytes) → IsPollTx fl env tx → IsPollTx fl (record env { id = id }) tx
  IsPollTx-to id tx p = record {
    call = p.call;
    all = p.all;
    asked = p.asked;
    is_withdrawal = p.is_withdrawal;
  }

  IsPollTx-from :
      (id : Identity) (tx : Bytes) → IsPollTx fl (record env { id = id }) tx → IsPollTx fl env tx
  IsPollTx-from id tx p = record {
    call = p.call;
    all = p.all;
    asked = p.asked;
    is_withdrawal = p.is_withdrawal;
  }

  -- Over a whole run of the loop, every transaction that is broadcast is a withdrawal: to the
  -- configured address, signed with the operator key of its call, and leaving the reserve, with
  -- the fee paid, of the balance that the chain has answered. The numbers of the calls are
  -- uint64s.
  pub loop-IsPollTx :
      AreAllU64 fl env
      → (reply : ApiResult (Commands fl env s × Text)) (t : Attempts) (ts : List (Turn fl env s))
        (r : Running)
      → All (IsPollTx fl env) r.node.sent
      → All (IsPollTx fl env) (loop fl env s reply t ts r).node.sent
  loop-IsPollTx u reply t ts r p =
      loop-keeps (λ w. All (IsPollTx fl env) w.sent)
        (λ id cmds w i. All-map _ _ _ (IsPollTx-from id) (
          run_batch-IsPollTx fl (record env { id = id }) (AreAllU64-id id u) cmds w
            (All-map _ _ _ (IsPollTx-to id) i)))
        reply t ts r p
