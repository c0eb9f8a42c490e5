-- ===== src/Runner/Watch.antt =====
-- `watchEvents` of internal/runner/runner.go with `Events` of internal/dockerx/dockerx.go: how the
-- events of the container become turns of the loop. The two channels hold one value each.
pub mod Settles
use sentnodes_agent.Base.{ℕ, suc, Bool, true, false, List, [], ◌∷◌, if◌then◌else◌}
use sentnodes_agent.Base.Text.{Text, is_empty}

-- What happens next: the stream has a message, the watch receives from the channel of the stream, the
-- stream is closed and opened again, the timer fires, the loop takes a turn.
pub data Input : Type 0 where
  message received reopened fired taken : Input

-- `queued` is the channel of the stream, `armed` the timer and `pending` the channel of the loop.
-- Behind them stand the messages and the turns so far, and whether a message has come since the
-- last turn.
pub record Watch : Type 0 where
  pub queued : Bool
  pub armed : Bool
  pub pending : Bool
  pub messages : ℕ
  pub turns : ℕ
  pub due : Bool

abbrev pub idle : Watch
idle = record {
  queued = false;
  armed = false;
  pending = false;
  messages = 0;
  turns = 0;
  due = false;
}

-- A send to a full channel is dropped, and a reset of the timer arms it; an input that cannot happen
-- changes nothing.
abbrev pub on_message : Watch → Watch
on_message w = record w { queued = true; messages = suc w.messages; due = true }

abbrev pub on_received : Bool → Watch → Watch
on_received true w = record w { queued = false; armed = true }
on_received false w = w

abbrev pub on_fired : Bool → Watch → Watch
on_fired true w = record w { armed = false; pending = true }
on_fired false w = w

abbrev pub on_taken : Bool → Watch → Watch
on_taken true w = record w { pending = false; turns = suc w.turns; due = false }
on_taken false w = w

unfoldable pub watch : Input → Watch → Watch
watch message w = on_message w
watch received w = on_received w.queued w
watch reopened w = w
watch fired w = on_fired w.armed w
watch taken w = on_taken w.pending w

-- A watch on a container; without one `watchEvents` returns at once.
unfoldable pub watch_all : List Input → Watch → Watch
unfolding watch
watch_all [] w = w
watch_all (i ∷ inputs) w = watch_all inputs (watch i w)

unfoldable pub watch_events : (container_id : Text) → List Input → Watch
unfolding watch_all
watch_events container_id inputs = if is_empty container_id then idle else watch_all inputs idle
