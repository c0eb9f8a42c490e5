-- ===== src/Runner/State.antt =====
-- `readState` and `writeState` of internal/runner/runner.go, on the text of the file.
use sentnodes_agent.Base.{Option, none, some, List, [], ◌∷◌, ◌++◌, All, ◌≡◌, ap, length, ◌≤◌}
use sentnodes_agent.Base.Text.{Text, fields}
use sentnodes_agent.Base.Text.Laws.{IsGraphic, fields-two}

abbrev pub state_of : List Text → Text × Text
state_of (token ∷ []) = ([], token)
state_of (addr ∷ token ∷ []) = (addr, token)
state_of _ = ([], [])

-- The address and the token; `none` is a file that cannot be read.
unfoldable pub read_state : Option Text → Text × Text
unfolding fields
read_state none = ([], [])
read_state (some text) = state_of (fields text)

-- The text that `writeState` writes.
unfoldable pub write_state : Text → Text → Text
write_state addr token = addr ++ b' ' ∷ token

-- What was enrolled last is read back, when address and token are visible text that is not empty.
pub read_state-write_state :
    (addr token : Text)
    → All IsGraphic addr
    → All IsGraphic token
    → 1 ≤ length addr
    → 1 ≤ length token
    → read_state (some (write_state addr token)) ≡ (addr, token)
unfolding read_state write_state
read_state-write_state addr token a t la lt = ap state_of (fields-two addr token a t la lt)
