-- ===== src/Protobuf.antt =====
-- The protobuf writer and reader at the end of internal/chain/chain.go, with `binary.Uvarint` of Go.
-- A byte slice is a list of numbers below 256, and a uint64 is a number below 2 ^ 64.
pub mod Uvarint
pub mod Message
pub mod Reader
pub mod Crash
pub mod Encodes
use sentnodes_agent.Base.{
  ℕ, zero, suc, ◌+◌, ◌-◌, ◌*◌, ◌/◌, ◌%◌, ◌^◌, ◌<◌, bit_and, bit_or, Bool, true, false, not, ◌&&◌,
  ◌||◌, arith, Option, none, some, List, [], ◌∷◌, ◌++◌, ltb, leb, ◌==◌, if◌then◌else◌, length, take,
  drop,
}
use sentnodes_agent.Base.Bits.{lt_wf}
use sentnodes_agent.Base.Text.{Text}
use mathlib.Core.Logic.{dite}
use mathlib.Core.Option
use mathlib.Core.WellFounded.{Acc}
use native.Mathlib.Decide.{dec_lt}

abbrev pub Bytes : Type 0
Bytes = List ℕ

pub shift_shrinks : (v : ℕ) → ¬ (v < 0x80) → v / 2 ^ 7 < v
shift_shrinks v h = omega arith

-- `pb.uvarint` on the buffer of the writer. `byte(v)` is `v % 256`.
unfoldable pub put_loop : Bytes → (v : ℕ) → Acc ◌<◌ v → Bytes
put_loop w v (Acc.intro _ smaller) =
    dite (dec_lt v 0x80) (λ _. w ++ v % 256 ∷ [])
      (λ big.
        put_loop (w ++ bit_or (v % 256) 0x80 ∷ []) (v / 2 ^ 7) (smaller _ (shift_shrinks v big)))

unfoldable pub put_uvarint : Bytes → ℕ → Bytes
unfolding put_loop lt_wf dec_lt
put_uvarint w v = put_loop w v (lt_wf.apply v)

unfoldable pub put_tag : Bytes → ℕ → ℕ → Bytes
unfolding put_uvarint
put_tag w field wire = put_uvarint w (bit_or (field * 2 ^ 3) wire)

unfoldable pub bytes_field : Bytes → ℕ → Bytes → Bytes
unfolding put_tag put_uvarint
bytes_field w field val = put_uvarint (put_tag w field 2) (length val) ++ val

-- `pb.str`
abbrev pub str : Bytes → ℕ → Text → Bytes
str = bytes_field

unfoldable pub uint64_field : Bytes → ℕ → ℕ → Bytes
unfolding put_tag put_uvarint
uint64_field w field v = put_uvarint (put_tag w field 0) v

unfoldable pub any_msg : Text → Bytes → Bytes
unfolding bytes_field
any_msg type_url value = bytes_field (str [] 1 type_url) 2 value

-- `binary.Uvarint`: the number and the bytes that it takes, `none` where Go returns n <= 0.
unfoldable pub uvarint_from : ℕ → ℕ → ℕ → Bytes → Option (ℕ × ℕ)
uvarint_from i x s [] = none
uvarint_from i x s (b ∷ buf) =
    let more = uvarint_from (i + 1) (bit_or x (bit_and b 0x7f * 2 ^ s % 2 ^ 64)) (s + 7) buf in
    if i == 10
    then none
    else if ltb b 0x80
    then if i == 9 && ltb 1 b then none else some (bit_or x (b * 2 ^ s % 2 ^ 64), i + 1)
    else more

unfoldable pub uvarint : Bytes → Option (ℕ × ℕ)
unfolding uvarint_from
uvarint = uvarint_from 0 0 0

-- What a round of `pbScan` meets: a field with the bytes that the whole record takes, an early
-- return, or the run-time panic of a slice expression that is out of range.
pub data Item : Type 0 where
  varint : ℕ → ℕ → ℕ → Item
  fixed : ℕ → Item
  bytes : ℕ → Bytes → ℕ → Item
  stop crash : Item

-- The length `l` as the code sees it: `i + int(l)` is an int of 64 bits, which wraps round.
-- `i` is the position in the buffer, `n` the bytes of the record so far, `rest` is `buf[i:]`.
unfoldable pub read_slice : ℕ → ℕ → ℕ → ℕ → Bytes → Item
read_slice field i n l rest =
    let end : ℕ = (i + l) % 2 ^ 64 in
    let negative : Bool = leb (2 ^ 63) end in
    if not negative && ltb (i + length rest) end
    then stop
    else if negative || ltb end i
    then crash
    else bytes field (take (end - i) rest) (n + (end - i))

-- `case 0` and `case 2`, on what `binary.Uvarint` has read.
unfoldable pub varint_item : ℕ → ℕ → Option (ℕ × ℕ) → Item
varint_item field n none = stop
varint_item field n (some (v, m)) = varint field v (n + m)

unfoldable pub slice_item : ℕ → ℕ → ℕ → Bytes → Option (ℕ × ℕ) → Item
unfolding read_slice
slice_item field i n rest none = stop
slice_item field i n rest (some (l, m)) = read_slice field (i + m) (n + m) l (drop m rest)

-- `case 1` and `case 5`, with their widths.
unfoldable pub fixed_item : ℕ → ℕ → Bytes → Item
fixed_item n width rest = if ltb (length rest) width then stop else fixed (n + width)

-- The switch on the wire type, behind the tag.
unfoldable pub read_payload : ℕ → ℕ → ℕ → ℕ → Bytes → Item
unfolding varint_item slice_item fixed_item uvarint
read_payload field wire i n rest =
    if wire == 0
    then varint_item field n (uvarint rest)
    else if wire == 1
    then fixed_item n 8 rest
    else if wire == 5
    then fixed_item n 4 rest
    else if wire == 2
    then slice_item field i n rest (uvarint rest)
    else stop

-- What stands behind the reading of the tag, at position `i` before `rest`.
unfoldable pub behind_tag : ℕ → Bytes → Option (ℕ × ℕ) → Item
unfolding read_payload
behind_tag i rest none = stop
behind_tag i rest (some (tag, n)) =
    read_payload (tag / 2 ^ 3) (bit_and tag 7) (i + n) n (drop n rest)

-- One round of the loop, at position `i` before `rest`.
unfoldable pub read_item : ℕ → Bytes → Item
unfolding behind_tag uvarint
read_item i rest = behind_tag i rest (uvarint rest)

-- How the scan ends, with what the callback has left; `stuck` is no outcome of the code: the fuel
-- of the model ran out.
pub data Scan {ℓ} (S : Type ℓ) : Type ℓ where
  done : S → Scan S
  panic : Scan S
  stuck : Scan S

module _ {ℓ} {S : Type ℓ} (fn : ℕ → ℕ → Bytes → ℕ → S → S × Bool) where
  -- What a round does with the answer of the callback.
  unfoldable pub answered : (S → Scan S) → S × Bool → Scan S
  answered next (s, true) = next s
  answered next (s, false) = done s

  -- A round of the loop, where `next n` goes on `n` bytes further.
  unfoldable pub round : (ℕ → S → Scan S) → Item → S → Scan S
  unfolding answered
  round next stop s = done s
  round next crash s = panic
  round next (fixed n) s = next n s
  round next (varint field v n) s = answered (next n) (fn field 0 [] v s)
  round next (bytes field val n) s = answered (next n) (fn field 2 val 0 s)

  -- `pbScan` from position `i` on. The callback gets the field, the wire type, the bytes and the
  -- number, and answers with its state and whether to go on.
  unfoldable pub scan_from : ℕ → ℕ → Bytes → S → Scan S
  unfolding read_item round
  scan_from fuel i [] s = done s
  scan_from zero i (b ∷ rest) s = stuck
  scan_from (suc fuel) i (b ∷ rest) s =
      round (λ n. scan_from fuel (i + n) (drop n (b ∷ rest))) (read_item i (b ∷ rest)) s

-- Each round takes a byte at least, so as many rounds as there are bytes are enough.
abbrev pub scan {ℓ} : {S : Type ℓ} → (ℕ → ℕ → Bytes → ℕ → S → S × Bool) → Bytes → S → Scan S
scan fn buf = scan_from fn (length buf) 0 buf

-- The callback of `pbBytesField`; `none` is Go's nil.
unfoldable pub want_bytes : ℕ → ℕ → ℕ → Bytes → ℕ → Option Bytes → Option Bytes × Bool
want_bytes num f w val v out = if f == num && w == 2 then (some val, false) else (out, true)

unfoldable pub pb_bytes_field : Bytes → ℕ → Scan (Option Bytes)
unfolding scan_from want_bytes
pb_bytes_field buf num = scan (want_bytes num) buf none

-- The callback of `pbVarintField`.
unfoldable pub want_varint : ℕ → ℕ → ℕ → Bytes → ℕ → ℕ → ℕ × Bool
want_varint num f w val v out = if f == num && w == 0 then (v, false) else (out, true)

unfoldable pub pb_varint_field : Bytes → ℕ → Scan ℕ
unfolding scan_from want_varint
pb_varint_field buf num = scan (want_varint num) buf 0
