-- ===== src/Protobuf/Crash.antt =====
-- `pbScan` on arbitrary bytes: it always ends, and a length of 2 ^ 63 or more crashes it.
use sentnodes_agent.Base.{
  IsU64, ℕ, zero, suc, ◌+◌, ◌*◌, ◌/◌, ◌^◌, ◌≤◌, ◌<◌, bit_and, Bool, true, false, Option, none, some,
  arith, [], ◌∷◌, ◌++◌, ◌==◌, if◌then◌else◌, length, length-append, length-drop, drop, ◌≡◌, ◌≢◌,
  refl, sym, ap, ◌∙◌,
}
use sentnodes_agent.Protobuf.{
  Bytes, uvarint, Item, varint, fixed, bytes, stop, crash, read_slice, varint_item, slice_item,
  fixed_item, read_payload, behind_tag, read_item, Scan, panic, stuck, answered, round, scan_from,
  scan,
}
use sentnodes_agent.Protobuf.Uvarint.{groups, length-groups, uvarint-groups, uvarint_takes}
use sentnodes_agent.Protobuf.Message.{IsNumber, tag}
use sentnodes_agent.Protobuf.Reader.{Callback, scan_from-round, read_item-tag}

-- A record takes more than `n` bytes.
abbrev Takes : ℕ → Item → Type 0
Takes n (varint f v k) = n ≤ k
Takes n (fixed k) = n ≤ k
Takes n (bytes f val k) = n ≤ k
Takes n stop = Unit
Takes n crash = Unit

read_slice-Takes : (f i n l : ℕ) (rest : Bytes) → Takes n (read_slice f i n l rest)
unfolding read_slice
read_slice-Takes f i n l rest = ground arith

Takes-weaken : (item : Item) {k n : ℕ} → k ≤ n → Takes n item → Takes k item
Takes-weaken (varint f v m) h t = omega arith
Takes-weaken (fixed m) h t = omega arith
Takes-weaken (bytes f val m) h t = omega arith
Takes-weaken stop h t = tt
Takes-weaken crash h t = tt

slice_item-Takes :
    (f i n : ℕ) (rest : Bytes) (o : Option (ℕ × ℕ)) → Takes n (slice_item f i n rest o)
unfolding slice_item
slice_item-Takes f i n rest none = tt
slice_item-Takes f i n rest (some (l, m)) =
    Takes-weaken (read_slice f (i + m) (n + m) l (drop m rest)) (omega arith)
      (read_slice-Takes f (i + m) (n + m) l (drop m rest))

varint_item-Takes : (f n : ℕ) (o : Option (ℕ × ℕ)) → Takes n (varint_item f n o)
unfolding varint_item
varint_item-Takes f n none = tt
varint_item-Takes f n (some (v, m)) = omega arith

fixed_item-Takes : (n width : ℕ) (rest : Bytes) → Takes n (fixed_item n width rest)
unfolding fixed_item
fixed_item-Takes n width rest = ground arith

Takes-if : (b : Bool) (n : ℕ) (x y : Item) → Takes n x → Takes n y → Takes n (if b then x else y)
Takes-if true n x y hx hy = hx
Takes-if false n x y hx hy = hy

read_payload-Takes : (f wire i n : ℕ) (rest : Bytes) → Takes n (read_payload f wire i n rest)
read_payload-Takes f wire i n rest =
    unfold read_payload in
    Takes-if (wire == 0) n _ _ (varint_item-Takes f n (uvarint rest)) (
      Takes-if (wire == 1) n _ _ (fixed_item-Takes n 8 rest) (
        Takes-if (wire == 5) n _ _ (fixed_item-Takes n 4 rest)
          (Takes-if (wire == 2) n _ _ (slice_item-Takes f i n rest (uvarint rest)) tt)))

behind_tag-Takes :
    (i : ℕ) (rest : Bytes) (o : Option (ℕ × ℕ))
    → ((t n : ℕ) → o ≡ some (t, n) → 1 ≤ n)
    → Takes 1 (behind_tag i rest o)
behind_tag-Takes i rest none h = unfold behind_tag in tt
behind_tag-Takes i rest (some (t, n)) h =
    unfold behind_tag in
    Takes-weaken (read_payload (t / 2 ^ 3) (bit_and t 7) (i + n) n (drop n rest)) (h t n refl)
      (read_payload-Takes (t / 2 ^ 3) (bit_and t 7) (i + n) n (drop n rest))

-- Every round takes a byte, whatever it meets.
read_item-Takes : (i : ℕ) (rest : Bytes) → Takes 1 (read_item i rest)
unfolding read_item
read_item-Takes i rest = behind_tag-Takes i rest (uvarint rest) (uvarint_takes rest)

module _ {ℓ} {S : Type ℓ} (fn : Callback S) where
  answered-ne-stuck :
      (next : S → Scan S) (r : S × Bool) → ((s : S) → next s ≢ stuck) → answered fn next r ≢ stuck
  unfolding answered
  answered-ne-stuck next (s, true) h = h s
  answered-ne-stuck next (s, false) h = λ e. cc

  round-ne-stuck :
      (next : ℕ → S → Scan S) (item : Item) (s : S)
      → ((n : ℕ) (t : S) → 1 ≤ n → next n t ≢ stuck)
      → Takes 1 item
      → round fn next item s ≢ stuck
  round-ne-stuck next (varint f v n) s h t =
      unfold round in answered-ne-stuck (next n) _ (λ u. h n u t)
  round-ne-stuck next (bytes f val n) s h t =
      unfold round in answered-ne-stuck (next n) _ (λ u. h n u t)
  round-ne-stuck next (fixed n) s h t = unfold round in h n s t
  round-ne-stuck next stop s h t = unfold round in λ e. cc
  round-ne-stuck next crash s h t = unfold round in λ e. cc

  scan_from-ne-stuck :
      (fuel i : ℕ) (buf : Bytes) (s : S) → length buf ≤ fuel → scan_from fn fuel i buf s ≢ stuck
  scan_from-ne-stuck fuel i [] s h e = unfold scan_from in cc
  scan_from-ne-stuck zero i (b ∷ rest) s h e = absurd (omega arith)
  scan_from-ne-stuck (suc fuel) i (b ∷ rest) s h e =
      let next = λ (n : ℕ). scan_from fn fuel (i + n) (drop n (b ∷ rest)) in
      round-ne-stuck next (read_item i (b ∷ rest)) s
        (λ n t k.
          scan_from-ne-stuck fuel (i + n) (drop n (b ∷ rest)) t
            (omega (arith, length-drop n (b ∷ rest))))
        (read_item-Takes i (b ∷ rest))
        (sym (scan_from-round fn fuel i (b ∷ rest) s (omega arith)) ∙ e)

  scan_from-crash :
      (fuel i : ℕ) (buf : Bytes) (s : S)
      → 1 ≤ length buf
      → length buf ≤ fuel
      → read_item i buf ≡ crash
      → scan_from fn fuel i buf s ≡ panic
  scan_from-crash zero i buf s h k e = absurd (omega arith)
  scan_from-crash (suc fuel) i buf s h k e =
      scan_from-round fn fuel i buf s h
      ∙ ap (λ item. round fn (λ n. scan_from fn fuel (i + n) (drop n buf)) item s) e
      ∙ unfold round in refl

-- `pbScan` ends on every input, whatever its callback does.
pub scan-ne-stuck {ℓ} : {S : Type ℓ} (fn : Callback S) (buf : Bytes) (s : S) → scan fn buf s ≢ stuck
scan-ne-stuck fn buf s = scan_from-ne-stuck fn (length buf) 0 buf s (omega arith)

read_slice-crash :
    (f i n l : ℕ) (rest : Bytes)
    → i < 2 ^ 62
    → 2 ^ 63 ≤ l
    → IsU64 l
    → read_slice f i n l rest ≡ crash
unfolding read_slice
read_slice-crash f i n l rest h k u = ground arith

-- At the front of a buffer, a record of bytes with a field number of protobuf and a length that a
-- uint64 holds and an int does not crashes the scan, whatever is asked for:
-- the length turns negative, so it passes the test against the end of the buffer, and the slice
-- expression behind it panics.
pub scan_panics {ℓ} :
    {S : Type ℓ} (fn : Callback S) (s : S) (f l : ℕ) (rest : Bytes)
    → IsNumber f
    → 2 ^ 63 ≤ l
    → IsU64 l
    → scan fn (tag f 2 ++ (groups 9 l ++ rest)) s ≡ panic
scan_panics fn s f l rest h k u =
    let t : Bytes = tag f 2 in
    let g : Bytes = groups 9 l in
    let buf : Bytes = t ++ (g ++ rest) in
    let crashes : read_item 0 buf ≡ crash =
      read_item-tag f 2 0 (g ++ rest) h (omega arith)
      ∙ (unfold read_payload in
          ap (slice_item f (0 + length t) (length t) (g ++ rest)) (uvarint-groups l rest u)
          ∙ read_slice-crash f _ _ l _
              (omega (arith, length-groups 9 (f * 8 + 2), length-groups 9 l)) k u) in
    scan_from-crash fn (length buf) 0 buf s
      (omega (arith, length-append t (g ++ rest), length-groups 9 (f * 8 + 2))) (omega arith)
      crashes
