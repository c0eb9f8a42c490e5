-- ===== src/Keys/Extract.antt =====
-- `pbBytes` of internal/keys/keys.go against `pbBytesField` of internal/chain/chain.go, and the
-- key of a record of the keyring.
use sentnodes_agent.Base.{
  ℕ, zero, suc, ◌+◌, ◌-◌, ◌≤◌, ◌<◌, ◌/◌, ◌%◌, ◌^◌, bit_and, Bool, true, false, not, ◌&&◌, ◌||◌,
  Option, none, some, List, [], ◌∷◌, ltb, leb, ◌==◌, if◌then◌else◌, length, take, drop, length-drop,
  arith, ◌≡◌, refl, sym, ap, ◌∙◌, Bool-cases, inl, inr,
}
use sentnodes_agent.Keys.{
  Lookup, found, refused, crashed, unfinished, KeyItem, skip, value, bad, boom, length_overrun,
  key_slice, key_varint, key_bytes, key_payload, key_behind_tag, key_item, key_round, key_from,
  pb_bytes, field_not_found, extract_priv_key,
}
use sentnodes_agent.Protobuf.{
  Bytes, uvarint, Item, varint, fixed, bytes, stop, crash, read_slice, varint_item, slice_item,
  fixed_item, read_payload, behind_tag, read_item, Scan, done, panic, stuck, answered, round,
  scan_from, want_bytes, pb_bytes_field,
}
use sentnodes_agent.Protobuf.Message.{Field, message, find_bytes}
use sentnodes_agent.Protobuf.Reader.{IsMessage, pb_bytes_field-message}

-- A search without the reason that it gives for finding nothing.
abbrev pub answer : Lookup → Scan (Option Bytes)
answer (found v) = done (some v)
answer (refused e) = done none
answer crashed = panic
answer unfinished = stuck

-- The two readers meet the same in `len` bytes; one of them reads past the end where the other stops.
abbrev Matches : ℕ → KeyItem → Item → Type 0
Matches len (skip n) (varint f v m) = n ≡ m
Matches len (skip n) (fixed m) = n ≡ m
Matches len (skip n) stop = len ≤ n
Matches len (value f v n) (bytes g w m) = (f ≡ g) × (v ≡ w) × (n ≡ m)
Matches len (bad e) stop = Unit
Matches len boom crash = Unit
Matches len _ _ = ⊥

if-Matches :
    (len : ℕ) (b : Bool) (k m : KeyItem) (i j : Item)
    → Matches len k i
    → Matches len m j
    → Matches len (if b then k else m) (if b then i else j)
if-Matches len true k m i j h h' = h
if-Matches len false k m i j h h' = h'

slice-Matches :
    (len f i n l : ℕ) (rest : Bytes)
    → Matches len (key_slice f i n l rest) (read_slice f i n l rest)
unfolding key_slice read_slice
slice-Matches len f i n l rest =
    let end : ℕ = (i + l) % 2 ^ 64 in
    let val : Bytes = take (end - i) rest in
    let m : ℕ = n + (end - i) in
    let same : Matches len (value f val m) (bytes f val m) = (refl, refl, refl) in
    if-Matches len (not (leb (2 ^ 63) end) && ltb (i + length rest) end) (bad length_overrun) _ stop
      _ tt
      (if-Matches len (leb (2 ^ 63) end || ltb end i) boom (value f val m) crash (bytes f val m) tt
        same)

varint-Matches :
    (len f n : ℕ) (u : Option (ℕ × ℕ)) → Matches len (key_varint n u) (varint_item f n u)
unfolding key_varint varint_item
varint-Matches len f n none = tt
varint-Matches len f n (some (v, m)) = refl

bytes-Matches :
    (len f i n : ℕ) (rest : Bytes) (u : Option (ℕ × ℕ))
    → Matches len (key_bytes f i n rest u) (slice_item f i n rest u)
unfolding key_bytes slice_item
bytes-Matches len f i n rest none = tt
bytes-Matches len f i n rest (some (l, m)) = slice-Matches len f (i + m) (n + m) l (drop m rest)

fixed-Matches :
    (len n width : ℕ) (rest : Bytes)
    → len ≤ n + length rest
    → Matches len (skip (n + width)) (fixed_item n width rest)
unfolding fixed_item
fixed-Matches len n width rest e = elim (Bool-cases (ltb (length rest) width)) [
  | inl short ↦ let less : length rest < width = ground arith in rw short (omega arith)
  | inr long ↦ rw long refl
]

payload-Matches :
    (len f wire i n : ℕ) (rest : Bytes)
    → len ≤ n + length rest
    → Matches len (key_payload f wire i n rest) (read_payload f wire i n rest)
unfolding key_payload read_payload
payload-Matches len f wire i n rest e =
    if-Matches len (wire == 0) _ _ _ _ (varint-Matches len f n (uvarint rest)) (
      if-Matches len (wire == 1) _ _ _ _ (fixed-Matches len n 8 rest e) (
        if-Matches len (wire == 5) _ _ _ _ (fixed-Matches len n 4 rest e)
          (if-Matches len (wire == 2) _ _ _ _ (bytes-Matches len f i n rest (uvarint rest)) tt)))

tag-Matches :
    (len i : ℕ) (rest : Bytes) (u : Option (ℕ × ℕ))
    → len ≡ length rest
    → Matches len (key_behind_tag i rest u) (behind_tag i rest u)
unfolding key_behind_tag behind_tag
tag-Matches len i rest none e = tt
tag-Matches len i rest (some (tag, n)) e =
    payload-Matches len (tag / 2 ^ 3) (bit_and tag 7) (i + n) n (drop n rest)
      (omega (arith, e, length-drop n rest))

item-Matches :
    (len i : ℕ) (rest : Bytes)
    → len ≡ length rest
    → Matches len (key_item i rest) (read_item i rest)
unfolding key_item read_item
item-Matches len i rest e = tag-Matches len i rest (uvarint rest) e

module _ (want : ℕ) (go : ℕ → Option Bytes → Scan (Option Bytes)) where
  answered-number :
      (f k v : ℕ) → answered (want_bytes want) (go k) (want_bytes want f 0 [] v none) ≡ go k none
  unfolding answered want_bytes
  answered-number f k v = elim (Bool-cases (f == want)) [ inl y ↦ rw y refl | inr n ↦ rw n refl ]

  answered-value :
      (next : ℕ → Lookup) (f n : ℕ) (v : Bytes)
      → answer (next n) ≡ go n none
      → answer (if f == want then found v else next n)
        ≡ answered (want_bytes want) (go n) (want_bytes want f 2 v 0 none)
  unfolding answered want_bytes
  answered-value next f n v h = elim (Bool-cases (f == want)) [ inl y ↦ rw y refl | inr m ↦ rw m h ]

module _ (want len : ℕ) (next : ℕ → Lookup) (go : ℕ → Option Bytes → Scan (Option Bytes)) where
  round-answer :
      (k : KeyItem) (t : Item)
      → Matches len k t
      → ((n : ℕ) → answer (next n) ≡ go n none)
      → ((n : ℕ) → len ≤ n → next n ≡ refused field_not_found)
      → answer (key_round next want k) ≡ round (want_bytes want) go t none
  unfolding key_round round want_bytes answered
  round-answer (skip n) (varint f v k) m same past =
      ap (λ j. answer (next j)) m ∙ same k ∙ sym (answered-number want go f k v)
  round-answer (skip n) (fixed k) m same past = ap (λ j. answer (next j)) m ∙ same k
  round-answer (skip n) stop m same past = ap answer (past n m)
  round-answer (value f v n) (bytes g w k) (p, q, r) same past =
      answered-value want go next f n v (same n)
      ∙ (λ j. answered (want_bytes want) (go (r j)) (want_bytes want (p j) 2 (q j) 0 none))
  round-answer (bad e) stop m same past = refl
  round-answer boom crash m same past = refl
  round-answer (skip n) (bytes g w k) m same past = elim m [ ]
  round-answer (skip n) crash m same past = elim m [ ]
  round-answer (value f v n) (varint _ _ k) m same past = elim m [ ]
  round-answer (value f v n) (fixed k) m same past = elim m [ ]
  round-answer (value f v n) stop m same past = elim m [ ]
  round-answer (value f v n) crash m same past = elim m [ ]
  round-answer (bad e) (varint f v k) m same past = elim m [ ]
  round-answer (bad e) (fixed k) m same past = elim m [ ]
  round-answer (bad e) (bytes g w k) m same past = elim m [ ]
  round-answer (bad e) crash m same past = elim m [ ]
  round-answer boom (varint f v k) m same past = elim m [ ]
  round-answer boom (fixed k) m same past = elim m [ ]
  round-answer boom (bytes g w k) m same past = elim m [ ]
  round-answer boom stop m same past = elim m [ ]

key_from-past :
    (want fuel i n : ℕ) (buf : Bytes)
    → length buf ≤ n
    → key_from want fuel i (drop n buf) ≡ refused field_not_found
unfolding key_from
key_from-past want fuel i zero [] h = refl
key_from-past want fuel i (suc n) [] h = refl
key_from-past want fuel i zero (b ∷ rest) h = absurd (omega arith)
key_from-past want fuel i (suc n) (b ∷ rest) h = key_from-past want fuel i n rest (omega (arith, h))

key_from-answer :
    (want fuel i : ℕ) (buf : Bytes)
    → answer (key_from want fuel i buf) ≡ scan_from (want_bytes want) fuel i buf none
unfolding key_from scan_from
key_from-answer want fuel i [] = refl
key_from-answer want zero i (b ∷ rest) = refl
key_from-answer want (suc fuel) i (b ∷ rest) =
    let buf : Bytes = b ∷ rest in
    round-answer want (length buf) (λ n. key_from want fuel (i + n) (drop n buf))
      (λ n. scan_from (want_bytes want) fuel (i + n) (drop n buf)) (key_item i buf)
      (read_item i buf) (item-Matches (length buf) i buf refl)
      (λ n. key_from-answer want fuel (i + n) (drop n buf))
      (λ n h. key_from-past want fuel (i + n) n buf h)

-- On every input the reader of the keyring and the reader of the chain's answers find the same
-- bytes, find nothing together, and panic together.
pub pb_bytes-pb_bytes_field :
    (buf : Bytes) (want : ℕ) → answer (pb_bytes buf want) ≡ pb_bytes_field buf want
unfolding pb_bytes pb_bytes_field
pb_bytes-pb_bytes_field buf want = key_from-answer want (length buf) 0 buf

answer-found : (r : Lookup) (v : Bytes) → answer r ≡ done (some v) → r ≡ found v
answer-found (found w) v e = ground arith
answer-found (refused x) v e = absurd (ground arith)
answer-found crashed v e = absurd (ground arith)
answer-found unfinished v e = absurd (ground arith)

pb_bytes-message :
    (xs : List Field) (num : ℕ) (v : Bytes)
    → IsMessage xs
    → find_bytes num xs ≡ some v
    → pb_bytes (message xs) num ≡ found v
pb_bytes-message xs num v m e =
    answer-found _ v
      (pb_bytes-pb_bytes_field (message xs) num ∙ pb_bytes_field-message xs num m ∙ ap done e)

-- A record of the keyring: a local key, in field 3 of the record, whose private key is a message in
-- field 1, with the type in field 1 and the value in field 2; the key is field 1 of the value.
pub record LocalKey (rec local_key priv_any priv_val : List Field) (key : Bytes) : Type 0 where
  pub rec_IsMessage : IsMessage rec
  pub local_IsMessage : IsMessage local_key
  pub any_IsMessage : IsMessage priv_any
  pub val_IsMessage : IsMessage priv_val
  pub in_rec : find_bytes 3 rec ≡ some (message local_key)
  pub in_local : find_bytes 1 local_key ≡ some (message priv_any)
  pub in_any : find_bytes 2 priv_any ≡ some (message priv_val)
  pub in_val : find_bytes 1 priv_val ≡ some key
  pub key_length : length key ≡ 32

-- From a record of the keyring with a local key of 32 bytes, whatever other fields stand in the
-- messages, `extractPrivKey` extracts the key.
pub extract_priv_key-LocalKey :
    (rec local_key priv_any priv_val : List Field) (key : Bytes)
    → LocalKey rec local_key priv_any priv_val key
    → extract_priv_key (message rec) ≡ found key
unfolding extract_priv_key
extract_priv_key-LocalKey rec local_key priv_any priv_val key h =
    rw
      (
        pb_bytes-message rec 3 _ h.rec_IsMessage h.in_rec,
        pb_bytes-message local_key 1 _ h.local_IsMessage h.in_local,
        pb_bytes-message priv_any 2 _ h.any_IsMessage h.in_any,
        pb_bytes-message priv_val 1 key h.val_IsMessage h.in_val,
        h.key_length,
      )
      refl
