-- ===== src/Client/Sending/Built.antt =====
-- util/client.py: how long the messages of `_buildmsg` are.
use py_burly_bot.Common.{
  ℕ, zero, suc, ◌+◌, ◌-◌, ◌≤◌, List, [], ◌∷◌, ◌++◌, Option, some, ◌≡◌, refl, arith, codes, map, inl,
  inr, Bool-cases, if◌then◌else◌, ltb, leb, nat_beq, length, take, drop, All, length-take,
  length-append, split_on,
}
use py_burly_bot.Client.Sending.{
  Bytes, backtrack, skip_inner, segments, split_encoded, trim, head_of, Difference, value,
  available, privmsg, build_lines, build_split, newline,
}

backtrack-bounded : (rest : Bytes) (limit : ℕ) → backtrack rest limit ≤ limit
unfolding backtrack
backtrack-bounded rest zero = omega arith
backtrack-bounded rest (suc k) = ground (arith, backtrack-bounded rest k)

-- At most `n` segments, each within the limit.
pub record AreBounded (limit n : ℕ) (segs : List Bytes) : Type 0 where
  pub few : length segs ≤ n
  pub short : All (λ s. length s ≤ limit) segs

segments-AreBounded : (n limit : ℕ) (rest : Bytes) → AreBounded limit n (segments n limit rest)
unfolding segments
segments-AreBounded zero limit rest = record { few = omega arith; short = tt }
segments-AreBounded (suc n) limit [] = record { few = omega arith; short = tt }
segments-AreBounded (suc n) limit (b ∷ bs) =
    let k = backtrack (b ∷ bs) limit in
    let next =
      segments-AreBounded n limit (if nat_beq k 0 then skip_inner bs else drop k (b ∷ bs)) in
    elim (Bool-cases (leb (length (b ∷ bs)) limit)) [
      | inl fits ↦ rw fits (record { few = omega arith; short = (ground (arith, fits), tt) })
      | inr long ↦ rw long (record {
        few = omega (arith, next.few);
        short =
            (ground (arith, length-take k (b ∷ bs), backtrack-bounded (b ∷ bs) limit), next.short);
      })
    ]

pub split_encoded-AreBounded :
    (es : Bytes) (limit n : ℕ) → AreBounded limit (suc n) (split_encoded es limit (suc n))
unfolding split_encoded
split_encoded-AreBounded es limit n = elim (Bool-cases (ltb limit 1)) [
  | inl e ↦ rw e (record { few = omega arith; short = (omega arith, tt) })
  | inr e ↦ elim (Bool-cases (leb (length es) limit)) [
    | inl f ↦ rw (e, f) (record { few = omega arith; short = (ground (arith, f), tt) })
    | inr f ↦ rw (e, f) (segments-AreBounded (suc n) limit es)
  ]
]

pub trim-bounded : (s : Bytes) (limit : ℕ) → length (trim s limit) ≤ limit
unfolding trim
trim-bounded s limit = first (split_encoded s limit 1) (split_encoded-AreBounded s limit 0)
  where
    first : (segs : List Bytes) → AreBounded limit 1 segs → length (head_of segs) ≤ limit
    first [] h = omega arith
    first (x ∷ segs) h = h.short.0

privmsg-length :
    (target message : Bytes)
    → length (privmsg target message) ≡ length (privmsg target []) + length message
privmsg-length target message =
    omega
      (arith, length-append target (codes " :" ++ message), length-append target (codes " :" ++ []))

-- A list that is cut holds what the list holds.
All-take : {A : Type 0} (P : A → Type 0) (n : ℕ) (xs : List A) → All P xs → All P (take n xs)
All-take P zero xs h = tt
All-take P (suc n) [] h = tt
All-take P (suc n) (x ∷ xs) h = (h.0, All-take P n xs h.1)

All-append : {A : Type 0} (P : A → Type 0) (xs ys : List A) → All P xs → All P ys → All P (xs ++ ys)
All-append P [] ys h k = k
All-append P (x ∷ xs) ys h k = (h.0, All-append P xs ys h.1 k)

-- A message within `limit` bytes of its text.
abbrev IsWithin : Bytes → ℕ → Bytes → Type 0
IsWithin target limit m = length m ≤ length (privmsg target []) + limit

messages-IsWithin :
    (target : Bytes) (limit : ℕ) (texts : List Bytes)
    → All (λ s. length s ≤ limit) texts
    → All (IsWithin target limit) (map (privmsg target) texts)
messages-IsWithin target limit [] h = tt
messages-IsWithin target limit (t ∷ texts) h =
    (omega (arith, privmsg-length target t, h.0), messages-IsWithin target limit texts h.1)

module _ (quote : Bytes → Bytes) (safe : Bytes → Difference) (format : Bytes → List Bytes → Bytes)
    (prefixlen : Option ℕ) where
  pub available_known :
      (n : ℕ) (command : Bytes)
      → prefixlen ≡ some n
      → 1 ≤ n
      → value (available quote safe format prefixlen command) ≡ 508 - (n + length (quote command))
  unfolding available
  available_known zero command known p = absurd (omega (arith, p))
  available_known (suc n) command known p = rw (available, known) refl

  build_lines-IsWithin :
      (room : ℕ) (target : Bytes) (lines : List Bytes)
      → All
          (IsWithin target (value (available quote safe format prefixlen (privmsg target []))))
          (build_lines quote safe format prefixlen room target lines)
  unfolding build_lines
  build_lines-IsWithin room target [] = tt
  build_lines-IsWithin zero target (line ∷ lines) = tt
  build_lines-IsWithin (suc room) target (line ∷ lines) =
      let limit = value (available quote safe format prefixlen (privmsg target [])) in
      let texts = split_encoded line limit (suc room) in
      All-append (IsWithin target limit) (map (privmsg target) texts) _
        (messages-IsWithin target limit texts (split_encoded-AreBounded line limit room).short)
        (build_lines-IsWithin (suc room - length texts) target lines)

  -- The room that `calcAvailableMsgLength` leaves with a known prefix.
  room-IsWithin :
      (n : ℕ) (target m : Bytes)
      → prefixlen ≡ some (suc n)
      → length (privmsg target []) ≤ length (quote (privmsg target []))
      → suc n + length (quote (privmsg target [])) ≤ 508
      → IsWithin target (value (available quote safe format prefixlen (privmsg target []))) m
      → length m + suc n ≤ 508
  room-IsWithin n target m known quoted header h =
      let e = available_known (suc n) (privmsg target []) known (omega arith) in
      omega (arith, e, quoted, header, h)

  All-room :
      (n : ℕ) (target : Bytes) (ms : List Bytes)
      → prefixlen ≡ some (suc n)
      → length (privmsg target []) ≤ length (quote (privmsg target []))
      → suc n + length (quote (privmsg target [])) ≤ 508
      → All (IsWithin target (value (available quote safe format prefixlen (privmsg target [])))) ms
      → All (λ m. length m + suc n ≤ 508) ms
  All-room n target [] known quoted header h = tt
  All-room n target (m ∷ ms) known quoted header h = (
    room-IsWithin n target m known quoted header h.0,
    All-room n target ms known quoted header h.1,
  )

-- With the prefix known, a message that is split becomes four lines at most, and each of them and the
-- prefix have at most 508 bytes, so long as quoting does not shorten the head of the line and the
-- quoted head leaves room.
pub build_split-bounded :
    (quote : Bytes → Bytes) (safe : Bytes → Difference) (format : Bytes → List Bytes → Bytes)
    (n : ℕ) (target message : Bytes)
    → length (privmsg target []) ≤ length (quote (privmsg target []))
    → suc n + length (quote (privmsg target [])) ≤ 508
    → let ms = build_split quote safe format (some (suc n)) target message in
      (length ms ≤ 4) × All (λ m. length m + suc n ≤ 508) ms
unfolding build_split
build_split-bounded quote safe format n target message quoted header =
    let ms = build_lines quote safe format (some (suc n)) 4 target (split_on newline [] message) in
    (
      ground (arith, length-take 4 ms),
      All-room quote safe format (some (suc n)) n target (take 4 ms) refl quoted header (
          All-take _ 4 ms (
            build_lines-IsWithin quote safe format (some (suc n)) 4 target
              (split_on newline [] message))),
    )
