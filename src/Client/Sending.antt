-- ===== src/Client/Sending.antt =====
-- util/helpers.py: `splitEncodedUnicode` for UTF-8; util/client.py: `calcAvailableMsgLength`,
-- `_buildmsg` and `assembleMsgWLen` for a text or a list. Texts are the bytes of their encoding.
pub mod Segments
pub mod Built
pub mod Fitted
use py_burly_bot.Common.{
  ℕ, zero, suc, ◌+◌, ◌-◌, ◌*◌, ◌/◌, ◌%◌, Bool, true, false, not, ◌&&◌, List, [], ◌∷◌, ◌++◌, Option,
  none, some, codes, if◌then◌else◌, ltb, leb, nat_beq, length, take, drop, map, split_on,
}

abbrev pub Bytes : Type 0
Bytes = List ℕ

-- `(0b10000000 & c != 0) and (0b11000000 & c != 0b11000000)`
unfoldable pub is_inner : ℕ → Bool
is_inner c = not (nat_beq (c / 128 % 2) 0) && not (nat_beq (c / 64 % 4) 3)

abbrev pub inner_at : ℕ → Bytes → Bool
inner_at k [] = false
inner_at zero (b ∷ bs) = is_inner b
inner_at (suc k) (b ∷ bs) = inner_at k bs

-- The end of a segment, from `ib`: back to the start of a character, `ib` at the least.
unfoldable pub backtrack : Bytes → ℕ → ℕ
backtrack rest zero = zero
backtrack rest (suc k) =
    let before = backtrack rest k in if inner_at (suc k) rest then before else suc k

-- The character that does not fit is left out; nothing is left where the bytes end before the next.
unfoldable pub skip_inner : Bytes → Bytes
skip_inner [] = []
skip_inner (b ∷ bs) = let rest = skip_inner bs in if is_inner b then rest else b ∷ bs

-- The loop over the segments, of which `n` are still wanted; `rest` is `es[ib:]`.
unfoldable pub segments : ℕ → ℕ → Bytes → List Bytes
unfolding backtrack skip_inner
segments zero limit rest = []
segments (suc n) limit [] = []
segments (suc n) limit (b ∷ bs) =
    let k = backtrack (b ∷ bs) limit in
    let more = segments n limit (if nat_beq k 0 then skip_inner bs else drop k (b ∷ bs)) in
    if leb (length (b ∷ bs)) limit then (b ∷ bs) ∷ [] else take k (b ∷ bs) ∷ more

-- `splitEncodedUnicode`; a length below 1 is 0
unfoldable pub split_encoded : Bytes → ℕ → ℕ → List Bytes
unfolding segments
split_encoded es limit n =
    if ltb limit 1 then [] ∷ [] else if leb (length es) limit then es ∷ [] else segments n limit es

-- `splitEncodedUnicode(s, length)[0][0]`
abbrev pub head_of : List Bytes → Bytes
head_of [] = []
head_of (x ∷ xs) = x

unfoldable pub trim : Bytes → ℕ → Bytes
unfolding split_encoded
trim s limit = head_of (split_encoded s limit 1)

-- An `int` as a difference of two numbers.
pub record Difference : Type 0 where
  pub have : ℕ
  pub spent : ℕ

abbrev pub is_negative : Difference → Bool
is_negative d = ltb d.have d.spent

abbrev pub value : Difference → ℕ
value d = d.have - d.spent

-- `len(s)`, in characters
unfoldable pub characters : Bytes → ℕ
characters [] = 0
characters (b ∷ bs) = let rest = characters bs in if is_inner b then rest else suc rest

abbrev pub newline : ℕ
newline = 10

abbrev pub privmsg : Bytes → Bytes → Bytes
privmsg target message = codes "PRIVMSG " ++ (target ++ (codes " :" ++ message))

-- First come, first served; a separator goes behind all but the last.
unfoldable pub served : Option Bytes → ℕ → List Bytes → List Bytes
unfolding trim
served sep avail [] = []
served none avail (x ∷ xs) = let t = trim x avail in t ∷ served none (avail - length t) xs
served (some sep) avail (x ∷ []) = trim x avail ∷ []
served (some sep) avail (x ∷ y ∷ ys) =
    let t = trim x avail in
    let left = avail - length t in
    elim (ltb left (length sep + 2)) [
      | true ↦ t ∷ served (some sep) 0 (y ∷ ys)
      | false ↦ (t ++ sep) ∷ served (some sep) (left - length sep) (y ∷ ys)
    ]

-- An equal part for each.
unfoldable pub divided : Option Bytes → ℕ → List Bytes → List Bytes
unfolding trim
divided sep part [] = []
divided none part (x ∷ xs) = trim x part ∷ divided none part xs
divided (some sep) part (x ∷ []) = trim x part ∷ []
divided (some sep) part (x ∷ y ∷ ys) = (trim x part ++ sep) ∷ divided (some sep) part (y ∷ ys)

abbrev pub part_of : Option Bytes → ℕ → ℕ → ℕ
part_of none avail ls = avail / ls
part_of (some sep) avail ls = (avail - (ls - 1) * length sep) / ls

-- Whole entries, or none of them.
unfoldable pub whole : Option Bytes → Bool → ℕ → List Bytes → List Bytes
whole sep kept avail [] = []
whole none kept avail (x ∷ xs) = elim (leb (length x) avail) [
  | true ↦ x ∷ whole none true (avail - length x) xs
  | false ↦ [] ∷ whole none kept avail xs
]
whole (some sep) kept avail (x ∷ xs) =
    let entry = if kept then sep ++ x else x in
    elim (leb (length entry) avail) [
      | true ↦ entry ∷ whole (some sep) true (avail - length entry) xs
      | false ↦ whole (some sep) kept avail xs
    ]

abbrev pub concat_bytes : List Bytes → Bytes
concat_bytes [] = []
concat_bytes (x ∷ xs) = x ++ concat_bytes xs

pub data Sharing : Type 0 where
  dropwhole fcfs even : Sharing

-- The replacements, cut to what there is room for; there is none to divide between no entries.
unfoldable pub shared : Sharing → Option Bytes → ℕ → List Bytes → Option (List Bytes)
unfolding served divided whole
shared dropwhole sep avail strins = some (whole sep false avail strins)
shared fcfs sep avail strins = some (served sep avail strins)
shared even sep avail [] = none
shared even sep avail (x ∷ xs) = some (divided sep (part_of sep avail (length (x ∷ xs))) (x ∷ xs))

-- `quote` is `lowQuote`, `safe` is `_safeMaximumLineLength`, `format` is `str.format`.
module _ (quote : Bytes → Bytes) (safe : Bytes → Difference) (format : Bytes → List Bytes → Bytes)
    (prefixlen : Option ℕ) where
  -- `calcAvailableMsgLength`
  unfoldable pub available : Bytes → Difference
  available command = elim prefixlen [
    | some (suc n) ↦ record { have = 508; spent = suc n + length (quote command) }
    | _ ↦ record { have = (safe (quote command)).have; spent = (safe (quote command)).spent + 2 }
  ]

  -- The loop of `_buildmsg` over the lines, with `split`.
  unfoldable pub build_lines : ℕ → Bytes → List Bytes → List Bytes
  unfolding split_encoded available
  build_lines room target [] = []
  build_lines zero target (line ∷ lines) = []
  build_lines (suc room) target (line ∷ lines) =
      let ms = split_encoded line (value (available (privmsg target []))) (suc room) in
      map (privmsg target) ms ++ build_lines (suc room - length ms) target lines

  -- `_buildmsg` without `strins`: with `split`, and cut to one message
  unfoldable pub build_split : Bytes → Bytes → List Bytes
  unfolding build_lines split_on
  build_split target message = take 4 (build_lines 4 target (split_on newline [] message))

  unfoldable pub build_one : Bytes → Bytes → Bytes
  unfolding trim available
  build_one target message = privmsg target (trim message (value (available (privmsg target []))))

  -- `assembleMsgWLen` for a text
  unfoldable pub assemble_text : Bytes → Bytes → Bytes
  unfolding trim available characters
  assemble_text s strin =
      let sl = available (format s ([] ∷ [])) in
      if leb sl.have sl.spent
      then trim s (characters s + sl.have - sl.spent)
      else format s (trim strin (value sl) ∷ [])

  abbrev pub blanks : Option Bytes → List Bytes → List Bytes
  blanks none strins = map (λ _. []) strins
  blanks (some sep) strins = [] ∷ []

  abbrev pub filled : Bytes → Option Bytes → Option (List Bytes) → Option Bytes
  filled s sep none = none
  filled s none (some strins) = some (format s strins)
  filled s (some sep) (some strins) = some (format s (concat_bytes strins ∷ []))

  -- `assembleMsgWLen` for a list
  unfoldable pub assemble_list : Sharing → Option Bytes → Bytes → List Bytes → Option Bytes
  unfolding trim available characters shared
  assemble_list sharing sep s strins =
      let plain = format s (blanks sep strins) in
      let avail = available plain in
      if is_negative avail
      then (let t = elim sep as (λ _. Bytes) [
        | none ↦ plain
        | some _ ↦ format s (map (λ _. []) strins)
      ] in
          some (trim t (characters t + avail.have - avail.spent)))
      else filled s sep (shared sharing sep (value avail) strins)
