-- ===== src/Client/Sending/Fitted.antt =====
-- util/client.py: how long the messages of `assembleMsgWLen` are.
use native.Mathlib.Nat.{mul-div-le}
use py_burly_bot.Common.{
  ℕ, suc, ◌+◌, ◌-◌, ◌*◌, ◌≤◌, Bool, true, false, List, [], ◌∷◌, ◌++◌, Option, none, some, ◌≡◌, refl,
  arith, map, inl, inr, Bool-cases, if◌then◌else◌, ltb, leb, length, length-append,
}
use py_burly_bot.Client.Sending.{
  Bytes, trim, Difference, is_negative, available, characters, served, divided, part_of, whole,
  concat_bytes, Sharing, dropwhole, fcfs, even, shared, blanks, filled, assemble_list,
}
use py_burly_bot.Client.Sending.Built.{trim-bounded}

unfoldable pub total : List Bytes → ℕ
total [] = 0
total (x ∷ xs) = length x + total xs

-- What first come, first served gives has no more bytes than there is room for.
served-total :
    (sep : Option Bytes) (avail : ℕ) (xs : List Bytes) → total (served sep avail xs) ≤ avail
unfolding served total
served-total sep avail [] = omega arith
served-total none avail (x ∷ xs) =
    omega (arith, trim-bounded x avail, served-total none (avail - length (trim x avail)) xs)
served-total (some sep) avail (x ∷ []) = omega (arith, trim-bounded x avail)
served-total (some sep) avail (x ∷ y ∷ ys) =
    let left = avail - length (trim x avail) in
    let rest = served-total (some sep) (left - length sep) (y ∷ ys) in
    let no_rest = served-total (some sep) 0 (y ∷ ys) in
    elim (Bool-cases (ltb left (length sep + 2))) [
      | inl e ↦ rw (served, e) (omega (arith, trim-bounded x avail, no_rest))
      | inr e ↦
          rw (served, e)
            (ground (arith, trim-bounded x avail, rest, length-append (trim x avail) sep, e))
    ]

whole-total :
    (sep : Option Bytes) (kept : Bool) (avail : ℕ) (xs : List Bytes)
    → total (whole sep kept avail xs) ≤ avail
unfolding whole total
whole-total sep kept avail [] = omega arith
whole-total none kept avail (x ∷ xs) =
    let fit = whole-total none true (avail - length x) xs in
    let unfit = whole-total none kept avail xs in
    elim (Bool-cases (leb (length x) avail)) [
      | inl e ↦ rw (whole, e) (ground (arith, e, fit))
      | inr e ↦ rw (whole, e) (omega (arith, unfit))
    ]
whole-total (some sep) kept avail (x ∷ xs) =
    let entry = if kept then sep ++ x else x in
    let fit = whole-total (some sep) true (avail - length entry) xs in
    let unfit = whole-total (some sep) kept avail xs in
    elim (Bool-cases (leb (length entry) avail)) [
      | inl e ↦ rw (whole, e) (ground (arith, e, fit))
      | inr e ↦ rw (whole, e) unfit
    ]

-- The bytes of the separators between `n` entries.
abbrev pub separators : Option Bytes → ℕ → ℕ
separators none n = 0
separators (some sep) n = (n - 1) * length sep

divided-total :
    (sep : Option Bytes) (part : ℕ) (xs : List Bytes)
    → total (divided sep part xs) ≤ length xs * part + separators sep (length xs)
unfolding divided total
divided-total sep part [] = omega arith
divided-total none part (x ∷ xs) = grind (arith, trim-bounded x part, divided-total none part xs)
divided-total (some sep) part (x ∷ []) = grind (arith, trim-bounded x part)
divided-total (some sep) part (x ∷ y ∷ ys) = grind (
  arith,
  trim-bounded x part,
  divided-total (some sep) part (y ∷ ys),
  length-append (trim x part) sep,
)

pub length-concat_bytes : (xs : List Bytes) → length (concat_bytes xs) ≡ total xs
unfolding total
length-concat_bytes [] = refl
length-concat_bytes (x ∷ xs) =
    omega (arith, length-append x (concat_bytes xs), length-concat_bytes xs)

part_of-bounded :
    (sep : Option Bytes) (avail ls : ℕ)
    → 1 ≤ ls
    → separators sep ls ≤ avail
    → ls * part_of sep avail ls + separators sep ls ≤ avail
part_of-bounded none avail ls one h = omega (arith, mul-div-le avail ls)
part_of-bounded (some sep) avail ls one h =
    omega (arith, mul-div-le (avail - (ls - 1) * length sep) ls, h)

-- An equal part for each leaves room for the separators that there must be.
abbrev pub IsRoomy : Sharing → Option Bytes → ℕ → List Bytes → Type 0
IsRoomy dropwhole sep avail xs = Unit
IsRoomy fcfs sep avail xs = Unit
IsRoomy even sep avail xs = separators sep (length xs) ≤ avail

shared-total :
    (sharing : Sharing) (sep : Option Bytes) (avail : ℕ) (xs ys : List Bytes)
    → IsRoomy sharing sep avail xs
    → shared sharing sep avail xs ≡ some ys
    → total ys ≤ avail
unfolding shared
shared-total dropwhole sep avail xs ys roomy h = ground (arith, whole-total sep false avail xs, h)
shared-total fcfs sep avail xs ys roomy h = ground (arith, served-total sep avail xs, h)
shared-total even sep avail [] ys roomy h = absurd (cc)
shared-total even sep avail (x ∷ xs) ys roomy h = ground (
  arith,
  divided-total sep (part_of sep avail (length (x ∷ xs))) (x ∷ xs),
  part_of-bounded sep avail (length (x ∷ xs)) (omega arith) roomy,
  h,
)

characters-bounded : (s : Bytes) → characters s ≤ length s
unfolding characters
characters-bounded [] = omega arith
characters-bounded (b ∷ s) = ground (arith, characters-bounded s)

-- What is cut where the template is too long itself.
template-bounded :
    (t : Bytes) (n spent : ℕ)
    → suc n ≤ 508
    → length t + suc n ≤ spent
    → length (trim t (characters t + 508 - spent)) + suc n ≤ 508
template-bounded t n spent short h =
    omega (arith, trim-bounded t (characters t + 508 - spent), characters-bounded t, h, short)

some-length : {a b : Bytes} → some a ≡ some b → length a ≡ length b
some-length h = cc

total-one : (x : Bytes) → total (x ∷ []) ≡ length x
unfolding total
total-one x = omega arith

abbrev pub no_bytes : Bytes → Bytes
no_bytes x = []

total-none : (xs : List Bytes) → total (map no_bytes xs) ≡ 0
unfolding total
total-none [] = refl
total-none (x ∷ xs) = omega (arith, total-none xs)

module _ (quote : Bytes → Bytes) (safe : Bytes → Difference) (format : Bytes → List Bytes → Bytes)
    (n : ℕ) (s : Bytes) (sep : Option Bytes) (xs : List Bytes) where
  abbrev pub plain_of : Bytes
  plain_of = format s (blanks quote safe format (some (suc n)) sep xs)

  -- The template takes each replacement once at most, and what it is without them has this many bytes.
  pub record IsTemplate : Type 0 where
    pub once : (ys : List Bytes) → length (format s ys) ≤ length plain_of + total ys
    pub quoted : length plain_of ≤ length (quote plain_of)

  filled-bounded :
      (o : Option (List Bytes)) (m : Bytes)
      → IsTemplate
      → ((zs : List Bytes) → o ≡ some zs → total zs ≤ 508 - (suc n + length (quote plain_of)))
      → suc n + length (quote plain_of) ≤ 508
      → filled quote safe format (some (suc n)) s sep o ≡ some m
      → length m + suc n ≤ 508
  filled-bounded none m template h room e = absurd (cc)
  filled-bounded (some zs) m template h room e = by_separator sep e
    where
      by_separator :
          (sep' : Option Bytes)
          → filled quote safe format (some (suc n)) s sep' (some zs) ≡ some m
          → length m + suc n ≤ 508
      by_separator none e' =
          ground (arith, template.once zs, template.quoted, h zs refl, room, some-length e')
      by_separator (some x) e' = ground (
        arith,
        template.once (concat_bytes zs ∷ []),
        template.quoted,
        h zs refl,
        room,
        some-length e',
        length-concat_bytes zs,
        total-one (concat_bytes zs),
      )

  cut-bounded :
      (avail : Difference)
      → IsTemplate
      → suc n ≤ 508
      → avail ≡ record { have = 508; spent = suc n + length (quote plain_of) }
      → is_negative avail ≡ true
      → (sep' : Option Bytes)
      → let t = elim sep' as (λ _. Bytes) [
        | none ↦ plain_of
        | some _ ↦ format s (map no_bytes xs)
      ] in
        length (trim t (characters t + avail.have - avail.spent)) + suc n ≤ 508
  cut-bounded avail template short e negative none =
      rw e (template-bounded plain_of n _ short (omega (arith, template.quoted)))
  cut-bounded avail template short e negative (some x) = rw e (
      template-bounded (format s (map no_bytes xs)) n _ short
        (omega (arith, template.quoted, template.once (map no_bytes xs), total-none xs)))

-- With the prefix known, a message that is put together from a template and a list has at most 508
-- bytes with the prefix, in each way of sharing the room; an equal division needs room for the
-- separators between the entries.
pub assemble_list-bounded :
    (quote : Bytes → Bytes) (safe : Bytes → Difference) (format : Bytes → List Bytes → Bytes)
    (n : ℕ) (sharing : Sharing) (sep : Option Bytes) (s : Bytes) (xs : List Bytes) (m : Bytes)
    → IsTemplate quote safe format n s sep xs
    → suc n ≤ 508
    → IsRoomy sharing sep
        (508 - (suc n + length (quote (plain_of quote safe format n s sep xs))))
        xs
    → assemble_list quote safe format (some (suc n)) sharing sep s xs ≡ some m
    → length m + suc n ≤ 508
unfolding assemble_list available
assemble_list-bounded quote safe format n sharing sep s xs m template short roomy e =
    let plain = plain_of quote safe format n s sep xs in
    elim (Bool-cases (ltb 508 (suc n + length (quote plain)))) [
      | inl negative ↦
          let cut =
            cut-bounded quote safe format n s sep xs
              (record { have = 508; spent = suc n + length (quote plain) }) template short refl
              negative sep in
          omega (arith, cut, some-length (rw (assemble_list, negative) at e))
      | inr fits ↦
          filled-bounded quote safe format n s sep xs
            (shared sharing sep (508 - (suc n + length (quote plain))) xs) m template
            (λ zs h. shared-total sharing sep _ xs zs roomy h) (ground (arith, fits))
            (rw (assemble_list, fits) at e)
    ]
