-- ===== src/Dispatch/Commands.antt =====
-- util/helpers.py: `commandSplit` for one argument, over Python's `str.split(None, 1)`.
use py_burly_bot.Common.{
  ℕ, Bool, false, List, [], ◌∷◌, Option, none, some, Text, ◌≡◌, ◌≢◌, refl, arith, if◌then◌else◌,
  leb, ◌||◌, ◌&&◌, Bool-cases, ◌⊎◌, inl, inr, any, nat_beq, not,
}

-- the white space of `str.split`
unfoldable pub is_space : ℕ → Bool
is_space c =
    leb 9 c && leb c 13
    || leb 28 c && leb c 32
    || nat_beq c 133
    || nat_beq c 160
    || nat_beq c 5760
    || leb 8192 c && leb c 8202
    || nat_beq c 8232
    || nat_beq c 8233
    || nat_beq c 8239
    || nat_beq c 8287
    || nat_beq c 12288

unfoldable pub skip_space : Text → Text
skip_space [] = []
skip_space (c ∷ cs) = let rest = skip_space cs in if is_space c then rest else c ∷ cs

-- the word at the start, and what follows it
unfoldable pub take_word : Text → Text × Text
take_word [] = ([], [])
take_word (c ∷ cs) =
    let rest = take_word cs in if is_space c then ([], c ∷ cs) else (c ∷ rest.0, rest.1)

abbrev pub parts_of : Text → Text → List Text
parts_of word [] = word ∷ []
parts_of word (c ∷ cs) = word ∷ (c ∷ cs) ∷ []

abbrev pub split_word : Text → List Text
split_word [] = []
split_word (c ∷ cs) = let (word, rest) = take_word (c ∷ cs) in parts_of word (skip_space rest)

-- `s.split(None, 1)`
unfoldable pub split_once : Text → List Text
unfolding skip_space take_word
split_once s = split_word (skip_space s)

-- What `commandSplit(s)` returns, or the `IndexError` of `parts[0]`.
pub data Split : Type 0 where
  nothing : Split
  command : Text → Option Text → Split
  index_error : Split

abbrev pub split_of : List Text → Split
split_of [] = index_error
split_of (c ∷ []) = command c none
split_of (c ∷ a ∷ rest) = command c (some a)

-- `commandSplit(s)` with `nargs=1`
unfoldable pub command_split : Text → Split
unfolding split_once
command_split [] = nothing
command_split (c ∷ cs) = split_of (split_once (c ∷ cs))

skip_space-blank : (s : Text) → any (λ c. not (is_space c)) s ≡ false → skip_space s ≡ []
unfolding skip_space any
skip_space-blank [] h = refl
skip_space-blank (c ∷ cs) h = ground (arith, skip_space-blank cs)

-- `commandSplit` raises on every text of white space that is not empty.
pub command_split-blank :
    (c : ℕ) (cs : Text)
    → any (λ x. not (is_space x)) (c ∷ cs) ≡ false
    → command_split (c ∷ cs) ≡ index_error
unfolding command_split
command_split-blank c cs h = rw (skip_space-blank (c ∷ cs) h, split_once) refl

no-space-skip : (s : Text) → any is_space (take_word s).0 ≡ false
unfolding take_word any
no-space-skip [] = refl
no-space-skip (c ∷ cs) = ground (arith, no-space-skip cs)

head_word : (c : ℕ) (cs : Text) → is_space c ≡ false → (take_word (c ∷ cs)).0 ≡ c ∷ (take_word cs).0
unfolding take_word
head_word c cs h = ground arith

skip_space-cases :
    (s : Text)
    → (skip_space s ≡ []) ⊎ ((c : ℕ) × (cs : Text) × (skip_space s ≡ c ∷ cs) × (is_space c ≡ false))
unfolding skip_space
skip_space-cases [] = inl refl
skip_space-cases (c ∷ cs) = elim (Bool-cases (is_space c)) [
  | inl e ↦ rw e (skip_space-cases cs)
  | inr e ↦ rw e (inr (c, cs, refl, e))
]

-- A command that `commandSplit` finds has no white space in it and is not empty, and an argument
-- that it finds is not empty.
pub command_split_lem :
    (s c : Text) (a : Option Text)
    → command_split s ≡ command c a
    → (any is_space c ≡ false) × (c ≢ []) × (a ≢ some [])
unfolding command_split split_once
command_split_lem [] c a h = absurd (cc)
command_split_lem (x ∷ xs) c a h = elim (skip_space-cases (x ∷ xs)) [
  | inl e ↦ absurd (blank (rw e at h))
  | inr (y, ys, e, p) ↦ worded y ys p (rw e at h)
]
  where
    blank : split_of (split_word []) ≡ command c a → ⊥
    blank h = cc

    parts :
        (word rest : Text)
        → word ≢ []
        → any is_space word ≡ false
        → split_of (parts_of word rest) ≡ command c a
        → (any is_space c ≡ false) × (c ≢ []) × (a ≢ some [])
    parts word [] full clean h = ground arith
    parts word (r ∷ rs) full clean h = ground arith

    worded :
        (y : ℕ) (ys : Text)
        → is_space y ≡ false
        → split_of (split_word (y ∷ ys)) ≡ command c a
        → (any is_space c ≡ false) × (c ≢ []) × (a ≢ some [])
    worded y ys p h =
        parts (take_word (y ∷ ys)).0 (skip_space (take_word (y ∷ ys)).1)
          (λ e. cc (e, head_word y ys p)) (no-space-skip (y ∷ ys)) h
