-- ===== src/Common/Texts.antt =====
-- What the source uses of Python's `str`, on lists of code points.
use mathlib.Core.Path.{◌≡◌, refl, sym, ap, ◌∙◌}
use mathlib.Core.Bool.{Bool, true, false, true, false, ◌||◌, ◌&&◌}
use mathlib.Core.Logic.{◌⊎◌, inl, inr}
use mathlib.Core.List.{List, [], ◌∷◌, ◌++◌, reverse, append-nil, append_assoc}
use native.Mathlib.Omega.{arith}
use py_burly_bot.Common.Tests.{
  Text, ltb, nat_beq, nat_beq_iff, nat_eq, text_eq, ◌==◌, if◌then◌else◌, Bool-cases,
}
use Prim.Native.Nat.{ℕ}
use py_burly_bot.Common.Lists.{All}
use py_burly_bot.Common.Dicts.{contains}

-- `s.startswith(p)`
unfoldable pub starts_with : Text → Text → Bool
starts_with s [] = true
starts_with [] (y ∷ ys) = false
starts_with (x ∷ xs) (y ∷ ys) = nat_beq x y && starts_with xs ys

-- `p in s`, a substring test
unfoldable pub is_substring : Text → Text → Bool
unfolding starts_with
is_substring p [] = starts_with [] p
is_substring p (x ∷ xs) = starts_with (x ∷ xs) p || is_substring p xs

-- `s.split(sep)` for one character, with the part that has been read so far
unfoldable pub split_on : ℕ → Text → Text → List Text
split_on sep part [] = part ∷ []
split_on sep part (c ∷ cs) = elim (nat_beq c sep) [
  | true ↦ part ∷ split_on sep [] cs
  | false ↦ split_on sep (part ++ c ∷ []) cs
]

-- `sep.join(texts)`
unfoldable pub join_with : Text → List Text → Text
join_with sep [] = []
join_with sep (x ∷ []) = x
join_with sep (x ∷ y ∷ ys) = x ++ (sep ++ join_with sep (y ∷ ys))

-- A text in which the character does not stand.
abbrev pub IsWithout : ℕ → Text → Type 0
IsWithout c [] = Unit
IsWithout c (d ∷ ds) = (nat_beq d c ≡ false) × IsWithout c ds

split_on-other :
    (sep c : ℕ) (part cs : Text)
    → nat_beq c sep ≡ false
    → split_on sep part (c ∷ cs) ≡ split_on sep (part ++ c ∷ []) cs
unfolding split_on
split_on-other sep c part cs h = rw (split_on, h) refl

split_on-same :
    (sep : ℕ) (part cs : Text) → split_on sep part (sep ∷ cs) ≡ part ∷ split_on sep [] cs
unfolding split_on
split_on-same sep part cs = rw (split_on, (nat_beq_iff sep sep).1 refl) refl

split_on-last : (sep : ℕ) (part x : Text) → IsWithout sep x → split_on sep part x ≡ (part ++ x) ∷ []
split_on-last sep part [] h = unfold split_on in ap (λ l. l ∷ []) (sym (append-nil part))
split_on-last sep part (c ∷ cs) h =
    split_on-other sep c part cs h.0
    ∙ split_on-last sep (part ++ c ∷ []) cs h.1
    ∙ ap (λ l. l ∷ []) (append_assoc part (c ∷ []) cs)

split_on-part :
    (sep : ℕ) (part x rest : Text)
    → IsWithout sep x
    → split_on sep part (x ++ sep ∷ rest) ≡ (part ++ x) ∷ split_on sep [] rest
split_on-part sep part [] rest h =
    split_on-same sep part rest ∙ ap (λ l. l ∷ split_on sep [] rest) (sym (append-nil part))
split_on-part sep part (c ∷ cs) rest h =
    split_on-other sep c part (cs ++ sep ∷ rest) h.0
    ∙ split_on-part sep (part ++ c ∷ []) cs rest h.1
    ∙ ap (λ l. l ∷ split_on sep [] rest) (append_assoc part (c ∷ []) cs)

-- Texts without the separator are split as they were joined.
pub split_on-join_with :
    (sep : ℕ) (x : Text) (xs : List Text)
    → IsWithout sep x
    → All (IsWithout sep) xs
    → split_on sep [] (join_with (sep ∷ []) (x ∷ xs)) ≡ x ∷ xs
unfolding join_with
split_on-join_with sep x [] h hs = split_on-last sep [] x h
split_on-join_with sep x (y ∷ ys) h hs =
    split_on-part sep [] x (join_with (sep ∷ []) (y ∷ ys)) h
    ∙ ap (λ l. x ∷ l) (split_on-join_with sep y ys hs.0 hs.1)

-- `s.lstrip(chars)`
unfoldable pub lstrip : Text → Text → Text
unfolding contains
lstrip chars [] = []
lstrip chars (x ∷ xs) = let rest = lstrip chars xs in if contains x chars then rest else x ∷ xs

-- `s.rstrip(chars)`
unfoldable pub rstrip : Text → Text → Text
unfolding lstrip
rstrip chars s = reverse (lstrip chars (reverse s))

-- the order of `str`: by code points
unfoldable pub text_leb : Text → Text → Bool
text_leb [] ys = true
text_leb (x ∷ xs) [] = false
text_leb (x ∷ xs) (y ∷ ys) = if ltb x y then true else nat_beq x y && text_leb xs ys

unfoldable pub insert_text : Text → List Text → List Text
unfolding text_leb
insert_text x [] = x ∷ []
insert_text x (y ∷ ys) = if text_leb x y then x ∷ y ∷ ys else y ∷ insert_text x ys

-- `sorted(texts)`
unfoldable pub sort_texts : List Text → List Text
unfolding insert_text
sort_texts [] = []
sort_texts (x ∷ xs) = insert_text x (sort_texts xs)

contains-insert_text :
    (k x : Text) (xs : List Text) → contains k (insert_text x xs) ≡ (x == k || contains k xs)
unfolding insert_text contains
contains-insert_text k x [] = refl
contains-insert_text k x (y ∷ ys) = ground (arith, contains-insert_text k x ys)

-- Sorting changes no membership.
pub contains-sort_texts : (k : Text) (xs : List Text) → contains k (sort_texts xs) ≡ contains k xs
unfolding sort_texts contains
contains-sort_texts k [] = refl
contains-sort_texts k (x ∷ xs) =
    ground (arith, contains-insert_text k x (sort_texts xs), contains-sort_texts k xs)

-- The result is in order: each text is at most the next.
abbrev pub IsOrdered : List Text → Type 0
IsOrdered [] = Unit
IsOrdered (x ∷ []) = Unit
IsOrdered (x ∷ y ∷ ys) = (text_leb x y ≡ true) × IsOrdered (y ∷ ys)

text_leb_total : (x y : Text) → text_leb x y ≡ false → text_leb y x ≡ true
unfolding text_leb
text_leb_total [] y h = absurd (ground arith)
text_leb_total (x ∷ xs) [] h = refl
text_leb_total (x ∷ xs) (y ∷ ys) h = ground (arith, text_leb_total xs ys)

insert_text-IsOrdered : (x : Text) (xs : List Text) → IsOrdered xs → IsOrdered (insert_text x xs)
unfolding insert_text
insert_text-IsOrdered x [] h = tt
insert_text-IsOrdered x (y ∷ []) h = elim (Bool-cases (text_leb x y)) [
  | inl e ↦ rw e (e, tt)
  | inr e ↦ rw e (text_leb_total x y e, tt)
]
insert_text-IsOrdered x (y ∷ z ∷ zs) h = elim (Bool-cases (text_leb x y)) [
  | inl e ↦ rw e (e, h)
  | inr e ↦ rw e (after e (Bool-cases (text_leb x z)) (insert_text-IsOrdered x (z ∷ zs) h.1))
]
  where
    after :
        text_leb x y ≡ false
        → (text_leb x z ≡ true) ⊎ (text_leb x z ≡ false)
        → IsOrdered (insert_text x (z ∷ zs))
        → IsOrdered (y ∷ insert_text x (z ∷ zs))
    after e (inl a) k = rw a (text_leb_total x y e, (a, h.1))
    after e (inr a) k = rw a (h.0, rw a at k)

pub sort_texts-IsOrdered : (xs : List Text) → IsOrdered (sort_texts xs)
unfolding sort_texts
sort_texts-IsOrdered [] = tt
sort_texts-IsOrdered (x ∷ xs) = insert_text-IsOrdered x (sort_texts xs) (sort_texts-IsOrdered xs)
