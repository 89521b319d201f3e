-- ===== src/Common/Dicts.antt =====
-- Python's `dict` and `set` as association lists and lists, in insertion order.
use mathlib.Core.Path.{◌≡◌, refl}
use mathlib.Core.Bool.{Bool, true, false, ◌||◌}
use mathlib.Core.Option.{Option, none, some}
use mathlib.Core.List.{List, [], ◌∷◌}
use native.Mathlib.Omega.{arith}
use py_burly_bot.Common.Tests.{Key, ◌==◌, eq_iff, if◌then◌else◌, Bool-cases}
use mathlib.Core.Logic.{inl, inr}

abbrev pub Dict {ℓ κ} : Type ℓ → Type κ → Type (ℓ ⊔ κ)
Dict K V = List (K × V)

module _ {ℓ κ} {K : Type ℓ} ⦃e : Key K⦄ {V : Type κ} where
  -- `d.get(k)`
  unfoldable pub lookup : K → Dict K V → Option V
  lookup k [] = none
  lookup k ((j, v) ∷ d) = if j == k then some v else lookup k d

  -- `d[k] = v`: an existing key keeps its place
  unfoldable pub insert : K → V → Dict K V → Dict K V
  insert k v [] = (k, v) ∷ []
  insert k v ((j, w) ∷ d) = if j == k then (k, v) ∷ d else (j, w) ∷ insert k v d

  -- `d.pop(k, None)`, `del d[k]`
  unfoldable pub erase : K → Dict K V → Dict K V
  erase k [] = []
  erase k ((j, w) ∷ d) = let rest = erase k d in if j == k then rest else (j, w) ∷ rest

  -- `{**d, **more}`
  unfoldable pub merge : Dict K V → Dict K V → Dict K V
  unfolding insert
  merge [] d = d
  merge ((k, v) ∷ more) d = merge more (insert k v d)

  -- `k in d`
  abbrev pub has_key : K → Dict K V → Bool
  has_key k d = elim (lookup k d) [ none ↦ false | some _ ↦ true ]

  pub lookup-insert :
      (k j : K) (v : V) (d : Dict K V)
      → lookup j (insert k v d) ≡ (if k == j then some v else lookup j d)
  unfolding lookup insert
  lookup-insert k j v [] = refl
  lookup-insert k j v ((i, w) ∷ d) =
      ground (arith, eq_iff k j, eq_iff i k, eq_iff i j, lookup-insert k j v d)

  pub lookup-insert_same : (k : K) (v : V) (d : Dict K V) → lookup k (insert k v d) ≡ some v
  lookup-insert_same k v d = ground (arith, lookup-insert k k v d, eq_iff k k)

  pub lookup-insert_other :
      (k j : K) (v : V) (d : Dict K V) → (k == j) ≡ false → lookup j (insert k v d) ≡ lookup j d
  lookup-insert_other k j v d h = ground (arith, lookup-insert k j v d, h)

  pub lookup-erase :
      (k j : K) (d : Dict K V) → lookup j (erase k d) ≡ (if k == j then none else lookup j d)
  unfolding lookup erase
  lookup-erase k j [] = ground arith
  lookup-erase k j ((i, w) ∷ d) =
      ground (arith, eq_iff k j, eq_iff i k, eq_iff i j, lookup-erase k j d)

  -- No key stands twice, as in every `dict`.
  abbrev pub IsDistinct : Dict K V → Type κ
  IsDistinct [] = Unit {κ}
  IsDistinct ((k, v) ∷ d) = (lookup k d ≡ none) × IsDistinct d

  pub insert-IsDistinct : (k : K) (v : V) (d : Dict K V) → IsDistinct d → IsDistinct (insert k v d)
  unfolding insert
  insert-IsDistinct k v [] h = (unfold lookup in refl, tt)
  insert-IsDistinct k v ((i, w) ∷ d) h = elim (Bool-cases (i == k)) [
    | inl x ↦ rw x (rw (← (eq_iff i k).0 x) h.0, h.1)
    | inr x ↦ rw x (
      ground (arith, lookup-insert k i v d, eq_iff k i, eq_iff i k, h.0),
      insert-IsDistinct k v d h.1,
    )
  ]

  pub erase-IsDistinct : (k : K) (d : Dict K V) → IsDistinct d → IsDistinct (erase k d)
  unfolding erase
  erase-IsDistinct k [] h = tt
  erase-IsDistinct k ((i, w) ∷ d) h = elim (Bool-cases (i == k)) [
    | inl x ↦ rw x (erase-IsDistinct k d h.1)
    | inr x ↦ rw x (ground (arith, lookup-erase k i d, h.0), erase-IsDistinct k d h.1)
  ]

module _ {ℓ} {K : Type ℓ} ⦃e : Key K⦄ where
  -- `x in s`
  unfoldable pub contains : K → List K → Bool
  contains k [] = false
  contains k (x ∷ xs) = x == k || contains k xs

  -- `s.add(x)`
  unfoldable pub add : K → List K → List K
  unfolding contains
  add k xs = if contains k xs then xs else k ∷ xs

  -- `s.discard(x)`
  unfoldable pub discard : K → List K → List K
  discard k [] = []
  discard k (x ∷ xs) = let rest = discard k xs in if x == k then rest else x ∷ rest

  pub contains-add : (k j : K) (xs : List K) → contains j (add k xs) ≡ (k == j || contains j xs)
  unfolding add
  contains-add k j xs = ground (arith, eq_iff k j)

  pub contains-discard :
      (k j : K) (xs : List K)
      → contains j (discard k xs) ≡ (if k == j then false else contains j xs)
  unfolding contains discard
  contains-discard k j [] = ground arith
  contains-discard k j (x ∷ xs) =
      ground (arith, eq_iff k j, eq_iff x k, eq_iff x j, contains-discard k j xs)

  pub contains-nil : (xs : List K) → ((k : K) → contains k xs ≡ false) → xs ≡ []
  unfolding contains
  contains-nil [] h = refl
  contains-nil (x ∷ xs) h = absurd (ground (arith, h x, eq_iff x x))
