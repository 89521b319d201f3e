-- ===== src/Modules/Load/Fuel.antt =====
-- util/dispatcher.py: how deep `load_module` follows the requirements.
use py_burly_bot.Common.{
  ℕ, zero, suc, ◌≤◌, ◌<◌, Bool, true, false, List, [], ◌∷◌, ◌++◌, Option, none, some, Text, text_eq,
  ◌==◌, has_key, ◌≡◌, refl, length, select, contains, ◌||◌, not, arith, eq_iff, inl, inr,
  Bool-cases,
}
use py_burly_bot.Modules.Load.{
  Env, World, Missing, finish, Loaded, modules, load_requirements, imported, attempt, load_module,
  load_all, reload, note_error,
}
use py_burly_bot.Modules.Registry.{not_allowed, circular}

contains-snoc :
    (k x : Text) (xs : List Text) → contains k (xs ++ x ∷ []) ≡ (contains k xs || x == k)
unfolding contains
contains-snoc k x [] = ground arith
contains-snoc k x (y ∷ ys) = ground (arith, contains-snoc k x ys)

-- The allowed modules that are not among the parents.
abbrev pub fresh_among : List Text → List Text → ℕ
fresh_among parents allowed = length (select (λ m. not (contains m parents)) allowed)

fresh-le :
    (parents : List Text) (name : Text) (allowed : List Text)
    → fresh_among (parents ++ name ∷ []) allowed ≤ fresh_among parents allowed
unfolding select
fresh-le parents name [] = omega arith
fresh-le parents name (m ∷ ms) =
    ground (arith, fresh-le parents name ms, contains-snoc m name parents)

-- A module that joins the parents leaves fewer.
fresh-lt :
    (parents : List Text) (name : Text) (allowed : List Text)
    → contains name allowed ≡ true
    → contains name parents ≡ false
    → fresh_among (parents ++ name ∷ []) allowed < fresh_among parents allowed
unfolding select contains
fresh-lt parents name [] h k = absurd (cc)
fresh-lt parents name (m ∷ ms) h k = elim (Bool-cases (m == name)) [
  | inl e ↦
      let same : m ≡ name = (eq_iff m name).0 e in
      ground (arith, fresh-le parents name ms, contains-snoc m name parents, same)
  | inr e ↦
      ground (
        arith,
        fresh-lt parents name ms,
        contains-snoc m name parents,
        eq_iff name m,
        eq_iff m name,
      )
]

module _ {P S : Type 0} (env : Env P S) where
  requirements_end :
      (load : Text → World P S → Loaded P S)
      → ((k : Text) (w : World P S) → (r : Bool × World P S) × (load k w ≡ some r))
      → (names : List Text) (before : Missing) (w : World P S)
      → (r : Missing × World P S) × (load_requirements env load names before w ≡ some r)
  unfolding load_requirements
  requirements_end load ends [] before w = ((before, w), refl)
  requirements_end load ends (name ∷ names) before w =
      elim (Bool-cases (has_key name (modules env w))) [
        | inl have ↦ rw have (requirements_end load ends names before w)
        | inr lack ↦ elim (Bool-cases (not (contains name env.allowed))) [
          | inl out ↦ rw (lack, out) (requirements_end load ends names _ w)
          | inr in_list ↦
              let ((done, w₁), ran) = ends name w in
              rw (lack, in_list, load_requirements, ran) (requirements_end load ends names _ w₁)
        ]
      ]

  attempt_ends :
      (load : Text → World P S → Loaded P S)
      → ((k : Text) (w : World P S) → (r : Bool × World P S) × (load k w ≡ some r))
      → (name : Text) (w : World P S) (o : Option P)
      → (r : Bool × World P S) × (attempt env load name w o ≡ some r)
  attempt_ends load ends name w none = ((false, w), refl)
  attempt_ends load ends name w (some p) =
      let (r, e) =
        requirements_end load ends (env.requires p) (record { notallowed = []; failures = [] }) w in
      rw e (finish env name p r, refl)

  -- With fuel above the number of allowed modules that are not parents, every load returns.
  pub load_module-ends :
      (fuel : ℕ) (name : Text) (parents : List Text) (w : World P S)
      → fresh_among parents env.allowed < fuel
      → (r : Bool × World P S) × (load_module env fuel name parents w ≡ some r)
  unfolding load_module
  load_module-ends zero name parents w h = absurd (omega arith)
  load_module-ends (suc fuel) name parents w h = elim (Bool-cases (has_key name (modules env w))) [
    | inl have ↦ rw have ((true, w), refl)
    | inr lack ↦ elim (Bool-cases (contains name env.allowed)) [
      | inr out ↦ rw (lack, out) ((false, note_error env name not_allowed w), refl)
      | inl in_list ↦ elim (Bool-cases (contains name parents)) [
        | inl again ↦ rw (lack, in_list, again) ((false, note_error env name circular w), refl)
        | inr deeper ↦
            rw (lack, in_list, deeper)
              (attempt_ends (λ k. load_module env fuel k (parents ++ name ∷ []))
                (λ k w'.
                  load_module-ends fuel k (parents ++ name ∷ []) w'
                    (omega (arith, fresh-lt parents name env.allowed in_list deeper)))
                name (imported env name w).1 (imported env name w).0)
      ]
    ]
  ]

  load_all-ends :
      (fuel : ℕ) (names : List Text) (w : World P S)
      → fresh_among [] env.allowed < fuel
      → (w' : World P S) × (load_all env fuel names w ≡ some w')
  unfolding load_all
  load_all-ends fuel [] w h = (w, refl)
  load_all-ends fuel (name ∷ names) w h = elim (Bool-cases (contains name env.allowed)) [
    | inr out ↦ rw out (load_all-ends fuel names w h)
    | inl in_list ↦
        let ((done, w₁), ran) = load_module-ends fuel name [] w h in
        rw (in_list, load_all, ran) (load_all-ends fuel names w₁ h)
  ]

  select_all : (ms : List Text) → select (λ m. not (contains m [])) ms ≡ ms
  unfolding select contains
  select_all [] = refl
  select_all (m ∷ ms) = rw (select_all ms) refl

  -- A reload always ends, whatever the modules require of one another, circles included: the fuel
  -- that is one more than the number of allowed modules is enough.
  pub reload-ends :
      (load_order : List Text) (w : World P S)
      → (w' : World P S) × (reload env (suc (length env.allowed)) load_order w ≡ some w')
  unfolding reload
  reload-ends load_order w =
      load_all-ends (suc (length env.allowed)) load_order _
        (rw (select_all env.allowed) (omega arith))
