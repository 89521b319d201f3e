-- ===== src/Modules/Registry/Unloading.antt =====
-- util/moduleloader.py: `ModuleRegistry.unload`, called again.
use py_burly_bot.Common.{
  Bool, true, [], ◌∷◌, Text, text_eq, Dict, ◌≡◌, refl, contains, add, ◌||◌, not, arith, eq_iff,
  contains-add, inl, inr, Bool-cases,
}
use py_burly_bot.Modules.Registry.{Registry, unload_each, unload}

module _ {P : Type 0} (has_unload : P → Bool) where
  -- Every activated module of the dictionary has been unloaded.
  abbrev IsUnloaded : Dict Text P → Registry P → Type 0
  IsUnloaded [] r = Unit
  IsUnloaded ((name, p) ∷ d) r =
      ((not (contains name r.activated) || contains name r.unloaded) ≡ true) × IsUnloaded d r

  unloaded_again :
      (d : Dict Text P) (r : Registry P) → IsUnloaded d r → unload_each has_unload d r ≡ ([], r)
  unfolding unload_each
  unloaded_again [] r h = refl
  unloaded_again ((name, p) ∷ d) r h = rw h.0 (unloaded_again d r h.1)

  -- The loop forgets no unloaded module, and activates none.
  unloaded_grows :
      (k : Text) (d : Dict Text P) (r : Registry P)
      → contains k r.unloaded ≡ true
      → contains k (unload_each has_unload d r).1.unloaded ≡ true
  unfolding unload_each
  unloaded_grows k [] r h = h
  unloaded_grows k ((name, p) ∷ d) r h =
      elim (Bool-cases (not (contains name r.activated) || contains name r.unloaded)) [
        | inl e ↦ rw e (unloaded_grows k d r h)
        | inr e ↦ rw e (
            unloaded_grows k d (record r { unloaded = add name r.unloaded })
              (ground (arith, contains-add name k r.unloaded)))
      ]

  activated_stays :
      (d : Dict Text P) (r : Registry P) → (unload_each has_unload d r).1.activated ≡ r.activated
  unfolding unload_each
  activated_stays [] r = refl
  activated_stays ((name, p) ∷ d) r =
      elim (Bool-cases (not (contains name r.activated) || contains name r.unloaded)) [
        | inl e ↦ rw e (activated_stays d r)
        | inr e ↦ rw e (activated_stays d (record r { unloaded = add name r.unloaded }))
      ]

  imported_stays :
      (d : Dict Text P) (r : Registry P) → (unload_each has_unload d r).1.imported ≡ r.imported
  unfolding unload_each
  imported_stays [] r = refl
  imported_stays ((name, p) ∷ d) r =
      elim (Bool-cases (not (contains name r.activated) || contains name r.unloaded)) [
        | inl e ↦ rw e (imported_stays d r)
        | inr e ↦ rw e (imported_stays d (record r { unloaded = add name r.unloaded }))
      ]

  all-IsUnloaded : (d : Dict Text P) (r : Registry P) → IsUnloaded d (unload_each has_unload d r).1
  unfolding unload_each
  all-IsUnloaded [] r = tt
  all-IsUnloaded ((name, p) ∷ d) r =
      elim (Bool-cases (not (contains name r.activated) || contains name r.unloaded)) [
        | inl e ↦
            rw e
              (ground (arith, e, activated_stays d r, unloaded_grows name d r), all-IsUnloaded d r)
        | inr e ↦
            let r' = record r { unloaded = add name r.unloaded } in
            rw e (
              ground (
                arith,
                unloaded_grows name d r',
                contains-add name name r.unloaded,
                eq_iff name name,
              ),
              all-IsUnloaded d r',
            )
      ]

  -- A second `unload` calls no module again and changes nothing.
  pub unload_twice :
      (r : Registry P) → unload has_unload (unload has_unload r).1 ≡ ([], (unload has_unload r).1)
  unfolding unload
  unload_twice r =
      let r' = (unload_each has_unload r.imported r).1 in
      unloaded_again r'.imported r' (rw (imported_stays r.imported r) (all-IsUnloaded r.imported r))
