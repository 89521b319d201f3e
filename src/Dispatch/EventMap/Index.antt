-- ===== src/Dispatch/EventMap/Index.antt =====
-- util/dispatcher.py: the event map beside the mappings that the modules declare.
use mathlib.Core.List.{append_assoc, append-nil}
use py_burly_bot.Common.{
  Bool, true, false, List, [], ◌∷◌, ◌++◌, Text, text_eq, ◌==◌, Dict, lookup, insert, ◌≡◌, refl, ap,
  ◌∙◌, sym, if◌then◌else◌, sort_by, lookup-insert, arith, inl, inr, select, Bool-cases, eq_iff,
}
use py_burly_bot.Dispatch.Mappings.{Mapping}
use py_burly_bot.Dispatch.EventMap.{
  Group, EventMap, list_or_nil, is_instant, is_regex, commands_of, add_commands, add_to_group,
  add_types, add_mappings, add_modules, by_priority, sort_commands, sort_group, sort_groups,
  build_event_map, group_of, commands_for,
}

module _ {R F : Type 0} (lower : Text → Text) where
  -- The mapping, once for each of its names that is `key` in lower case.
  unfoldable pub times_named : Text → List Text → Mapping R F → List (Mapping R F)
  times_named key [] m = []
  times_named key (name ∷ names) m =
      if lower name == key then m ∷ times_named key names m else times_named key names m

  -- The declared mappings of one event type, in the order of declaration.
  unfoldable pub declared : Text → List (Mapping R F) → List (Mapping R F)
  unfolding times_named
  declared t [] = []
  declared t (m ∷ ms) = times_named t m.types m ++ declared t ms

  unfoldable pub all_declared : Text → List (List (Mapping R F)) → List (Mapping R F)
  unfolding declared
  all_declared t [] = []
  all_declared t (ms ∷ modules) = declared t ms ++ all_declared t modules

  -- Those of them that a command invokes.
  unfoldable pub invoked_by : Text → List (Mapping R F) → List (Mapping R F)
  unfolding times_named
  invoked_by c [] = []
  invoked_by c (m ∷ ms) = times_named c (commands_of m) m ++ invoked_by c ms

  commands-add_commands :
      (m : Mapping R F) (c : Text) (cs : List Text) (d : Dict Text (List (Mapping R F)))
      → list_or_nil (lookup c (add_commands lower m cs d))
        ≡ list_or_nil (lookup c d) ++ times_named c cs m
  unfolding add_commands times_named
  commands-add_commands m c [] d = sym (append-nil (list_or_nil (lookup c d)))
  commands-add_commands m c (x ∷ xs) d = elim (Bool-cases (lower x == c)) [
    | inl e ↦
        let same : lower x ≡ c = (eq_iff (lower x) c).0 e in
        commands-add_commands m c xs _
        ∙ rw
            (
              lookup-insert,
              e,
              same,
              append_assoc (list_or_nil (lookup c d)) (m ∷ []) (times_named c xs m),
            )
            refl
    | inr e ↦ commands-add_commands m c xs _ ∙ rw (lookup-insert, e) refl
  ]

group_of-insert :
    {R F : Type 0} (k t : Text) (g : Group R F) (em : EventMap R F)
    → group_of t (insert k g em) ≡ (if k == t then g else group_of t em)
group_of-insert k t g em = ground (arith, lookup-insert k t g em)

-- The pieces of all the mappings, joined.
flat : {R F : Type 0} → (Mapping R F → List (Mapping R F)) → List (Mapping R F) → List (Mapping R F)
flat pick [] = []
flat pick (m ∷ ms) = pick m ++ flat pick ms

-- A view of a group to which every mapping adds what `pick` says.
module _ {R F : Type 0} (lower : Text → Text) (view : Group R F → List (Mapping R F))
    (pick : Mapping R F → List (Mapping R F))
    (step : (m : Mapping R F) (g : Group R F)
      → view (add_to_group lower m g) ≡ view g ++ pick m) where
  abbrev picked : List (Mapping R F) → List (Mapping R F)
  picked = flat pick

  picked-append : (xs ys : List (Mapping R F)) → picked (xs ++ ys) ≡ picked xs ++ picked ys
  unfolding flat
  picked-append [] ys = refl
  picked-append (x ∷ xs) ys =
      rw (picked-append xs ys) (sym (append_assoc (pick x) (picked xs) (picked ys)))

  view-add_types :
      (t : Text) (m : Mapping R F) (ts : List Text) (em : EventMap R F)
      → view (group_of t (add_types lower m ts em))
        ≡ view (group_of t em) ++ picked (times_named lower t ts m)
  unfolding add_types times_named flat
  view-add_types t m [] em = sym (append-nil (view (group_of t em)))
  view-add_types t m (x ∷ xs) em = elim (Bool-cases (lower x == t)) [
    | inl e ↦
        let same : lower x ≡ t = (eq_iff (lower x) t).0 e in
        view-add_types t m xs _
        ∙ rw
            (
              group_of-insert,
              e,
              same,
              step m (group_of t em),
              append_assoc (view (group_of t em)) (pick m) (picked (times_named lower t xs m)),
            )
            refl
    | inr e ↦ view-add_types t m xs _ ∙ rw (group_of-insert, e) refl
  ]

  view-add_mappings :
      (t : Text) (ms : List (Mapping R F)) (em : EventMap R F)
      → view (group_of t (add_mappings lower ms em))
        ≡ view (group_of t em) ++ picked (declared lower t ms)
  unfolding add_mappings declared flat
  view-add_mappings t [] em = sym (append-nil (view (group_of t em)))
  view-add_mappings t (m ∷ ms) em =
      view-add_mappings t ms (add_types lower m m.types em)
      ∙ rw
          (
            view-add_types t m m.types em,
            append_assoc (view (group_of t em)) (picked (times_named lower t m.types m))
                (picked (declared lower t ms)),
            picked-append (times_named lower t m.types m) (declared lower t ms),
          )
          refl

  view-add_modules :
      (t : Text) (modules : List (List (Mapping R F))) (em : EventMap R F)
      → view (group_of t (add_modules lower modules em))
        ≡ view (group_of t em) ++ picked (all_declared lower t modules)
  unfolding add_modules all_declared flat
  view-add_modules t [] em = sym (append-nil (view (group_of t em)))
  view-add_modules t (ms ∷ modules) em =
      view-add_modules t modules (add_mappings lower ms em)
      ∙ rw
          (
            view-add_mappings t ms em,
            append_assoc (view (group_of t em)) (picked (declared lower t ms))
                (picked (all_declared lower t modules)),
            picked-append (declared lower t ms) (all_declared lower t modules),
          )
          refl

-- The parts of a group, as views.
module _ {R F : Type 0} (lower : Text → Text) where
  abbrev once : Bool → Mapping R F → List (Mapping R F)
  once true m = m ∷ []
  once false m = []

  append-once :
      (b : Bool) (m : Mapping R F) (xs : List (Mapping R F))
      → (if b then xs ++ m ∷ [] else xs) ≡ xs ++ once b m
  append-once true m xs = refl
  append-once false m xs = sym (append-nil xs)

  picked-select :
      (p : Mapping R F → Bool) (ms : List (Mapping R F)) → flat (λ m. once (p m) m) ms ≡ select p ms
  unfolding select flat
  picked-select p [] = refl
  picked-select p (m ∷ ms) = elim (Bool-cases (p m)) [
    | inl e ↦ rw (e, picked-select p ms) refl
    | inr e ↦ rw (e, picked-select p ms) refl
  ]

  picked-invoked_by :
      (c : Text) (ms : List (Mapping R F))
      → flat (λ m. times_named lower c (commands_of m) m) ms ≡ invoked_by lower c ms
  unfolding invoked_by flat
  picked-invoked_by c [] = refl
  picked-invoked_by c (m ∷ ms) = rw (picked-invoked_by c ms) refl

  group_of-sort_groups :
      (t : Text) (em : EventMap R F) → group_of t (sort_groups em) ≡ sort_group (group_of t em)
  unfolding lookup sort_groups
  group_of-sort_groups t [] = unfold sort_group sort_commands sort_by in refl
  group_of-sort_groups t ((k, g) ∷ em) = ground (arith, group_of-sort_groups t em)

  lookup-sort_commands :
      (c : Text) (d : Dict Text (List (Mapping R F)))
      → list_or_nil (lookup c (sort_commands d)) ≡ by_priority (list_or_nil (lookup c d))
  unfolding lookup sort_commands
  lookup-sort_commands c [] = unfold sort_by in refl
  lookup-sort_commands c ((k, ms) ∷ d) = ground (arith, lookup-sort_commands c d)

  -- The event map that `_build_event_map` leaves is the index of what the active modules declare:
  -- for each event type, its instant and its regex mappings, and for each command those that the
  -- command invokes, each list sorted by priority and otherwise in the order of declaration.
  pub build_event_map-index :
      (modules : List (List (Mapping R F))) (t c : Text)
      → let em = build_event_map lower modules [] in
        let ms = all_declared lower t modules in
        ((group_of t em).instant ≡ by_priority (select is_instant ms))
        × ((group_of t em).regex ≡ by_priority (select is_regex ms))
        × (commands_for t c em ≡ by_priority (invoked_by lower c ms))
  unfolding build_event_map sort_group
  build_event_map-index modules t c = (
    rw (group_of-sort_groups t (add_modules lower modules [])) (
        ap by_priority (
          view-add_modules lower (λ g. g.instant) (λ m. once (is_instant m) m)
            (λ m g. unfold add_to_group in append-once (is_instant m) m g.instant) t modules []
          ∙ (unfold lookup in picked-select is_instant (all_declared lower t modules)))),
    rw (group_of-sort_groups t (add_modules lower modules [])) (
        ap by_priority (
          view-add_modules lower (λ g. g.regex) (λ m. once (is_regex m) m)
            (λ m g. unfold add_to_group in append-once (is_regex m) m g.regex) t modules []
          ∙ (unfold lookup in picked-select is_regex (all_declared lower t modules)))),
    rw (group_of-sort_groups t (add_modules lower modules [])) (
        lookup-sort_commands c (group_of t (add_modules lower modules [])).command
        ∙ ap by_priority (
            view-add_modules lower (λ g. list_or_nil (lookup c g.command))
              (λ m. times_named lower c (commands_of m) m)
              (λ m g.
                unfold add_to_group in commands-add_commands lower m c (commands_of m) g.command)
              t modules []
            ∙ (unfold lookup in picked-invoked_by c (all_declared lower t modules)))),
  )
