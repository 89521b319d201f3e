-- ===== src/Dispatch/Fire/Order.antt =====
-- util/dispatcher.py: which handlers one event starts, in which order, and the admin test.
use py_burly_bot.Common.{
  Bool, true, false, List, [], ◌∷◌, ◌++◌, Option, none, some, Text, nat_beq, ◌≡◌, refl, sym, arith,
  if◌then◌else◌, ◌||◌, ◌&&◌, not, any, select, map, inl, inr, Bool-cases, Option-cases, All,
}
use py_burly_bot.Dispatch.Mappings.{Mapping}
use py_burly_bot.Dispatch.EventMap.{Group}
use py_burly_bot.Dispatch.Fire.{
  Call, fire_instants, fire_commands, fire_regexes, fire_group, plain, regex_hit,
}

module _ {R F X : Type 0} (search : R → Text → Option X) where
  abbrev pub is_total : Call R F X → Bool
  is_total c = nat_beq c.mapping.priority 0

  -- The calls up to the first of priority 0, which is the last to run.
  unfoldable pub cut : List (Call R F X) → List (Call R F X)
  cut [] = []
  cut (c ∷ cs) = if is_total c then c ∷ [] else c ∷ cut cs

  -- The regex mappings that match, each with its match.
  unfoldable pub hits : Option Text → List (Mapping R F) → List (Call R F X)
  hits msg [] = []
  hits msg (m ∷ ms) = elim (regex_hit search m msg) [
    | none ↦ hits msg ms
    | some x ↦ record { mapping = m; regex_match = some x } ∷ hits msg ms
  ]

  abbrev pub allowed : Bool → Mapping R F → Bool
  allowed admin m = not (m.admin && not admin)

  -- Every handler that is entitled to the event, in the order of dispatch.
  abbrev pub candidates : Bool → Option Text → Group R F → List (Mapping R F) → List (Call R F X)
  candidates admin msg g commands =
      map (plain search) g.instant
      ++ map (plain search) (select (allowed admin) commands)
      ++ hits msg g.regex

  any-append :
      (xs ys : List (Call R F X)) → any is_total (xs ++ ys) ≡ (any is_total xs || any is_total ys)
  unfolding any
  any-append [] ys = refl
  any-append (x ∷ xs) ys = ground (arith, any-append xs ys)

  cut-append :
      (xs ys : List (Call R F X))
      → cut (xs ++ ys) ≡ (if any is_total xs then cut xs else cut xs ++ cut ys)
  unfolding cut any
  cut-append [] ys = refl
  cut-append (x ∷ xs) ys = elim (Bool-cases (is_total x)) [
    | inl e ↦ rw e refl
    | inr e ↦ rw (e, cut-append xs ys) (pull (any is_total xs))
  ]
    where
      pull :
          (b : Bool)
          → x ∷ (if b then cut xs else cut xs ++ cut ys)
            ≡ (if b then x ∷ cut xs else x ∷ (cut xs ++ cut ys))
      pull true = refl
      pull false = refl

  fire_instants-cut :
      (ms : List (Mapping R F))
      → fire_instants search ms
        ≡ (cut (map (plain search) ms), any is_total (map (plain search) ms))
  unfolding fire_instants cut any
  fire_instants-cut [] = refl
  fire_instants-cut (m ∷ ms) = ground (arith, fire_instants-cut ms)

  fire_commands-cut :
      (admin : Bool) (ms : List (Mapping R F))
      → fire_commands search admin ms ≡ (
        cut (map (plain search) (select (allowed admin) ms)),
        any is_total (map (plain search) (select (allowed admin) ms)),
      )
  unfolding fire_commands cut any select
  fire_commands-cut admin [] = refl
  fire_commands-cut admin (m ∷ ms) = elim (Bool-cases (m.admin && not admin)) [
    | inl e ↦ rw e (fire_commands-cut admin ms)
    | inr e ↦ rw e (ground (arith, fire_commands-cut admin ms))
  ]

  fire_regexes-cut :
      (msg : Option Text) (ms : List (Mapping R F)) → fire_regexes search msg ms ≡ cut (hits msg ms)
  unfolding fire_regexes cut hits
  fire_regexes-cut msg [] = refl
  fire_regexes-cut msg (m ∷ ms) = elim (Option-cases (regex_hit search m msg)) [
    | inl e ↦ rw (e, fire_regexes, hits) (fire_regexes-cut msg ms)
    | inr (x, e) ↦ rw (e, fire_regexes, hits) (ground (arith, fire_regexes-cut msg ms))
  ]

  -- One event starts the instant handlers, then the command handlers that an admin test lets pass,
  -- then the matching regex handlers, each list in its order, and stops behind the first handler of
  -- priority 0.
  pub fire_group-cut :
      (admin : Bool) (msg : Option Text) (g : Group R F) (commands : List (Mapping R F))
      → fire_group search admin msg g commands ≡ cut (candidates admin msg g commands)
  unfolding fire_group
  fire_group-cut admin msg g commands =
      rw
        (
          fire_instants-cut g.instant,
          fire_commands-cut admin commands,
          fire_regexes-cut msg g.regex,
        )
        (sym (joined first second third))
    where
      first : List (Call R F X)
      first = map (plain search) g.instant

      second : List (Call R F X)
      second = map (plain search) (select (allowed admin) commands)

      third : List (Call R F X)
      third = hits msg g.regex

      joined :
          (xs ys zs : List (Call R F X))
          → cut (xs ++ ys ++ zs) ≡ (
              if any is_total xs
              then cut xs
              else if any is_total ys
              then cut xs ++ cut ys
              else cut xs ++ cut ys ++ cut zs)
      joined xs ys zs = ground (arith, cut-append (xs ++ ys) zs, cut-append xs ys, any-append xs ys)

  -- No command handler that is for admins only starts for anybody else.
  pub fire_commands-admin :
      (ms : List (Mapping R F))
      → All (λ c. c.mapping.admin ≡ false) (fire_commands search false ms).0
  unfolding fire_commands
  fire_commands-admin [] = tt
  fire_commands-admin (m ∷ ms) = kept m.admin (nat_beq m.priority 0) refl (fire_commands-admin ms)
    where
      kept :
          (a b : Bool)
          → m.admin ≡ a
          → All (λ c. c.mapping.admin ≡ false) (fire_commands search false ms).0
          → All
              (λ c. c.mapping.admin ≡ false)
              (if◌then◌else◌ {A = List (Call R F X) × Bool}
                (a && not false)
                (fire_commands search false ms)
                (if b then (plain search m ∷ [], true) else (
                  plain search m ∷ (fire_commands search false ms).0,
                  (fire_commands search false ms).1,
                ))).0
      kept true b e all = all
      kept false true e all = (e, tt)
      kept false false e all = (e, all)

  fire_commands-not_admin :
      (ms : List (Mapping R F))
      → fire_commands search false ms ≡ fire_commands search true (select (λ m. not m.admin) ms)
  unfolding fire_commands select
  fire_commands-not_admin [] = refl
  fire_commands-not_admin (m ∷ ms) = elim (Bool-cases m.admin) [
    | inl e ↦ rw (fire_commands, select, e) (fire_commands-not_admin ms)
    | inr e ↦ rw (fire_commands, select, e) (ground (arith, fire_commands-not_admin ms))
  ]

  -- An event of somebody who is no admin starts exactly what the event of an admin starts without
  -- the admin's command mappings: the instant and regex mappings run just the same for both,
  -- whatever their admin flags.
  pub fire_group-not_admin :
      (msg : Option Text) (g : Group R F) (commands : List (Mapping R F))
      → fire_group search false msg g commands
        ≡ fire_group search true msg g (select (λ m. not m.admin) commands)
  unfolding fire_group
  fire_group-not_admin msg g commands = rw (fire_group, fire_commands-not_admin commands) refl
