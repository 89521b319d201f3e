-- ===== src/Modules/Load.antt =====
-- util/dispatcher.py: `load_module` and `_load_requirements`. `S` is what the stages of a module
-- change: settings, addons and whatever its `init` does.
pub mod Requirements
pub mod Fuel
use py_burly_bot.Common.{
  ℕ, zero, suc, Bool, true, false, List, [], ◌∷◌, ◌++◌, Option, none, some, Text, text_eq, ◌==◌,
  Dict, lookup, insert, has_key, contains, add, if◌then◌else◌, ◌||◌, ◌&&◌, not, sort_texts, length,
}
use py_burly_bot.Modules.Registry.{
  Registry, Reason, not_allowed, circular, requirements, stage_refused, stage_failed, Import,
  import_plugin, active_modules, activate, record_activation_error, clear_server,
}

-- How one stage ends: well, by `ModuleLoadError`, or by any other exception.
pub data Stage : Type 0 where
  passed : Stage
  refused : Stage
  failed : Stage

-- The environment of a load: the server, its allowed modules, the import system, what a module
-- requires, and its three stages in order.
pub record Env (P S : Type 0) : Type 0 where
  pub server : Text
  pub allowed : List Text
  pub is_identifier : Text → Bool
  pub import_module : Text → Import P
  pub requires : P → List Text
  pub configure : Text → P → S → Stage × S
  pub initialize : Text → P → S → Stage × S
  pub register : Text → P → S → Stage × S

pub record World (P S : Type 0) : Type 0 where
  pub registry : Registry P
  pub rest : S

-- What `_load_requirements` returns: the requirements that are not allowed, and those that failed.
pub record Missing : Type 0 where
  pub notallowed : List Text
  pub failures : List Text

abbrev pub is_nothing : Missing → Bool
is_nothing m = elim m.notallowed [
  | [] ↦ elim m.failures [ [] ↦ true | _ ∷ _ ↦ false ]
  | _ ∷ _ ↦ false
]

-- What a load gives: nothing where the fuel has run out.
abbrev pub Loaded : Type 0 → Type 0 → Type 0
Loaded P S = Option (Bool × World P S)

module _ {P S : Type 0} (env : Env P S) where
  abbrev pub modules : World P S → Dict Text P
  modules w = active_modules env.server w.registry

  abbrev pub note_error : Text → Reason → World P S → World P S
  note_error name reason w = record w {
    registry = record_activation_error env.server name reason w.registry;
  }

  -- the loop over the stages, from stage `i` on
  unfoldable pub run_stages :
      ℕ → List (Text → P → S → Stage × S) → Text → P → World P S → Bool × World P S
  run_stages i [] name p w = (true, w)
  run_stages i (stage ∷ stages) name p w =
      let (end, s) = stage name p w.rest in
      let w' = record w { rest = s } in
      let next = run_stages (suc i) stages name p w' in
      elim end [
        | passed ↦ next
        | refused ↦ (false, note_error name (stage_refused i) w')
        | failed ↦ (false, note_error name (stage_failed i) w')
      ]

  -- `Dispatcher._load_requirements`, given `load_module` for the deeper level
  unfoldable pub load_requirements :
      (Text → World P S → Loaded P S)
      → List Text
      → Missing
      → World P S
      → Option (Missing × World P S)
  load_requirements load [] missing w = some (missing, w)
  load_requirements load (name ∷ names) missing w =
      if has_key name (modules w)
      then load_requirements load names missing w
      else if not (contains name env.allowed)
      then load_requirements load names
          (record missing { notallowed = add name missing.notallowed }) w
      else elim (load name w) [
        | none ↦ none
        | some (done, w') ↦
            load_requirements load names
              (if done then missing else record missing { failures = add name missing.failures }) w'
      ]

  -- The end of `load_module`, once the requirements are known.
  abbrev pub finish : Text → P → Missing × World P S → Bool × World P S
  finish name p (missing, w) =
      if is_nothing missing
      then (let (done, w') =
            run_stages 0 (env.configure ∷ env.initialize ∷ env.register ∷ []) name p w in
          if done
          then (true, record w' { registry = activate env.server name p w'.registry })
          else (false, w'))
      else (
        false,
        note_error name (requirements (sort_texts missing.notallowed) (sort_texts missing.failures))
            w,
      )

  abbrev pub finished : Text → P → Option (Missing × World P S) → Loaded P S
  finished name p none = none
  finished name p (some r) = some (finish name p r)

  abbrev pub imported : Text → World P S → Option P × World P S
  imported name w =
      let (found, r) = import_plugin env.is_identifier env.import_module name w.registry in
      (found, record w { registry = r })

  -- `load_module` once the plugin is imported, or could not be
  abbrev pub attempt : (Text → World P S → Loaded P S) → Text → World P S → Option P → Loaded P S
  attempt deeper name w none = some (false, w)
  attempt deeper name w (some p) =
      finished name p
        (load_requirements deeper (env.requires p) (record { notallowed = []; failures = [] }) w)

  -- `Dispatcher.load_module`; the fuel bounds the depth of the requirements
  unfoldable pub load_module : ℕ → Text → List Text → World P S → Loaded P S
  unfolding load_requirements run_stages import_plugin activate record_activation_error
  load_module zero name parents w = none
  load_module (suc fuel) name parents w =
      if has_key name (modules w)
      then some (true, w)
      else if not (contains name env.allowed)
      then some (false, note_error name not_allowed w)
      else if contains name parents
      then some (false, note_error name circular w)
      else attempt (λ k. load_module fuel k (parents ++ name ∷ [])) name (imported name w).1
          (imported name w).0

  -- The loop of `Dispatcher.reload`, over the configured modules in order.
  unfoldable pub load_all : ℕ → List Text → World P S → Option (World P S)
  unfolding load_module
  load_all fuel [] w = some w
  load_all fuel (name ∷ names) w =
      if contains name env.allowed
      then elim (load_module fuel name [] w) [ none ↦ none | some (_, w') ↦ load_all fuel names w' ]
      else load_all fuel names w

  -- `Dispatcher.reload`, up to the event map
  unfoldable pub reload : ℕ → List Text → World P S → Option (World P S)
  unfolding load_all clear_server
  reload fuel load_order w =
      load_all fuel load_order (record w { registry = clear_server env.server w.registry })
