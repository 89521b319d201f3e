-- ===== src/Dispatch/EventMap.antt =====
-- util/dispatcher.py: how the mappings of the loaded modules are indexed by event type and command.
pub mod Index
use py_burly_bot.Common.{
  ℕ, Bool, true, false, List, [], ◌∷◌, ◌++◌, Option, none, some, Text, text_eq, ◌==◌, Dict, lookup,
  insert, if◌then◌else◌, ◌||◌, ◌&&◌, sort_by, any, codes,
}
use py_burly_bot.Dispatch.Mappings.{Mapping, privmsged}

pub record Group (R F : Type 0) : Type 0 where
  pub instant : List (Mapping R F)
  pub regex : List (Mapping R F)
  pub command : Dict Text (List (Mapping R F))

abbrev pub EventMap : Type 0 → Type 0 → Type 0
EventMap R F = Dict Text (Group R F)

module _ {R F : Type 0} where
  abbrev pub empty_group : Group R F
  empty_group = record { instant = []; regex = []; command = [] }

  abbrev pub group_or_empty : Option (Group R F) → Group R F
  group_or_empty none = empty_group
  group_or_empty (some g) = g

  abbrev pub list_or_nil : Option (List (Mapping R F)) → List (Mapping R F)
  list_or_nil none = []
  list_or_nil (some ms) = ms

  -- `not mapping.command and not mapping.regex`
  abbrev pub is_instant : Mapping R F → Bool
  is_instant m = elim m.command [
    | none ↦ elim m.regex [ none ↦ true | some _ ↦ false ]
    | some _ ↦ false
  ]

  abbrev pub is_regex : Mapping R F → Bool
  is_regex m = elim m.regex [ none ↦ false | some _ ↦ true ]

  abbrev pub commands_of : Mapping R F → List Text
  commands_of m = elim m.command [ none ↦ [] | some cs ↦ cs ]

  module _ (lower : Text → Text) where
    -- `event_mappings["command"].setdefault(command_name, []).append(mapping)` for each name
    unfoldable pub add_commands :
        Mapping R F → List Text → Dict Text (List (Mapping R F)) → Dict Text (List (Mapping R F))
    add_commands m [] d = d
    add_commands m (c ∷ cs) d =
        add_commands m cs (insert (lower c) (list_or_nil (lookup (lower c) d) ++ m ∷ []) d)

    unfoldable pub add_to_group : Mapping R F → Group R F → Group R F
    unfolding add_commands
    add_to_group m g = record {
      instant = if is_instant m then g.instant ++ m ∷ [] else g.instant;
      regex = if is_regex m then g.regex ++ m ∷ [] else g.regex;
      command = add_commands m (commands_of m) g.command;
    }

    unfoldable pub add_types : Mapping R F → List Text → EventMap R F → EventMap R F
    unfolding add_to_group
    add_types m [] em = em
    add_types m (t ∷ ts) em =
        add_types m ts (insert (lower t) (add_to_group m (group_or_empty (lookup (lower t) em))) em)

    -- `Dispatcher._add_mappings`, for the mappings that a module declares
    unfoldable pub add_mappings : List (Mapping R F) → EventMap R F → EventMap R F
    unfolding add_types
    add_mappings [] em = em
    add_mappings (m ∷ ms) em = add_mappings ms (add_types m m.types em)

    unfoldable pub add_modules : List (List (Mapping R F)) → EventMap R F → EventMap R F
    unfolding add_mappings
    add_modules [] em = em
    add_modules (ms ∷ modules) em = add_modules modules (add_mappings ms em)

  abbrev pub by_priority : List (Mapping R F) → List (Mapping R F)
  by_priority = sort_by (λ m. m.priority)

  unfoldable pub sort_commands : Dict Text (List (Mapping R F)) → Dict Text (List (Mapping R F))
  sort_commands [] = []
  sort_commands ((c, ms) ∷ d) = (c, by_priority ms) ∷ sort_commands d

  unfoldable pub sort_group : Group R F → Group R F
  unfolding sort_commands
  sort_group g = record {
    instant = by_priority g.instant;
    regex = by_priority g.regex;
    command = sort_commands g.command;
  }

  unfoldable pub sort_groups : EventMap R F → EventMap R F
  unfolding sort_group
  sort_groups [] = []
  sort_groups ((t, g) ∷ em) = (t, sort_group g) ∷ sort_groups em

  -- `Dispatcher._build_event_map` over the mappings of the active modules, in order
  unfoldable pub build_event_map :
      (Text → Text) → List (List (Mapping R F)) → EventMap R F → EventMap R F
  unfolding add_modules sort_groups
  build_event_map lower modules em = sort_groups (add_modules lower modules em)

  unfoldable pub any_override : Dict Text (List (Mapping R F)) → Bool
  any_override [] = false
  any_override ((c, ms) ∷ d) = any (λ m. m.override) ms || any_override d

  -- `self.sendmsg_override`
  unfoldable pub sendmsg_override : EventMap R F → Bool
  unfolding any_override
  sendmsg_override em = elim (lookup (codes "sendmsg") em) [
    | none ↦ false
    | some g ↦
        any (λ m. m.override) g.instant || any (λ m. m.override) g.regex || any_override g.command
  ]

  -- `self.eventmap.get(t, {})...` with the defaults of the lookups
  abbrev pub group_of : Text → EventMap R F → Group R F
  group_of t em = group_or_empty (lookup t em)

  abbrev pub commands_for : Text → Text → EventMap R F → List (Mapping R F)
  commands_for t c em = list_or_nil (lookup c (group_of t em).command)

  -- `Dispatcher._getCommandMappings`, for one command
  unfoldable pub get_command_mappings : Text → EventMap R F → List (Mapping R F)
  get_command_mappings c em = commands_for privmsged c em
