-- ===== src/Examples/Handlers.antt =====
-- util/dispatcher.py and util/mapping.py at work on a few mappings and waiting generators.
use py_burly_bot.Common.{
  ℕ, ◌≡◌, refl, true, false, List, [], ◌∷◌, Option, none, some, Text, text_eq, nat_eq, option_eq,
  ◌==◌, codes, lookup, contains, any, not, ◌&&◌, ◌||◌, if◌then◌else◌, select, All, text_beq,
  Bool-cases, inl, inr, insert, sort_by, option_beq,
}
use py_burly_bot.Dispatch.Mappings.{Mapping, new_mapping, privmsged, single, absent}
use py_burly_bot.Dispatch.Commands.{
  is_space, command, index_error, command_split, command_split-blank,
}
use py_burly_bot.Dispatch.EventMap.{
  Group, build_event_map, group_of, commands_for, by_priority, is_instant, is_regex,
}
use py_burly_bot.Dispatch.EventMap.Index.{all_declared, invoked_by, build_event_map-index}
use py_burly_bot.Dispatch.Fire.{fire_group, fire_instants, fire_commands, fire_regexes}
use py_burly_bot.Dispatch.Fire.Order.{
  cut, candidates, fire_group-cut, fire_commands-admin, fire_group-not_admin,
}
use py_burly_bot.Dispatch.Wait.{WaitId, WaitMap, Waits, waiters, add_wait_data, dispatch_waits}
use py_burly_bot.Dispatch.Wait.Registered.{is_waiting, HasNoEmptySet}
use py_burly_bot.Dispatch.Wait.Delivery.{IsUnrepeated, delivered, dispatch_waits-lem}

-- A regex is a text here, and matches a message that is equal to it.
abbrev same_text : Text → Text → Option Text
same_text r msg = if r == msg then some msg else none

abbrev as_is : Text → Text
as_is t = t

abbrev hello : Text
hello = codes "hello"

abbrev greet : Mapping Text ℕ
greet = new_mapping none (single hello) none 1 10 false false false

abbrev shut : Mapping Text ℕ
shut = new_mapping none (single hello) none 2 0 false true false

abbrev watch : Mapping Text ℕ
watch = new_mapping (some (privmsged ∷ [])) absent (some hello) 3 10 false true false

abbrev group : Group Text ℕ
group = record { instant = []; regex = watch ∷ []; command = [] }

fire_group-cut_example :
    fire_group same_text true (some hello) group (shut ∷ greet ∷ [])
    ≡ cut same_text (candidates same_text true (some hello) group (shut ∷ greet ∷ []))
fire_group-cut_example = fire_group-cut same_text true (some hello) group (shut ∷ greet ∷ [])

fire_commands-admin_example :
    All (λ c. c.mapping.admin ≡ false) (fire_commands same_text false (shut ∷ greet ∷ [])).0
fire_commands-admin_example = fire_commands-admin same_text (shut ∷ greet ∷ [])

-- `watch` is for admins, and runs for nobody in particular.
watched :
    fire_group same_text false (some hello) group (shut ∷ greet ∷ [])
    ≡ record { mapping = greet; regex_match = none }
      ∷ record { mapping = watch; regex_match = some hello }
      ∷ []
unfolding fire_group fire_instants fire_commands fire_regexes new_mapping text_beq
watched = refl

fire_group-not_admin_example :
    fire_group same_text false (some hello) group (shut ∷ greet ∷ [])
    ≡ fire_group same_text true (some hello) group (select (λ m. not m.admin) (shut ∷ greet ∷ []))
fire_group-not_admin_example = fire_group-not_admin same_text (some hello) group (shut ∷ greet ∷ [])

abbrev modules : List (List (Mapping Text ℕ))
modules = (greet ∷ watch ∷ []) ∷ (shut ∷ []) ∷ []

build_event_map-index_example :
    ((group_of privmsged (build_event_map as_is modules [])).instant
      ≡ by_priority (select is_instant (all_declared as_is privmsged modules)))
    × ((group_of privmsged (build_event_map as_is modules [])).regex
        ≡ by_priority (select is_regex (all_declared as_is privmsged modules)))
    × (commands_for privmsged hello (build_event_map as_is modules [])
        ≡ by_priority (invoked_by as_is hello (all_declared as_is privmsged modules)))
build_event_map-index_example = build_event_map-index as_is modules privmsged hello

-- The admin's command overrides, since it has priority 0.
commands_run : commands_for privmsged hello (build_event_map as_is modules []) ≡ shut ∷ greet ∷ []
unfolding build_event_map new_mapping lookup insert text_beq sort_by
commands_run = refl

blank_text : any (λ x. not (is_space x)) (codes "  ") ≡ false
unfolding any is_space
blank_text = refl

command_split-blank_example : command_split (codes "  ") ≡ index_error
command_split-blank_example = command_split-blank 32 (32 ∷ []) blank_text

split_greeting :
    command_split (codes "!hi you all") ≡ command (codes "!hi") (some (codes "you all"))
unfolding command_split is_space
split_greeting = refl

abbrev ann : WaitId
ann = 1

abbrev ben : WaitId
ben = 2

abbrev waiting : WaitMap
waiting =
    add_wait_data ben (some hello ∷ []) (none ∷ [])
      (add_wait_data ann (some hello ∷ []) (some hello ∷ []) [])

one_waiting : HasNoEmptySet ((some hello, 1 ∷ []) ∷ [])
unfolding lookup
one_waiting = record {
  filled = λ t h. elim (Bool-cases (some hello == t)) [
    | inl e ↦ cc (rw e at h)
    | inr e ↦ cc (rw e at h)
  ];
}

-- Waiter 1 stops at a greeting, waiter 2 listens for one.
abbrev asleep : Waits ℕ
asleep = record {
  table = λ w. record {
    interestede = some hello ∷ [];
    stope = if w == 1 then some hello ∷ [] else none ∷ [];
    done = false;
    q = [];
  };
  waitmap = (some hello, 1 ∷ 2 ∷ []) ∷ (none, 2 ∷ []) ∷ [];
}

two_waiting : IsUnrepeated (waiters (some hello) asleep.waitmap)
unfolding lookup contains text_beq option_beq
two_waiting = (refl, (refl, tt))

dispatch_waits-lem_example :
    ((dispatch_waits hello 7 asleep).table 1 ≡ (
      if is_waiting 1 (some hello) asleep.waitmap
      then delivered hello 7 (asleep.table 1)
      else asleep.table 1))
    × ((t : Option Text)
        → is_waiting 1 t (dispatch_waits hello 7 asleep).waitmap ≡ (
            not (
              is_waiting 1 (some hello) asleep.waitmap
              && contains (some hello) (asleep.table 1).stope
              && (contains t (asleep.table 1).interestede || contains t (asleep.table 1).stope))
            && is_waiting 1 t asleep.waitmap))
dispatch_waits-lem_example = dispatch_waits-lem hello 7 asleep 1 two_waiting
