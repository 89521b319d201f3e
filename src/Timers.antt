-- ===== src/Timers.antt =====
-- util/timer.py: the timers of the process. `reps` is 0 where it is not above 0, a `LoopingCall` is
-- whether it runs, and `runs` holds the names of the timers whose function was called, in order.
pub mod Ticks
pub mod Internal
use py_burly_bot.Common.{
  ℕ, zero, suc, Bool, true, false, List, [], ◌∷◌, ◌++◌, Option, none, some, Text, text_eq, codes,
  Dict, lookup, insert, erase, has_key, if◌then◌else◌, starts_with, map, select, not,
}

pub record Timer : Type 0 where
  pub reps : ℕ
  pub running : Bool

pub record Timers : Type 0 where
  pub timers : Dict Text Timer
  pub runs : List Text

pub data Outcome : Type 0 where
  done : Timers → Outcome
  timer_exists invalid_name not_found : Outcome

-- `runTimer`
unfoldable pub run_timer : Text → Timer → Timers → Timers
run_timer name t s =
    let called : Timers = record s { runs = s.runs ++ name ∷ [] } in
    elim t.reps [
      | zero ↦ called
      | suc zero ↦ record called { timers = erase name s.timers }
      | suc (suc r) ↦ record called { timers = insert name (record t { reps = suc r }) s.timers }
    ]

-- `LoopingCall.start`, which calls at once with `now`
unfoldable pub start : Text → Timer → Bool → Timers → Timers
unfolding run_timer
start name t now s =
    let started : Timer = record t { running = true } in
    let there : Timers = record s { timers = insert name started s.timers } in
    if now then run_timer name started there else there

-- `_addTimer`
unfoldable pub add_internal : Text → ℕ → Bool → Timers → Outcome
unfolding start
add_internal name reps startnow s =
    if has_key name s.timers
    then timer_exists
    else done (start name (record { reps = reps; running = false }) startnow s)

abbrev pub is_internal : Text → Bool
is_internal name = starts_with name (codes "_")

-- `addtimer`
unfoldable pub add_timer : Text → ℕ → Bool → Timers → Outcome
unfolding add_internal
add_timer name reps startnow s =
    if is_internal name then invalid_name else add_internal name reps startnow s

-- `deltimer` and `_deltimer`
unfoldable pub del_timer : Text → Timers → Outcome
del_timer name s =
    if is_internal name
    then invalid_name
    else if has_key name s.timers
    then done (record s { timers = erase name s.timers })
    else not_found

-- `restarttimer`, `_restarttimer` and `Timer.restart`
unfoldable pub restart_timer : Text → Timers → Outcome
unfolding start
restart_timer name s =
    if is_internal name
    then invalid_name
    else elim (lookup name s.timers) [ none ↦ not_found | some t ↦ done (start name t true s) ]

-- `_delPrefix`
unfoldable pub del_prefix : Text → Timers → Timers
del_prefix prefix s = record s { timers = select (λ t. not (starts_with t.0 prefix)) s.timers }

-- `_stopall`
unfoldable pub stop_all : Timers → Timers
stop_all s = record s {
  timers = map (λ t. (t.0, record { reps = t.1.reps; running = false })) s.timers;
}

-- The clock of a timer strikes: a `LoopingCall` calls while it runs.
unfoldable pub tick : Text → Timers → Timers
unfolding run_timer
tick name s = elim (lookup name s.timers) [
  | none ↦ s
  | some t ↦ if t.running then run_timer name t s else s
]

unfoldable pub tick_times : ℕ → Text → Timers → Timers
unfolding tick
tick_times zero name s = s
tick_times (suc k) name s = tick_times k name (tick name s)
