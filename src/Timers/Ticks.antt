-- ===== src/Timers/Ticks.antt =====
-- util/timer.py: how often a timer calls its function.
use mathlib.Core.List.{append_assoc}
use mathlib.Core.Path.{subst}
use py_burly_bot.Common.{
  ℕ, zero, suc, ◌≤◌, Bool, true, false, List, [], ◌∷◌, ◌++◌, none, some, Text, text_eq, Dict,
  lookup, insert, erase, has_key, ◌≡◌, refl, sym, ap, ◌∙◌, arith, lookup-insert_same, lookup-erase,
  eq_iff, Bool-cases, inl, inr,
}
use py_burly_bot.Timers.{
  Timer, Timers, done, run_timer, start, add_internal, add_timer, is_internal, tick, tick_times,
}

unfoldable pub repeat : ℕ → Text → List Text
repeat zero name = []
repeat (suc n) name = name ∷ repeat n name

lookup-erase_same : (name : Text) (d : Dict Text Timer) → lookup name (erase name d) ≡ none
lookup-erase_same name d = ground (arith, lookup-erase name name d, eq_iff name name)

done-injective : {a b : Timers} → done a ≡ done b → a ≡ b
done-injective h = cc

-- A timer that has been called and has `suc r` calls left.
abbrev called_once : Text → ℕ → Dict Text Timer → List Text → Timers
called_once name r timers runs = record {
  timers = insert name (record { reps = suc r; running = true }) timers;
  runs = runs ++ name ∷ [];
}

-- A timer that is gone calls no more.
tick_times-gone :
    (k : ℕ) (name : Text) (s : Timers) → lookup name s.timers ≡ none → tick_times k name s ≡ s
unfolding tick_times tick
tick_times-gone zero name s e = refl
tick_times-gone (suc k) name s e =
    ap (tick_times k name) (tick_gone name s e) ∙ tick_times-gone k name s e
  where
    tick_gone : (name : Text) (s : Timers) → lookup name s.timers ≡ none → tick name s ≡ s
    tick_gone name s e = rw (tick, e) refl

-- It has called `n` times more and is gone.
abbrev pub IsSpent : Text → ℕ → List Text → Timers → Type 0
IsSpent name n before s = (lookup name s.timers ≡ none) × (s.runs ≡ before ++ repeat n name)

tick_last :
    (name : Text) (s : Timers)
    → lookup name s.timers ≡ some (record { reps = 1; running = true })
    → tick name s ≡ record { timers = erase name s.timers; runs = s.runs ++ name ∷ [] }
unfolding tick run_timer
tick_last name s e = rw (tick, e) refl

tick_more :
    (name : Text) (r : ℕ) (s : Timers)
    → lookup name s.timers ≡ some (record { reps = suc (suc r); running = true })
    → tick name s ≡ record {
      timers = insert name (record { reps = suc r; running = true }) s.timers;
      runs = s.runs ++ name ∷ [];
    }
unfolding tick run_timer
tick_more name r s e = rw (tick, e) refl

tick_times-IsSpent :
    (k r : ℕ) (name : Text) (s : Timers)
    → suc r ≤ k
    → lookup name s.timers ≡ some (record { reps = suc r; running = true })
    → IsSpent name (suc r) s.runs (tick_times k name s)
unfolding tick_times repeat
tick_times-IsSpent zero r name s h e = absurd (omega (arith, h))
tick_times-IsSpent (suc k) zero name s h e =
    let gone = lookup-erase_same name s.timers in
    subst (IsSpent name 1 s.runs)
      (sym (ap (tick_times k name) (tick_last name s e) ∙ tick_times-gone k name _ gone))
      (gone, refl)
tick_times-IsSpent (suc k) (suc r) name s h e =
    let next = called_once name r s.timers s.runs in
    let spent =
      tick_times-IsSpent k r name next (omega (arith, h)) (lookup-insert_same name _ s.timers) in
    subst (IsSpent name (suc (suc r)) s.runs) (sym (ap (tick_times k name) (tick_more name r s e)))
      (spent.0, spent.1 ∙ append_assoc s.runs (name ∷ []) (repeat (suc r) name))

-- However it is started, a timer is gone after its calls.
start-IsSpent :
    (k r : ℕ) (name : Text) (now : Bool) (s : Timers)
    → suc r ≤ k
    → IsSpent name
        (suc r)
        s.runs
        (tick_times k name (start name (record { reps = suc r; running = false }) now s))
unfolding start run_timer repeat
start-IsSpent k r name false s h =
    tick_times-IsSpent k r name _ h (lookup-insert_same name _ s.timers)
start-IsSpent k zero name true s h =
    let gone =
      lookup-erase_same name (insert name (record { reps = 1; running = true }) s.timers) in
    subst (IsSpent name 1 s.runs) (sym (tick_times-gone k name _ gone)) (gone, refl)
start-IsSpent k (suc r) name true s h =
    let there = insert name (record { reps = suc (suc r); running = true }) s.timers in
    let spent =
      tick_times-IsSpent k r name (called_once name r there s.runs) (omega (arith, h))
        (lookup-insert_same name _ there) in
    (spent.0, spent.1 ∙ append_assoc s.runs (name ∷ []) (repeat (suc r) name))

-- A timer that is added with repetitions, to start now or not, calls its function exactly that often
-- and is gone then, however long its clock goes on.
pub add_timer-IsSpent :
    (k r : ℕ) (name : Text) (now : Bool) (s t : Timers)
    → suc r ≤ k
    → add_timer name (suc r) now s ≡ done t
    → IsSpent name (suc r) s.runs (tick_times k name t)
unfolding add_timer add_internal
add_timer-IsSpent k r name now s t h e = elim (Bool-cases (is_internal name)) [
  | inl a ↦ absurd (cc (rw (add_timer, a) at e))
  | inr a ↦ elim (Bool-cases (has_key name s.timers)) [
    | inl b ↦ absurd (cc (rw (add_timer, a, b) at e))
    | inr b ↦
        subst (λ x. IsSpent name (suc r) s.runs (tick_times k name x))
          (done-injective (rw (add_timer, a, b) at e)) (start-IsSpent k r name now s h)
  ]
]
