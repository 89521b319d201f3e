-- ===== src/Timers/Internal.antt =====
-- util/timer.py: the timers whose names begin with `_`.
use py_burly_bot.Common.{
  ℕ, zero, suc, Bool, true, false, Text, text_eq, lookup, has_key, ◌≡◌, refl, sym, ap, ◌∙◌, arith,
  lookup-insert_other, lookup-erase, eq_iff, ◌==◌, Bool-cases, Option-cases, inl, inr, ◌⊎◌,
}
use py_burly_bot.Timers.{
  Timer, Timers, done, run_timer, start, add_internal, add_timer, del_timer, restart_timer,
  is_internal,
}

run_timer-other :
    (name other : Text) (t : Timer) (s : Timers)
    → (name == other) ≡ false
    → lookup other (run_timer name t s).timers ≡ lookup other s.timers
unfolding run_timer
run_timer-other name other t s h = by_reps t.reps
  where
    by_reps :
        (r : ℕ)
        → lookup other (run_timer name (record { reps = r; running = t.running }) s).timers
          ≡ lookup other s.timers
    by_reps zero = refl
    by_reps (suc zero) = ground (arith, lookup-erase name other s.timers, h)
    by_reps (suc (suc q)) = lookup-insert_other name other _ s.timers h

start-other :
    (name other : Text) (t : Timer) (now : Bool) (s : Timers)
    → (name == other) ≡ false
    → lookup other (start name t now s).timers ≡ lookup other s.timers
unfolding start
start-other name other t false s h = lookup-insert_other name other _ s.timers h
start-other name other t true s h =
    run_timer-other name other _ _ h ∙ lookup-insert_other name other _ s.timers h

done-injective : {a b : Timers} → done a ≡ done b → a ≡ b
done-injective h = cc

is_internal-other :
    (name other : Text)
    → is_internal name ≡ false
    → is_internal other ≡ true
    → (name == other) ≡ false
is_internal-other name other h k = elim (Bool-cases (name == other)) [
  | inl e ↦ absurd (cc (sym h ∙ ap is_internal ((eq_iff name other).0 e) ∙ k))
  | inr e ↦ e
]

-- Adding, deleting or restarting a timer by its name leaves every internal timer as it is.
pub kept-IsInternal :
    (name other : Text) (reps : ℕ) (now : Bool) (s t : Timers)
    → is_internal other ≡ true
    → (add_timer name reps now s ≡ done t)
      ⊎ (del_timer name s ≡ done t)
      ⊎ (restart_timer name s ≡ done t)
    → lookup other t.timers ≡ lookup other s.timers
unfolding add_timer add_internal del_timer restart_timer
kept-IsInternal name other reps now s t k h = elim (Bool-cases (is_internal name)) [
  | inl a ↦ elim h [
    | inl e ↦ absurd (cc (rw (add_timer, a) at e))
    | inr r ↦ elim r [
      | inl e ↦ absurd (cc (rw (del_timer, a) at e))
      | inr e ↦ absurd (cc (rw (restart_timer, a) at e))
    ]
  ]
  | inr a ↦
      let apart = is_internal-other name other a k in
      elim h [
        | inl e ↦ elim (Bool-cases (has_key name s.timers)) [
          | inl b ↦ absurd (cc (rw (add_timer, a, b) at e))
          | inr b ↦
              ap (λ x. lookup other x.timers) (sym (done-injective (rw (add_timer, a, b) at e)))
              ∙ start-other name other (record { reps = reps; running = false }) now s apart
        ]
        | inr r ↦ elim r [
          | inl e ↦ elim (Bool-cases (has_key name s.timers)) [
            | inr b ↦ absurd (cc (rw (del_timer, a, b) at e))
            | inl b ↦
                ap (λ x. lookup other x.timers) (sym (done-injective (rw (del_timer, a, b) at e)))
                ∙ ground (arith, lookup-erase name other s.timers, apart)
          ]
          | inr e ↦ elim (Option-cases (lookup name s.timers)) [
            | inl b ↦ absurd (cc (rw (restart_timer, a, b) at e))
            | inr (old, b) ↦
                ap (λ x. lookup other x.timers)
                  (sym (done-injective (rw (restart_timer, a, b) at e)))
                ∙ start-other name other old true s apart
          ]
        ]
      ]
]
