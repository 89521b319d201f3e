-- ===== src/Dispatch/Wait/Registered.antt =====
-- util/dispatcher.py: who is registered under which event type.
use py_burly_bot.Common.{
  Bool, false, List, [], ◌∷◌, Option, some, Text, nat_eq, text_eq, option_eq, ◌==◌, lookup, insert,
  erase, ◌≡◌, refl, contains, add, discard, ◌||◌, ◌&&◌, arith, lookup-insert, lookup-erase,
  contains-add, contains-discard, eq_iff, not,
}
use py_burly_bot.Dispatch.Wait.{
  WaitId, WaitMap, waiters, add_under, add_wait_data, drop_from, drop_under, del_wait_data,
}

-- `w` is registered under `t`.
abbrev pub is_waiting : WaitId → Option Text → WaitMap → Bool
is_waiting w t wm = contains w (waiters t wm)

waiting-add_under :
    (w v : WaitId) (t : Option Text) (ts : List (Option Text)) (wm : WaitMap)
    → is_waiting v t (add_under w ts wm) ≡ (w == v && contains t ts || is_waiting v t wm)
unfolding add_under contains
waiting-add_under w v t [] wm = ground arith
waiting-add_under w v t (x ∷ xs) wm = ground (
  arith,
  waiting-add_under w v t xs (insert x (add w (waiters x wm)) wm),
  lookup-insert x t (add w (waiters x wm)) wm,
  contains-add w v (waiters x wm),
  eq_iff x t,
)

none_in : (v : WaitId) → contains v [] ≡ false
unfolding contains
none_in v = refl

waiting-drop_from :
    (w v : WaitId) (t x : Option Text) (wm : WaitMap)
    → is_waiting v t (drop_from w x wm) ≡ (not (w == v && x == t) && is_waiting v t wm)
unfolding drop_from
waiting-drop_from w v t x wm = drop (waiters x wm) refl
  where
    after :
        (a : WaitId) (others rest : List WaitId)
        → waiters x wm ≡ a ∷ others
        → discard w (a ∷ others) ≡ rest
        → is_waiting v t (elim rest [ [] ↦ erase x wm | y ∷ ys ↦ insert x (y ∷ ys) wm ])
          ≡ (not (w == v && x == t) && is_waiting v t wm)
    after a others [] e d =
        ground
          (arith, lookup-erase x t wm, contains-discard w v (a ∷ others), eq_iff x t, none_in v)
    after a others (y ∷ ys) e d =
        ground (arith, lookup-insert x t (y ∷ ys) wm, contains-discard w v (a ∷ others), eq_iff x t)

    drop :
        (ws : List WaitId)
        → waiters x wm ≡ ws
        → is_waiting v t (drop_from w x wm) ≡ (not (w == v && x == t) && is_waiting v t wm)
    drop [] e = rw (e, drop_from) (ground (arith, eq_iff x t, none_in v))
    drop (a ∷ others) e = rw (e, drop_from) (after a others (discard w (a ∷ others)) e refl)

waiting-drop_under :
    (w v : WaitId) (t : Option Text) (ts : List (Option Text)) (wm : WaitMap)
    → is_waiting v t (drop_under w ts wm) ≡ (not (w == v && contains t ts) && is_waiting v t wm)
unfolding drop_under contains
waiting-drop_under w v t [] wm = ground arith
waiting-drop_under w v t (x ∷ xs) wm =
    ground (arith, waiting-drop_under w v t xs (drop_from w x wm), waiting-drop_from w v t x wm)

-- A waiter that is added is registered under exactly its own types, and nobody else moves.
pub waiting-add_wait_data :
    (w v : WaitId) (t : Option Text) (interestede stope : List (Option Text)) (wm : WaitMap)
    → is_waiting v t (add_wait_data w interestede stope wm)
      ≡ (w == v && (contains t interestede || contains t stope) || is_waiting v t wm)
unfolding add_wait_data
waiting-add_wait_data w v t interestede stope wm = ground (
  arith,
  waiting-add_under w v t stope (add_under w interestede wm),
  waiting-add_under w v t interestede wm,
)

-- A waiter that is removed is registered under none of its types, and nobody else moves.
pub waiting-del_wait_data :
    (w v : WaitId) (t : Option Text) (interestede stope : List (Option Text)) (wm : WaitMap)
    → is_waiting v t (del_wait_data w interestede stope wm)
      ≡ (not (w == v && (contains t interestede || contains t stope)) && is_waiting v t wm)
unfolding del_wait_data
waiting-del_wait_data w v t interestede stope wm = ground (
  arith,
  waiting-drop_under w v t stope (drop_under w interestede wm),
  waiting-drop_under w v t interestede wm,
)

-- No type keeps an empty set of waiters.
pub record HasNoEmptySet (wm : WaitMap) : Type 0 where
  pub filled : (t : Option Text) → lookup t wm ≡ some [] → ⊥

drop_from-HasNoEmptySet :
    (w : WaitId) (x : Option Text) (wm : WaitMap)
    → HasNoEmptySet wm
    → HasNoEmptySet (drop_from w x wm)
unfolding drop_from
drop_from-HasNoEmptySet w x wm h = drop (waiters x wm) refl
  where
    after :
        (rest : List WaitId)
        → HasNoEmptySet (elim rest [ [] ↦ erase x wm | y ∷ ys ↦ insert x (y ∷ ys) wm ])
    after [] = record { filled = λ t k. h.filled t (ground (arith, lookup-erase x t wm)) }
    after (y ∷ ys) = record {
      filled = λ t k. h.filled t (ground (arith, lookup-insert x t (y ∷ ys) wm));
    }

    drop : (ws : List WaitId) → waiters x wm ≡ ws → HasNoEmptySet (drop_from w x wm)
    drop [] e = rw (e, drop_from) h
    drop (a ∷ others) e = rw (e, drop_from) (after (discard w (a ∷ others)))

drop_under-HasNoEmptySet :
    (w : WaitId) (ts : List (Option Text)) (wm : WaitMap)
    → HasNoEmptySet wm
    → HasNoEmptySet (drop_under w ts wm)
unfolding drop_under
drop_under-HasNoEmptySet w [] wm h = h
drop_under-HasNoEmptySet w (t ∷ ts) wm h =
    drop_under-HasNoEmptySet w ts (drop_from w t wm) (drop_from-HasNoEmptySet w t wm h)

-- Removal cleans up: where no type had an empty set of waiters, none has one afterwards.
pub del_wait_data-HasNoEmptySet :
    (w : WaitId) (interestede stope : List (Option Text)) (wm : WaitMap)
    → HasNoEmptySet wm
    → HasNoEmptySet (del_wait_data w interestede stope wm)
unfolding del_wait_data
del_wait_data-HasNoEmptySet w interestede stope wm h =
    drop_under-HasNoEmptySet w stope (drop_under w interestede wm)
      (drop_under-HasNoEmptySet w interestede wm h)
