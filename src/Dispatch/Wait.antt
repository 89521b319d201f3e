-- ===== src/Dispatch/Wait.antt =====
-- util/container.py `WaitData` and the wait map of util/dispatcher.py: generators that wait for
-- events. A `WaitData` object is named by a number; `E` is the type of events.
pub mod Registered
pub mod Delivery
use py_burly_bot.Common.{
  ℕ, Bool, true, false, List, [], ◌∷◌, ◌++◌, Option, none, some, Text, nat_eq, text_eq, option_eq,
  ◌==◌, Dict, lookup, insert, erase, contains, add, discard, if◌then◌else◌, ◌&&◌, map,
}

-- `EventTypes`: nothing, one type or several.
pub data EventTypes : Type 0 where
  absent : EventTypes
  single : Text → EventTypes
  several : List Text → EventTypes

pub record WaitData (E : Type 0) : Type 0 where
  pub interestede : List (Option Text)
  pub stope : List (Option Text)
  pub done : Bool
  pub q : List E

abbrev pub is_falsy : EventTypes → Bool
is_falsy absent = true
is_falsy (single []) = true
is_falsy (single (c ∷ cs)) = false
is_falsy (several []) = true
is_falsy (several (t ∷ ts)) = false

-- the set that a filter becomes; the absent one is `{None}`
unfoldable pub coerce_types : (Text → Text) → EventTypes → List (Option Text)
coerce_types lower absent = none ∷ []
coerce_types lower (single t) = some (lower t) ∷ []
coerce_types lower (several ts) = map (λ t. some (lower t)) ts

-- `WaitData.__init__`; `none` is the `ValueError`
unfoldable pub new_wait :
    {E : Type 0} → (Text → Text) → EventTypes → EventTypes → Option (WaitData E)
unfolding coerce_types
new_wait lower interestede stope =
    if is_falsy interestede && is_falsy stope
    then none
    else some (record {
      interestede = coerce_types lower interestede;
      stope = coerce_types lower stope;
      done = false;
      q = [];
    })

abbrev pub WaitId : Type 0
WaitId = ℕ

abbrev pub WaitMap : Type 0
WaitMap = Dict (Option Text) (List WaitId)

abbrev pub set_or_empty : Option (List WaitId) → List WaitId
set_or_empty none = []
set_or_empty (some ws) = ws

-- `self.waitmap.get(etype)`, the empty set where there is none
abbrev pub waiters : Option Text → WaitMap → List WaitId
waiters t wm = set_or_empty (lookup t wm)

-- `self.waitmap.setdefault(etype, set()).add(wd)` for each type
unfoldable pub add_under : WaitId → List (Option Text) → WaitMap → WaitMap
add_under w [] wm = wm
add_under w (t ∷ ts) wm = add_under w ts (insert t (add w (waiters t wm)) wm)

-- `Dispatcher.addWaitData`
unfoldable pub add_wait_data : WaitId → List (Option Text) → List (Option Text) → WaitMap → WaitMap
unfolding add_under
add_wait_data w interestede stope wm = add_under w stope (add_under w interestede wm)

-- One type of `delWaitData`: the waiter goes from the set, and an empty set goes from the map.
unfoldable pub drop_from : WaitId → Option Text → WaitMap → WaitMap
drop_from w t wm = elim (waiters t wm) [
  | [] ↦ wm
  | x ∷ xs ↦ elim (discard w (x ∷ xs)) [ [] ↦ erase t wm | y ∷ ys ↦ insert t (y ∷ ys) wm ]
]

unfoldable pub drop_under : WaitId → List (Option Text) → WaitMap → WaitMap
unfolding drop_from
drop_under w [] wm = wm
drop_under w (t ∷ ts) wm = drop_under w ts (drop_from w t wm)

-- `Dispatcher.delWaitData`
unfoldable pub del_wait_data : WaitId → List (Option Text) → List (Option Text) → WaitMap → WaitMap
unfolding drop_under
del_wait_data w interestede stope wm = drop_under w stope (drop_under w interestede wm)

-- The waiting generators and where they are registered.
pub record Waits (E : Type 0) : Type 0 where
  pub table : WaitId → WaitData E
  pub waitmap : WaitMap

module _ {E : Type 0} where
  unfoldable pub set_wait : WaitId → WaitData E → (WaitId → WaitData E) → WaitId → WaitData E
  set_wait w d table v = if w == v then d else table v

  -- One round of the loop over `wdset`.
  unfoldable pub notify_one : Text → E → WaitId → (WaitId → WaitData E) → WaitId → WaitData E
  unfolding set_wait
  notify_one l event w table =
      let wd = table w in
      if contains (some l) wd.stope
      then set_wait w (record wd { q = wd.q ++ event ∷ []; done = true }) table
      else if contains (some l) wd.interestede
      then set_wait w (record wd { q = wd.q ++ event ∷ [] }) table
      else table

  unfoldable pub notify_all : Text → E → List WaitId → (WaitId → WaitData E) → WaitId → WaitData E
  unfolding notify_one
  notify_all l event [] table = table
  notify_all l event (w ∷ ws) table = notify_all l event ws (notify_one l event w table)

  -- the list `remove`
  unfoldable pub stopped : Text → List WaitId → (WaitId → WaitData E) → List WaitId
  stopped l [] table = []
  stopped l (w ∷ ws) table =
      if contains (some l) (table w).stope then w ∷ stopped l ws table else stopped l ws table

  unfoldable pub del_all : List WaitId → (WaitId → WaitData E) → WaitMap → WaitMap
  unfolding del_wait_data
  del_all [] table wm = wm
  del_all (w ∷ ws) table wm =
      del_all ws table (del_wait_data w (table w).interestede (table w).stope wm)

  -- The waiting half of `dispatchEvent`.
  unfoldable pub dispatch_waits : Text → E → Waits E → Waits E
  unfolding notify_all stopped del_all
  dispatch_waits l event s =
      let ws = waiters (some l) s.waitmap in
      record {
        table = notify_all l event ws s.table;
        waitmap = del_all (stopped l ws s.table) s.table s.waitmap;
      }
