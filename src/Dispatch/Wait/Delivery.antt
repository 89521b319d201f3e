-- ===== src/Dispatch/Wait/Delivery.antt =====
-- util/dispatcher.py: what one dispatch does to the waiting generators.
use py_burly_bot.Common.{
  true, false, List, [], ◌∷◌, ◌++◌, Option, some, Text, nat_eq, text_eq, option_eq, ◌≡◌, refl, ◌∙◌,
  contains, if◌then◌else◌, ◌||◌, ◌&&◌, arith, eq_iff, not,
}
use py_burly_bot.Dispatch.Wait.{
  WaitId, WaitMap, WaitData, Waits, waiters, notify_one, notify_all, stopped, del_all,
  dispatch_waits, set_wait, del_wait_data,
}
use py_burly_bot.Dispatch.Wait.Registered.{is_waiting, waiting-del_wait_data}

-- No waiter stands twice in the set.
abbrev pub IsUnrepeated : List WaitId → Type 0
IsUnrepeated [] = Unit
IsUnrepeated (w ∷ ws) = (contains w ws ≡ false) × IsUnrepeated ws

module _ {E : Type 0} where
  -- What the event makes of the waiter's record.
  abbrev pub delivered : Text → E → WaitData E → WaitData E
  delivered l event wd =
      if contains (some l) wd.stope
      then record wd { q = wd.q ++ event ∷ []; done = true }
      else if contains (some l) wd.interestede
      then record wd { q = wd.q ++ event ∷ [] }
      else wd

  notify_all-table :
      (l : Text) (event : E) (ws : List WaitId) (table : WaitId → WaitData E) (v : WaitId)
      → IsUnrepeated ws
      → notify_all l event ws table v
        ≡ (if contains v ws then delivered l event (table v) else table v)
  unfolding notify_all notify_one set_wait contains
  notify_all-table l event [] table v u = refl
  notify_all-table l event (w ∷ ws) table v u =
      notify_all-table l event ws (notify_one l event w table) v u.1
      ∙ ground (arith, u.0, eq_iff w v)

  contains-stopped :
      (l : Text) (ws : List WaitId) (table : WaitId → WaitData E) (v : WaitId)
      → contains v (stopped l ws table) ≡ (contains v ws && contains (some l) (table v).stope)
  unfolding stopped contains
  contains-stopped l [] table v = refl
  contains-stopped l (w ∷ ws) table v = ground (arith, contains-stopped l ws table v, eq_iff w v)

  waiting-del_all :
      (ws : List WaitId) (table : WaitId → WaitData E) (wm : WaitMap) (v : WaitId) (t : Option Text)
      → is_waiting v t (del_all ws table wm) ≡ (
          not (contains v ws && (contains t (table v).interestede || contains t (table v).stope))
          && is_waiting v t wm)
  unfolding del_all contains
  waiting-del_all [] table wm v t = refl
  waiting-del_all (w ∷ ws) table wm v t = ground (
    arith,
    waiting-del_all ws table (del_wait_data w (table w).interestede (table w).stope wm) v t,
    waiting-del_wait_data w v t (table w).interestede (table w).stope wm,
    eq_iff w v,
  )

  -- An event reaches the queue of exactly the waiters that are registered under its type, each once;
  -- one for which it is a stop event is done, and is registered nowhere of its own any more; nobody
  -- else changes.
  pub dispatch_waits-lem :
      (l : Text) (event : E) (s : Waits E) (v : WaitId)
      → IsUnrepeated (waiters (some l) s.waitmap)
      → let s' = dispatch_waits l event s in
        (s'.table v
          ≡ (if is_waiting v (some l) s.waitmap then delivered l event (s.table v) else s.table v))
        × ((t : Option Text)
            → is_waiting v t s'.waitmap ≡ (
                not (
                  is_waiting v (some l) s.waitmap
                  && contains (some l) (s.table v).stope
                  && (contains t (s.table v).interestede || contains t (s.table v).stope))
                && is_waiting v t s.waitmap))
  unfolding dispatch_waits
  dispatch_waits-lem l event s v u = (
    notify_all-table l event (waiters (some l) s.waitmap) s.table v u,
    λ t. ground (
      arith,
      waiting-del_all (stopped l (waiters (some l) s.waitmap) s.table) s.table s.waitmap v t,
      contains-stopped l (waiters (some l) s.waitmap) s.table v,
    ),
  )
