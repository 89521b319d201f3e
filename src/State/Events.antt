-- ===== src/State/Events.antt =====
-- util/state.py: the methods of `Network` as the steps that the IRC client makes, in any order.
use py_burly_bot.Common.{◌≡◌, Bool, List, Option, none, Text, text_eq, ℕ, lookup}
use py_burly_bot.State.Model.{Network}
use py_burly_bot.State.Membership.{
  joinchannel, leavechannel, userjoin, userpart, userquit, userrename, resetnetwork,
}
use py_burly_bot.State.Invariant.{IsTracked, resetnetwork-IsTracked}
use py_burly_bot.State.Tracking.Part.{userpart-IsTracked, userquit-IsTracked}
use py_burly_bot.State.Tracking.Join.{userjoin-IsTracked}
use py_burly_bot.State.Tracking.Nuke.{joinchannel-IsTracked, leavechannel-IsTracked}
use py_burly_bot.State.Tracking.Rename.{userrename-IsTracked}
use py_burly_bot.State.Modes.{Mode, modechange, settopic, addusers, addbans, addexcepts, addinvites}
use py_burly_bot.State.Modes.Kept.{
  left_by, modechange-IsTracked, settopic-IsTracked, addusers-IsTracked, masks-IsTracked,
}

-- One call of the client. The server never renames a user to a nick that is taken.
pub data Step {T : Type 0} (to_int : T → Option ℕ) (n : Network) : Network → Type 0 where
  disconnect : Step to_int n (resetnetwork n)
  join : (channel : Text) → Step to_int n (joinchannel channel n)
  leave : (channel : Text) → Step to_int n (leavechannel channel n)
  user_join :
      (channel nick : Text) (ident host hostmask : Option Text)
      → Step to_int n (userjoin channel nick ident host hostmask n)
  user_part :
      (channel nick : Text) (ident host hostmask : Option Text)
      → Step to_int n (userpart channel nick ident host hostmask n)
  user_quit : (nick : Text) → Step to_int n (userquit nick n)
  user_rename :
      (old new : Text) (ident host hostmask : Option Text)
      → lookup new n.users ≡ none
      → Step to_int n (left_by (userrename old new ident host hostmask n))
  mode_change :
      (channel : Text) (nick : Option Text) (now : ℕ) (added removed : List Mode) (reset : Bool)
      → Step to_int n (left_by (modechange channel nick now added removed reset n))
  set_topic :
      (channel topic : Text) (nick ident host hostmask : Option Text)
      → Step to_int n (settopic channel topic nick ident host hostmask n)
  add_users :
      (channel : Text) (users : List Text) → Step to_int n (left_by (addusers channel users n))
  add_bans :
      (channel : Text) (entries : List (Text × T × Option Text))
      → Step to_int n (left_by (addbans to_int channel entries n))
  add_excepts :
      (channel : Text) (entries : List (Text × T × Option Text))
      → Step to_int n (left_by (addexcepts to_int channel entries n))
  add_invites :
      (channel : Text) (entries : List (Text × T × Option Text))
      → Step to_int n (left_by (addinvites to_int channel entries n))

pub data Reach {T : Type 0} (to_int : T → Option ℕ) (n : Network) : Network → Type 0 where
  here : Reach to_int n n
  next : {m k : Network} → Reach to_int n m → Step to_int m k → Reach to_int n k

module _ {T : Type 0} (to_int : T → Option ℕ) where
  Step-IsTracked : {n m : Network} → Step to_int n m → IsTracked n → IsTracked m
  Step-IsTracked {n} disconnect v = resetnetwork-IsTracked n
  Step-IsTracked {n} (join channel) v = joinchannel-IsTracked channel n v
  Step-IsTracked {n} (leave channel) v = leavechannel-IsTracked channel n v
  Step-IsTracked {n} (user_join channel nick ident host hostmask) v =
      userjoin-IsTracked channel nick ident host hostmask n v
  Step-IsTracked {n} (user_part channel nick ident host hostmask) v =
      userpart-IsTracked channel nick ident host hostmask n v
  Step-IsTracked {n} (user_quit nick) v = userquit-IsTracked nick n v
  Step-IsTracked {n} (user_rename old new ident host hostmask unused) v =
      let (m, run, w, _, _) = userrename-IsTracked old new ident host hostmask n unused v in
      rw run w
  Step-IsTracked {n} (mode_change channel nick now added removed reset) v =
      modechange-IsTracked channel nick now added removed reset n v
  Step-IsTracked {n} (set_topic channel topic nick ident host hostmask) v =
      settopic-IsTracked channel topic nick ident host hostmask n v
  Step-IsTracked {n} (add_users channel users) v = addusers-IsTracked channel users n v
  Step-IsTracked {n} (add_bans channel entries) v = (masks-IsTracked to_int channel entries n v).0
  Step-IsTracked {n} (add_excepts channel entries) v =
      (masks-IsTracked to_int channel entries n v).1
  Step-IsTracked {n} (add_invites channel entries) v =
      (masks-IsTracked to_int channel entries n v).2

  -- Every state that any sequence of these calls reaches from a well-formed one is well formed.
  pub Reach-IsTracked : {n m : Network} → Reach to_int n m → IsTracked n → IsTracked m
  Reach-IsTracked here v = v
  Reach-IsTracked (next r s) v = Step-IsTracked s (Reach-IsTracked r v)
