-- ===== src/State/Membership.antt =====
-- util/state.py: who is on which channel. Methods of `Channel` and `User` first, then those of
-- `Network`. `self.channels[c]` of an absent channel raises.
use py_burly_bot.Common.{
  Bool, true, false, ◌||◌, List, [], ◌∷◌, Option, none, some, Text, nat_eq, text_eq, Dict, lookup,
  insert, erase, has_key, contains, add, discard, if◌then◌else◌, suc, map,
}
use py_burly_bot.State.Model.{
  User, Ref, Store, update, Channel, new_channel, new_user, Network, Outcome, ok, raise, key_error,
}

-- A truthy `str | None`.
abbrev pub truthy : Option Text → Bool
truthy none = false
truthy (some []) = false
truthy (some (x ∷ xs)) = true

abbrev pub is_empty : List Text → Bool
is_empty [] = true
is_empty (x ∷ xs) = false

-- `if new and self.field != new: self.field = new`
unfoldable pub refreshed : Option Text → Option Text → Option Text
refreshed new old = if truthy new then new else old

-- `User._refresh`
unfoldable pub refresh : Option Text → Option Text → Option Text → User → User
unfolding refreshed
refresh ident host hostmask u = record u {
  ident = refreshed ident u.ident;
  host = refreshed host u.host;
  hostmask = refreshed hostmask u.hostmask;
}

-- `Channel._adduser`: the channel, and the store with the user's `channels` extended
unfoldable pub channel_adduser : Channel → Ref → Store → Channel × Store
channel_adduser c r h =
    let u = h r in
    let users = (if has_key u.nick c.users then c.users else insert u.nick r c.users) in
    (record c { users = users }, update h r (record u { channels = add c.name u.channels }))

-- `if old in s: s.remove(old); s.add(new)`
unfoldable pub rename_member : Text → Text → List Text → List Text
rename_member old new s = if contains old s then add new (discard old s) else s

-- `user = self.users.pop(old, None)`, put back under the new nick
unfoldable pub rename_key : Text → Text → Dict Text Ref → Dict Text Ref
rename_key old new d = elim (lookup old d) [
  | none ↦ erase old d
  | some r ↦ insert new r (erase old d)
]

-- `Channel._changeuser`
unfoldable pub channel_changeuser : Text → Text → Channel → Channel
unfolding rename_member rename_key
channel_changeuser old new c = record c {
  users = rename_key old new c.users;
  ops = rename_member old new c.ops;
  voices = rename_member old new c.voices;
}

-- `Channel._removeuser`
unfoldable pub channel_removeuser : Text → Channel → Channel
channel_removeuser nick c = record c {
  users = erase nick c.users;
  ops = discard nick c.ops;
  voices = discard nick c.voices;
}

-- `Network._resetnetwork`
unfoldable pub resetnetwork : Network → Network
resetnetwork n = record n { channels = []; users = [] }

-- The body of the loop of `Network._nukechannel`, for one user of the channel.
unfoldable pub forget_member : Text → Ref → Network → Network
forget_member channel r n =
    let u = n.store r in
    let left = discard channel u.channels in
    record n {
      store = update n.store r (record u { channels = left });
      users = if is_empty left then erase u.nick n.users else n.users;
    }

unfoldable pub forget_members : Text → List Ref → Network → Network
unfolding forget_member
forget_members channel [] n = n
forget_members channel (r ∷ rs) n = forget_members channel rs (forget_member channel r n)

abbrev pub values : Dict Text Ref → List Ref
values = map (λ e. e.1)

-- `Network._nukechannel`
unfoldable pub nukechannel : Text → Network → Network
unfolding forget_members
nukechannel channel n = elim (lookup channel n.channels) [
  | none ↦ n
  | some c ↦
      let m = forget_members channel (values c.users) n in
      record m { channels = erase channel m.channels }
]

-- The loop of `Network._userquit` over the user's channels.
unfoldable pub leave_channels : Text → List Text → Dict Text Channel → Dict Text Channel
unfolding channel_removeuser
leave_channels nick [] chans = chans
leave_channels nick (c ∷ cs) chans =
    leave_channels nick cs (elim (lookup c chans) [
      | none ↦ chans
      | some ch ↦ insert c (channel_removeuser nick ch) chans
    ])

-- `Network._userquit`
unfoldable pub userquit : Text → Network → Network
unfolding leave_channels
userquit nick n = elim (lookup nick n.users) [
  | none ↦ n
  | some r ↦
      let u = n.store r in
      record n {
        channels = leave_channels u.nick u.channels n.channels;
        users = erase nick n.users;
      }
]

-- `Network._joinchannel`
unfoldable pub joinchannel : Text → Network → Network
unfolding nukechannel new_channel
joinchannel channel n =
    let m = nukechannel channel n in
    record m { channels = insert channel (new_channel channel) m.channels }

-- `Network._leavechannel`
unfoldable pub leavechannel : Text → Network → Network
unfolding nukechannel
leavechannel = nukechannel

abbrev pub any_given : Option Text → Option Text → Option Text → Bool
any_given ident host hostmask = truthy ident || truthy host || truthy hostmask

-- The user that `_userjoin` seats: the known one, refreshed, or a new object.
unfoldable pub seat_user : Text → Option Text → Option Text → Option Text → Network → Ref × Network
unfolding refresh new_user
seat_user nick ident host hostmask n = elim (lookup nick n.users) [
  | none ↦ (
    n.next,
    record n {
      store = update n.store n.next (new_user nick ident host hostmask);
      users = insert nick n.next n.users;
      next = suc n.next;
    },
  )
  | some r ↦ (
    r,
    if any_given ident host hostmask
        then record n { store = update n.store r (refresh ident host hostmask (n.store r)) }
        else n,
  )
]

unfoldable pub seat_on : Text → Channel → Ref × Network → Network
unfolding channel_adduser
seat_on channel c (r, n) =
    let (c', h) = channel_adduser c r n.store in
    record n { store = h; channels = insert channel c' n.channels }

-- `Network._userjoin`
unfoldable pub userjoin : Text → Text → Option Text → Option Text → Option Text → Network → Network
unfolding seat_user seat_on
userjoin channel nick ident host hostmask n = elim (lookup channel n.channels) [
  | none ↦ n
  | some c ↦ seat_on channel c (seat_user nick ident host hostmask n)
]

-- The loop of `Network._userrename`: `self.channels[chan]` raises where the channel is not there.
unfoldable pub rename_on : Text → Text → List Text → Network → Outcome Network
unfolding channel_changeuser
rename_on old new [] n = ok n
rename_on old new (c ∷ cs) n = elim (lookup c n.channels) [
  | none ↦ raise key_error n
  | some ch ↦
      rename_on old new cs
        (record n { channels = insert c (channel_changeuser old new ch) n.channels })
]

-- `Network._userrename`
unfoldable pub userrename :
    Text → Text → Option Text → Option Text → Option Text → Network → Outcome Network
unfolding rename_on refresh
userrename old new ident host hostmask n = elim (lookup old n.users) [
  | none ↦ ok n
  | some r ↦
      let u = n.store r in
      let u' = refresh ident host hostmask (record u { nick = new }) in
      rename_on old new u.channels
        (record n { store = update n.store r u'; users = insert new r (erase old n.users) })
]

-- `if tracked_channel is not None: tracked_channel._removeuser(u.nick)`
unfoldable pub unseat : Text → Text → Dict Text Channel → Dict Text Channel
unfolding channel_removeuser
unseat channel nick chans = elim (lookup channel chans) [
  | none ↦ chans
  | some c ↦ insert channel (channel_removeuser nick c) chans
]

-- `Network._userpart`
unfoldable pub userpart : Text → Text → Option Text → Option Text → Option Text → Network → Network
unfolding unseat refresh
userpart channel nick ident host hostmask n = elim (lookup nick n.users) [
  | none ↦ n
  | some r ↦
      let u = n.store r in
      let left = record u { channels = discard channel u.channels } in
      let m = record n { channels = unseat channel u.nick n.channels } in
      if is_empty left.channels
      then record m { store = update n.store r left; users = erase nick n.users }
      else if any_given ident host hostmask
      then record m { store = update n.store r (refresh ident host hostmask left) }
      else record m { store = update n.store r left }
]
