-- ===== src/State/Tracking/Part.antt =====
-- util/state.py: the tracked state after `_userpart` and `_userquit`.
use py_burly_bot.Common.{
  ◌≡◌, ◌&&◌, Option, none, some, Text, text_eq, nat_eq, ◌==◌, lookup, insert, erase, discard, arith,
  eq_iff, List, [], ◌∷◌, ◌∙◌, inl, inr, Option-cases, lookup-erase, contains-discard, if◌then◌else◌,
  Dict, erase-IsDistinct,
}
use py_burly_bot.State.Model.{Ref, User, Channel, Network, update}
use py_burly_bot.State.Membership.{
  is_empty, userpart, userquit, unseat, refresh, channel_removeuser, any_given, leave_channels,
}
use py_burly_bot.State.Views.{
  seat, IsNamed, seat-insert, seat-none, seat-some, insert-IsNamed, seat-leave_channels,
}
use py_burly_bot.State.Invariant.{IsTracked, not-is_empty}

seat-unseat :
    (c c' nick m : Text) (d : Dict Text Channel)
    → seat (unseat c nick d) c' m ≡ (if c == c' && nick == m then none else seat d c' m)
unfolding unseat channel_removeuser
seat-unseat c c' nick m d = elim (Option-cases (lookup c d)) [
  | inl e ↦ rw (e, unseat) (ground (arith, seat-none c m d e, eq_iff c c'))
  | inr (ch, e) ↦
      rw (e, unseat)
        (ground (
          arith,
          seat-insert c c' m (channel_removeuser nick ch) d,
          lookup-erase nick m ch.users,
          eq_iff c c',
          seat-some c m ch d e,
        ))
]

unseat-IsNamed : (c nick : Text) (d : Dict Text Channel) → IsNamed d → IsNamed (unseat c nick d)
unfolding unseat channel_removeuser
unseat-IsNamed c nick d n = elim (Option-cases (lookup c d)) [
  | inl e ↦ rw (e, unseat) n
  | inr (ch, e) ↦
      rw (e, unseat)
        (insert-IsNamed c (channel_removeuser nick ch) d (n.at_name c ch e)
          (erase-IsDistinct nick ch.users (n.distinct c ch e)) n)
]

-- What `_userpart` leaves of a known user's record.
abbrev parted : Text → Option Text → Option Text → Option Text → User → User
parted channel ident host hostmask u =
    let left = record u { channels = discard channel u.channels } in
    if is_empty left.channels
    then left
    else if any_given ident host hostmask
    then refresh ident host hostmask left
    else left

userpart_known :
    (channel nick : Text) (ident host hostmask : Option Text) (n : Network) (r : Ref)
    → lookup nick n.users ≡ some r
    → (n.store r).nick ≡ nick
    → userpart channel nick ident host hostmask n ≡ record n {
      channels = unseat channel nick n.channels;
      store = update n.store r (parted channel ident host hostmask (n.store r));
      users =
          if is_empty (discard channel (n.store r).channels) then erase nick n.users else n.users;
    }
unfolding userpart
userpart_known channel nick ident host hostmask n r e k = ground arith

channels-parted :
    (channel : Text) (ident host hostmask : Option Text) (u : User)
    → (parted channel ident host hostmask u).channels ≡ discard channel u.channels
unfolding refresh
channels-parted channel ident host hostmask u = ground arith

nick-parted :
    (channel : Text) (ident host hostmask : Option Text) (u : User)
    → (parted channel ident host hostmask u).nick ≡ u.nick
unfolding refresh
nick-parted channel ident host hostmask u = ground arith

-- A network in which one user has left one channel.
abbrev after_part : Text → Text → Ref → User → Network → Network
after_part channel nick r u n = record n {
  channels = unseat channel nick n.channels;
  store = update n.store r u;
  users = if is_empty (discard channel (n.store r).channels) then erase nick n.users else n.users;
}

after_part-IsTracked :
    (channel nick : Text) (r : Ref) (u : User) (n : Network)
    → lookup nick n.users ≡ some r
    → u.nick ≡ nick
    → u.channels ≡ discard channel (n.store r).channels
    → IsTracked n
    → IsTracked (after_part channel nick r u n)
unfolding update
after_part-IsTracked channel nick r u n e un uc v = record {
  fresh = λ m s h. ground (arith, lookup-erase nick m n.users, v.fresh m s);
  keyed = λ m s h. ground (arith, lookup-erase nick m n.users, v.keyed m s, v.keyed nick r);
  named = unseat-IsNamed channel nick n.channels v.named;
  known = λ c m s h. ground (
    arith,
    seat-unseat channel c nick m n.channels,
    lookup-erase nick m n.users,
    v.known c m s,
    v.listed c m s,
    contains-discard channel c (n.store r).channels,
    not-is_empty c (discard channel (n.store r).channels),
    eq_iff channel c,
    eq_iff nick m,
  );
  listed = λ c m s h. ground (
    arith,
    seat-unseat channel c nick m n.channels,
    v.known c m s,
    v.listed c m s,
    v.keyed m s,
    v.keyed nick r,
    contains-discard channel c (n.store r).channels,
    eq_iff channel c,
    eq_iff nick m,
  );
  seated = λ c m s h k. ground (
    arith,
    seat-unseat channel c nick m n.channels,
    lookup-erase nick m n.users,
    v.seated c m s,
    v.keyed m s,
    v.keyed nick r,
    contains-discard channel c (n.store r).channels,
    eq_iff channel c,
    eq_iff nick m,
  );
  present = λ m s h. ground (
    arith,
    lookup-erase nick m n.users,
    v.present m s,
    v.keyed m s,
    v.keyed nick r,
    eq_iff nick m,
  );
}

-- A part, of whatever nick and channel, tracked or not, keeps the state well formed.
pub userpart-IsTracked :
    (channel nick : Text) (ident host hostmask : Option Text) (n : Network)
    → IsTracked n
    → IsTracked (userpart channel nick ident host hostmask n)
unfolding userpart
userpart-IsTracked channel nick ident host hostmask n v =
    elim (Option-cases (lookup nick n.users)) [
      | inl e ↦ rw (e, userpart) v
      | inr (r, e) ↦ rw (userpart_known channel nick ident host hostmask n r e (v.keyed nick r e)) (
          after_part-IsTracked channel nick r (parted channel ident host hostmask (n.store r)) n e
            (nick-parted channel ident host hostmask (n.store r) ∙ v.keyed nick r e)
            (channels-parted channel ident host hostmask (n.store r)) v)
    ]

userquit_known :
    (nick : Text) (n : Network) (r : Ref)
    → lookup nick n.users ≡ some r
    → (n.store r).nick ≡ nick
    → userquit nick n ≡ record n {
      channels = leave_channels nick (n.store r).channels n.channels;
      users = erase nick n.users;
    }
unfolding userquit
userquit_known nick n r e k = ground arith

leave_channels-IsNamed :
    (nick : Text) (cs : List Text) (d : Dict Text Channel)
    → IsNamed d
    → IsNamed (leave_channels nick cs d)
unfolding leave_channels
leave_channels-IsNamed nick [] d n = n
leave_channels-IsNamed nick (c ∷ cs) d n = elim (Option-cases (lookup c d)) [
  | inl e ↦ rw (e, leave_channels) (leave_channels-IsNamed nick cs d n)
  | inr (ch, e) ↦
      rw (e, leave_channels)
        (leave_channels-IsNamed nick cs (insert c (channel_removeuser nick ch) d) (
          insert-IsNamed c (channel_removeuser nick ch) d
            (unfold channel_removeuser in n.at_name c ch e)
            (unfold channel_removeuser in erase-IsDistinct nick ch.users (n.distinct c ch e)) n))
]

-- A quit takes the nick off every channel and out of the network, and keeps the state well formed.
pub userquit-IsTracked : (nick : Text) (n : Network) → IsTracked n → IsTracked (userquit nick n)
unfolding userquit
userquit-IsTracked nick n v = elim (Option-cases (lookup nick n.users)) [
  | inl e ↦ rw (e, userquit) v
  | inr (r, e) ↦ rw (userquit_known nick n r e (v.keyed nick r e)) (record {
    fresh = λ m s h. ground (arith, lookup-erase nick m n.users, v.fresh m s);
    keyed = λ m s h. ground (arith, lookup-erase nick m n.users, v.keyed m s);
    named = leave_channels-IsNamed nick (n.store r).channels n.channels v.named;
    known = λ c m s h. ground (
      arith,
      seat-leave_channels nick c m (n.store r).channels n.channels,
      lookup-erase nick m n.users,
      v.known c m s,
      v.listed c m s,
      eq_iff nick m,
    );
    listed = λ c m s h.
        ground
          (arith, seat-leave_channels nick c m (n.store r).channels n.channels, v.listed c m s);
    seated = λ c m s h k. ground (
      arith,
      seat-leave_channels nick c m (n.store r).channels n.channels,
      lookup-erase nick m n.users,
      v.seated c m s,
    );
    present = λ m s h. ground (arith, lookup-erase nick m n.users, v.present m s);
  })
]
