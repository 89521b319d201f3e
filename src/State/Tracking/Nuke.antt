-- ===== src/State/Tracking/Nuke.antt =====
-- util/state.py: the tracked state after `_nukechannel`, `_joinchannel` and `_leavechannel`.
use py_burly_bot.Common.{
  ◌≡◌, ◌≢◌, refl, true, false, none, some, Text, text_eq, nat_eq, ◌==◌, lookup, insert, erase,
  contains, discard, ◌<◌, arith, eq_iff, inl, inr, Option-cases, Bool-cases, contains-discard, Dict,
  IsDistinct, sym, ◌∙◌, lookup-erase, List, [], ◌∷◌,
}
use py_burly_bot.State.Model.{Ref, Channel, Network, update, new_channel}
use py_burly_bot.State.Membership.{
  is_empty, forget_member, forget_members, nukechannel, joinchannel, leavechannel, values,
}
use py_burly_bot.State.Views.{
  seat, IsNamed, seat-insert, seat-erase, seat-some, seat-none, insert-IsNamed, erase-IsNamed,
}
use py_burly_bot.State.Invariant.{IsTracked, not-is_empty}

-- The state before the loop reaches the members `rs`: only they still list the channel.
record IsClearing (channel : Text) (rs : List Ref) (n : Network) : Type 0 where
  fresh : (m : Text) (s : Ref) → lookup m n.users ≡ some s → s < n.next
  keyed : (m : Text) (s : Ref) → lookup m n.users ≡ some s → (n.store s).nick ≡ m
  named : IsNamed n.channels
  -- the nick of a member names that member, or nobody any more
  own : (r s : Ref) → contains r rs ≡ true → lookup (n.store r).nick n.users ≡ some s → s ≡ r
  known :
      (c m : Text) (s : Ref)
      → channel ≢ c
      → seat n.channels c m ≡ some s
      → lookup m n.users ≡ some s
  listed :
      (c m : Text) (s : Ref)
      → channel ≢ c
      → seat n.channels c m ≡ some s
      → contains c (n.store s).channels ≡ true
  seated :
      (c m : Text) (s : Ref)
      → channel ≢ c
      → lookup m n.users ≡ some s
      → contains c (n.store s).channels ≡ true
      → seat n.channels c m ≡ some s
  left :
      (m : Text) (s : Ref)
      → lookup m n.users ≡ some s
      → contains channel (n.store s).channels ≡ true
      → contains s rs ≡ true
  present : (m : Text) (s : Ref) → lookup m n.users ≡ some s → is_empty (n.store s).channels ≡ false

forget_member-IsClearing :
    (channel : Text) (r : Ref) (rs : List Ref) (n : Network)
    → IsClearing channel (r ∷ rs) n
    → IsClearing channel rs (forget_member channel r n)
unfolding forget_member update contains
forget_member-IsClearing channel r rs n v = record {
  fresh = λ m s h. ground (arith, v.fresh m s, lookup-erase (n.store r).nick m n.users);
  keyed =
      λ m s h. ground (arith, v.keyed m s, v.keyed m r, lookup-erase (n.store r).nick m n.users);
  named = v.named;
  own = λ r' s h k.
      ground (arith, v.own r' s, lookup-erase (n.store r).nick (n.store r').nick n.users);
  known = λ c m s ne h. ground (
    arith,
    v.known c m s ne h,
    v.listed c m s ne h,
    v.own r s,
    lookup-erase (n.store r).nick m n.users,
    contains-discard channel c (n.store r).channels,
    not-is_empty c (discard channel (n.store r).channels),
    eq_iff channel c,
    eq_iff (n.store r).nick m,
    eq_iff r r,
  );
  listed = λ c m s ne h. ground (
    arith,
    v.listed c m s ne h,
    contains-discard channel c (n.store r).channels,
    eq_iff channel c,
  );
  seated = λ c m s ne h k. ground (
    arith,
    v.seated c m s ne,
    lookup-erase (n.store r).nick m n.users,
    contains-discard channel c (n.store r).channels,
    eq_iff channel c,
  );
  left = λ m s h k. ground (
    arith,
    v.left m s,
    lookup-erase (n.store r).nick m n.users,
    contains-discard channel channel (n.store r).channels,
    eq_iff channel channel,
  );
  present = λ m s h. ground (
    arith,
    v.present m s,
    v.keyed m s,
    lookup-erase (n.store r).nick m n.users,
    eq_iff (n.store r).nick m,
  );
}

forget_members-IsClearing :
    (channel : Text) (rs : List Ref) (n : Network)
    → IsClearing channel rs n
    → IsClearing channel [] (forget_members channel rs n)
unfolding forget_members
forget_members-IsClearing channel [] n v = v
forget_members-IsClearing channel (r ∷ rs) n v =
    forget_members-IsClearing channel rs (forget_member channel r n)
      (forget_member-IsClearing channel r rs n v)

channels-forget_members :
    (channel : Text) (rs : List Ref) (n : Network)
    → (forget_members channel rs n).channels ≡ n.channels
unfolding forget_members
channels-forget_members channel [] n = refl
channels-forget_members channel (r ∷ rs) n =
    channels-forget_members channel rs (forget_member channel r n)

contains-values :
    (m : Text) (r : Ref) (d : Dict Text Ref) → lookup m d ≡ some r → contains r (values d) ≡ true
unfolding lookup contains
contains-values m r [] h = cc
contains-values m r ((k, s) ∷ d) h = ground (arith, contains-values m r d)

-- Each value of a dictionary is the one that its key looks up.
key_of :
    (r : Ref) (d : Dict Text Ref)
    → IsDistinct d
    → contains r (values d) ≡ true
    → (m : Text) × (lookup m d ≡ some r)
unfolding lookup contains
key_of r [] u h = absurd (cc)
key_of r ((k, s) ∷ d) u h = elim (Bool-cases (s == r)) [
  | inl x ↦ (k, ground (arith, eq_iff s r, eq_iff k k))
  | inr x ↦ let (m, e) = key_of r d u.1 (ground arith) in (m, ground (arith, e, u.0, eq_iff k m))
]

-- Once nobody lists the channel, it can go.
cleared-IsTracked :
    (channel : Text) (n : Network)
    → IsClearing channel [] n
    → IsTracked (record n { channels = erase channel n.channels })
unfolding contains
cleared-IsTracked channel n v = record {
  fresh = v.fresh;
  keyed = v.keyed;
  named = erase-IsNamed channel n.channels v.named;
  known =
      λ c m s h. ground (arith, seat-erase channel c m n.channels, eq_iff channel c, v.known c m s);
  listed = λ c m s h.
      ground (arith, seat-erase channel c m n.channels, eq_iff channel c, v.listed c m s);
  seated = λ c m s h k.
      ground
        (arith, seat-erase channel c m n.channels, eq_iff channel c, v.seated c m s, v.left m s);
  present = v.present;
}

clearing :
    (channel : Text) (ch : Channel) (n : Network)
    → lookup channel n.channels ≡ some ch
    → IsTracked n
    → IsClearing channel (values ch.users) n
clearing channel ch n e v = record {
  fresh = v.fresh;
  keyed = v.keyed;
  named = v.named;
  own = λ r s h k.
      let (m, at) = key_of r ch.users (v.named.distinct channel ch e) h in
      ground (arith, v.known channel m r (seat-some channel m ch n.channels e ∙ at), v.keyed m r);
  known = λ c m s ne. v.known c m s;
  listed = λ c m s ne. v.listed c m s;
  seated = λ c m s ne. v.seated c m s;
  left = λ m s h k.
      contains-values m s ch.users
        (sym (seat-some channel m ch n.channels e) ∙ v.seated channel m s h k);
  present = v.present;
}

-- Forgetting a channel keeps the state well formed: its members stay exactly where another channel
-- still seats them.
pub nukechannel-IsTracked :
    (channel : Text) (n : Network) → IsTracked n → IsTracked (nukechannel channel n)
unfolding nukechannel
nukechannel-IsTracked channel n v = elim (Option-cases (lookup channel n.channels)) [
  | inl e ↦ rw (e, nukechannel) v
  | inr (ch, e) ↦
      rw (e, nukechannel)
        (cleared-IsTracked channel (forget_members channel (values ch.users) n)
          (forget_members-IsClearing channel (values ch.users) n (clearing channel ch n e v)))
]

pub leavechannel-IsTracked :
    (channel : Text) (n : Network) → IsTracked n → IsTracked (leavechannel channel n)
unfolding leavechannel
leavechannel-IsTracked = nukechannel-IsTracked

no_users : (channel k : Text) → lookup k (new_channel channel).users ≡ none
unfolding new_channel lookup
no_users channel k = refl

-- After the removal nobody sits on the channel.
pub seat-nukechannel :
    (channel m : Text) (n : Network) → seat (nukechannel channel n).channels channel m ≡ none
unfolding nukechannel
seat-nukechannel channel m n = elim (Option-cases (lookup channel n.channels)) [
  | inl e ↦ rw (e, nukechannel) (seat-none channel m n.channels e)
  | inr (ch, e) ↦
      rw (e, nukechannel)
        (ground (
          arith,
          seat-erase channel channel m (forget_members channel (values ch.users) n).channels,
          eq_iff channel channel,
        ))
]

-- The bot's own join starts the channel afresh, and keeps the state well formed.
pub joinchannel-IsTracked :
    (channel : Text) (n : Network) → IsTracked n → IsTracked (joinchannel channel n)
unfolding joinchannel
joinchannel-IsTracked channel n v =
    let m = nukechannel channel n in
    let w : IsTracked m = nukechannel-IsTracked channel n v in
    let seats : (c k : Text)
        → seat (insert channel (new_channel channel) m.channels) c k ≡ seat m.channels c k =
      λ c k. ground (
        arith,
        seat-insert channel c k (new_channel channel) m.channels,
        eq_iff channel c,
        seat-nukechannel channel k n,
        no_users channel k,
      ) in
    record {
      fresh = w.fresh;
      keyed = w.keyed;
      named =
          insert-IsNamed channel (new_channel channel) m.channels (unfold new_channel in refl)
            (unfold new_channel in tt) w.named;
      known = λ c k r h. w.known c k r (sym (seats c k) ∙ h);
      listed = λ c k r h. w.listed c k r (sym (seats c k) ∙ h);
      seated = λ c k r h l. seats c k ∙ w.seated c k r h l;
      present = w.present;
    }
