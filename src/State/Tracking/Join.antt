-- ===== src/State/Tracking/Join.antt =====
-- util/state.py: the tracked state after `_userjoin`.
use py_burly_bot.Common.{
  ◌≡◌, ◌≢◌, refl, Bool, true, false, ◌&&◌, Option, none, some, Text, text_eq, nat_eq, ◌==◌, lookup,
  insert, contains, add, ◌<◌, arith, eq_iff, inl, inr, Option-cases, contains-add, if◌then◌else◌,
  Dict, lookup-insert, IsDistinct, insert-IsDistinct, List, [], has_key, suc, ◌∙◌,
}
use py_burly_bot.State.Model.{Ref, User, Channel, Network, update, new_user}
use py_burly_bot.State.Membership.{is_empty, userjoin, seat_user, seat_on, refresh, any_given}
use py_burly_bot.State.Views.{seat, IsNamed, seat-insert, seat-some, insert-IsNamed}
use py_burly_bot.State.Invariant.{IsTracked, not-is_empty}

-- The state between the two halves of `_userjoin`: `nick` is known, and is perhaps on no channel.
record IsJoining (nick : Text) (r : Ref) (n : Network) : Type 0 where
  known_as : lookup nick n.users ≡ some r
  fresh : (m : Text) (s : Ref) → lookup m n.users ≡ some s → s < n.next
  keyed : (m : Text) (s : Ref) → lookup m n.users ≡ some s → (n.store s).nick ≡ m
  named : IsNamed n.channels
  known : (c m : Text) (s : Ref) → seat n.channels c m ≡ some s → lookup m n.users ≡ some s
  listed :
      (c m : Text) (s : Ref) → seat n.channels c m ≡ some s → contains c (n.store s).channels ≡ true
  seated :
      (c m : Text) (s : Ref)
      → lookup m n.users ≡ some s
      → contains c (n.store s).channels ≡ true
      → seat n.channels c m ≡ some s
  others :
      (m : Text) (s : Ref)
      → lookup m n.users ≡ some s
      → nick ≢ m
      → is_empty (n.store s).channels ≡ false

seated_users : Text → Ref → Channel → Dict Text Ref
seated_users nick r c = if has_key nick c.users then c.users else insert nick r c.users

lookup-seated_users :
    (nick m : Text) (r : Ref) (c : Channel)
    → ((s : Ref) → lookup nick c.users ≡ some s → s ≡ r)
    → lookup m (seated_users nick r c) ≡ (if nick == m then some r else lookup m c.users)
unfolding seated_users
lookup-seated_users nick m r c only = elim (Option-cases (lookup nick c.users)) [
  | inl e ↦ ground (arith, lookup-insert nick m r c.users)
  | inr (s, e) ↦ ground (arith, only s e, eq_iff nick m)
]

seated_users-IsDistinct :
    (nick : Text) (r : Ref) (c : Channel) → IsDistinct c.users → IsDistinct (seated_users nick r c)
unfolding seated_users
seated_users-IsDistinct nick r c h = go (has_key nick c.users)
  where
    go : (b : Bool) → IsDistinct (if b then c.users else insert nick r c.users)
    go true = h
    go false = insert-IsDistinct nick r c.users h

abbrev seated : Text → Ref → Text → Channel → Network → Network
seated channel r nick c n = record n {
  store = update n.store r (record (n.store r) { channels = add channel (n.store r).channels });
  channels = insert channel (record c { users = seated_users nick r c }) n.channels;
}

seat_on-eq-seated :
    (channel nick : Text) (r : Ref) (c : Channel) (n : Network)
    → (n.store r).nick ≡ nick
    → c.name ≡ channel
    → seat_on channel c (r, n) ≡ seated channel r nick c n
unfolding seat_on seated_users
seat_on-eq-seated channel nick r c n k e = ground arith

add-not-is_empty : (c : Text) (xs : List Text) → is_empty (add c xs) ≡ false
add-not-is_empty c xs = ground (arith, not-is_empty c (add c xs), contains-add c c xs, eq_iff c c)

seat-seated :
    (channel nick c m : Text) (r : Ref) (ch : Channel) (n : Network)
    → lookup channel n.channels ≡ some ch
    → IsJoining nick r n
    → seat (seated channel r nick ch n).channels c m
      ≡ (if channel == c && nick == m then some r else seat n.channels c m)
seat-seated channel nick c m r ch n e v = ground (
  arith,
  seat-insert channel c m (record ch { users = seated_users nick r ch }) n.channels,
  lookup-seated_users nick m r ch (λ s h.
      ground
        (arith, v.known channel nick s (seat-some channel nick ch n.channels e ∙ h), v.known_as)),
  seat-some channel m ch n.channels e,
  eq_iff channel c,
)

seated-IsTracked :
    (channel nick : Text) (r : Ref) (ch : Channel) (n : Network)
    → lookup channel n.channels ≡ some ch
    → IsJoining nick r n
    → IsTracked (seated channel r nick ch n)
unfolding update
seated-IsTracked channel nick r ch n e v = record {
  fresh = v.fresh;
  keyed = λ m s h. ground (arith, v.keyed m s h, v.keyed nick r);
  named =
      insert-IsNamed channel (record ch { users = seated_users nick r ch }) n.channels
        (v.named.at_name channel ch e)
        (seated_users-IsDistinct nick r ch (v.named.distinct channel ch e)) v.named;
  known = λ c m s h.
      ground
        (arith, seat-seated channel nick c m r ch n e v, v.known c m s, v.known_as, eq_iff nick m);
  listed = λ c m s h. ground (
    arith,
    seat-seated channel nick c m r ch n e v,
    v.listed c m s,
    contains-add channel c (n.store r).channels,
    eq_iff nick m,
  );
  seated = λ c m s h k. ground (
    arith,
    seat-seated channel nick c m r ch n e v,
    v.seated c m s,
    v.keyed m s,
    v.keyed nick r,
    v.known_as,
    contains-add channel c (n.store r).channels,
    eq_iff nick m,
    eq_iff channel c,
  );
  present = λ m s h. ground (
    arith,
    v.others m s,
    v.known_as,
    eq_iff nick m,
    add-not-is_empty channel (n.store r).channels,
  );
}

refresh_keeps :
    (ident host hostmask : Option Text) (u : User)
    → ((refresh ident host hostmask u).nick ≡ u.nick)
      × ((refresh ident host hostmask u).channels ≡ u.channels)
unfolding refresh
refresh_keeps ident host hostmask u = (refl, refl)

-- The known user, refreshed.
abbrev refreshed_at : Ref → User → Network → Network
refreshed_at r u n = record n { store = update n.store r u }

refreshed_at-IsJoining :
    (nick : Text) (r : Ref) (u : User) (n : Network)
    → lookup nick n.users ≡ some r
    → u.nick ≡ (n.store r).nick
    → u.channels ≡ (n.store r).channels
    → IsTracked n
    → IsJoining nick r (refreshed_at r u n)
unfolding update
refreshed_at-IsJoining nick r u n e un uc v = record {
  known_as = e;
  fresh = v.fresh;
  keyed = λ m s h. ground (arith, v.keyed m s h);
  named = v.named;
  known = v.known;
  listed = λ c m s h. ground (arith, v.listed c m s h);
  seated = λ c m s h k. ground (arith, v.seated c m s h);
  others = λ m s h ne. ground (arith, v.present m s h);
}

known-IsJoining :
    (nick : Text) (r : Ref) (n : Network)
    → lookup nick n.users ≡ some r
    → IsTracked n
    → IsJoining nick r n
known-IsJoining nick r n e v = record {
  known_as = e;
  fresh = v.fresh;
  keyed = v.keyed;
  named = v.named;
  known = v.known;
  listed = v.listed;
  seated = v.seated;
  others = λ m s h ne. v.present m s h;
}

-- A new user object: no channel holds its reference yet.
abbrev with_new : Text → User → Network → Network
with_new nick u n = record n {
  store = update n.store n.next u;
  users = insert nick n.next n.users;
  next = suc n.next;
}

with_new-IsJoining :
    (nick : Text) (u : User) (n : Network)
    → lookup nick n.users ≡ none
    → u.nick ≡ nick
    → u.channels ≡ []
    → IsTracked n
    → IsJoining nick n.next (with_new nick u n)
unfolding update contains
with_new-IsJoining nick u n e un uc v = record {
  known_as = ground (arith, lookup-insert nick nick n.next n.users, eq_iff nick nick);
  fresh = λ m s h. ground (arith, lookup-insert nick m n.next n.users, v.fresh m s);
  keyed = λ m s h.
      ground (arith, lookup-insert nick m n.next n.users, v.keyed m s, v.fresh m s, eq_iff nick m);
  named = v.named;
  known = λ c m s h.
      ground (arith, lookup-insert nick m n.next n.users, v.known c m s h, eq_iff nick m);
  listed = λ c m s h. ground (arith, v.known c m s h, v.fresh m s, v.listed c m s h);
  seated =
      λ c m s h k. ground (arith, lookup-insert nick m n.next n.users, v.fresh m s, v.seated c m s);
  others = λ m s h ne.
      ground
        (arith, lookup-insert nick m n.next n.users, v.fresh m s, v.present m s, eq_iff nick m);
}

seat_user-IsJoining :
    (nick : Text) (ident host hostmask : Option Text) (n : Network)
    → IsTracked n
    → IsJoining nick
        (seat_user nick ident host hostmask n).0
        (seat_user nick ident host hostmask n).1
unfolding seat_user
seat_user-IsJoining nick ident host hostmask n v = elim (Option-cases (lookup nick n.users)) [
  | inl e ↦
      rw (e, seat_user)
        (with_new-IsJoining nick (new_user nick ident host hostmask) n e refl refl v)
  | inr (r, e) ↦ rw (e, seat_user) (kept (any_given ident host hostmask) r e)
]
  where
    kept :
        (b : Bool) (r : Ref)
        → lookup nick n.users ≡ some r
        → IsJoining nick r
            (if b then refreshed_at r (refresh ident host hostmask (n.store r)) n else n)
    kept true r e =
        let (a, b) = refresh_keeps ident host hostmask (n.store r) in
        refreshed_at-IsJoining nick r (refresh ident host hostmask (n.store r)) n e a b v
    kept false r e = known-IsJoining nick r n e v

seat_user-channels :
    (nick : Text) (ident host hostmask : Option Text) (n : Network)
    → (seat_user nick ident host hostmask n).1.channels ≡ n.channels
unfolding seat_user
seat_user-channels nick ident host hostmask n = ground arith

-- A join, of whatever nick to whatever channel, keeps the state well formed.
pub userjoin-IsTracked :
    (channel nick : Text) (ident host hostmask : Option Text) (n : Network)
    → IsTracked n
    → IsTracked (userjoin channel nick ident host hostmask n)
unfolding userjoin
userjoin-IsTracked channel nick ident host hostmask n v =
    elim (Option-cases (lookup channel n.channels)) [
      | inl e ↦ rw (e, userjoin) v
      | inr (ch, e) ↦
          rw (e, userjoin)
            (let p = seat_user nick ident host hostmask n in
              let j : IsJoining nick p.0 p.1 = seat_user-IsJoining nick ident host hostmask n v in
              let e' : lookup channel p.1.channels ≡ some ch =
                rw (seat_user-channels nick ident host hostmask n) e in
              rw
                (seat_on-eq-seated channel nick p.0 ch p.1 (j.keyed nick p.0 j.known_as)
                  (v.named.at_name channel ch e))
                (seated-IsTracked channel nick p.0 ch p.1 e' j))
    ]
