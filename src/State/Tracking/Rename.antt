-- ===== src/State/Tracking/Rename.antt =====
-- util/state.py: the tracked state after `_userrename`.
use py_burly_bot.Common.{
  ◌≡◌, ◌≢◌, refl, true, false, Option, none, some, Text, text_eq, nat_eq, ◌==◌, lookup, insert,
  erase, contains, arith, eq_iff, inl, inr, Option-cases, Bool-cases, if◌then◌else◌, Dict,
  lookup-insert, lookup-erase, IsDistinct, insert-IsDistinct, erase-IsDistinct, sym, ap, ◌∙◌, List,
  [], ◌∷◌,
}
use py_burly_bot.State.Model.{Ref, User, Channel, Network, update, ok}
use py_burly_bot.State.Membership.{
  is_empty, userrename, rename_on, rename_key, channel_changeuser, refresh,
}
use py_burly_bot.State.Views.{
  seat, IsNamed, seat-insert, seat-some, insert-IsNamed, renamed, lookup-rename_key, renamed_twice,
}
use py_burly_bot.State.Invariant.{IsTracked}

rename_key-IsDistinct :
    (old new : Text) (d : Dict Text Ref) → IsDistinct d → IsDistinct (rename_key old new d)
unfolding rename_key
rename_key-IsDistinct old new d h = elim (Option-cases (lookup old d)) [
  | inl e ↦ rw (e, rename_key) (erase-IsDistinct old d h)
  | inr (r, e) ↦
      rw (e, rename_key) (insert-IsDistinct new r (erase old d) (erase-IsDistinct old d h))
]

-- What the loop over the user's channels leaves behind.
record Renamed (old new : Text) (cs : List Text) (n n' : Network) : Type 0 where
  users : n'.users ≡ n.users
  store : n'.store ≡ n.store
  next : n'.next ≡ n.next
  named : IsNamed n'.channels
  seats :
      (c m : Text)
      → seat n'.channels c m
        ≡ (if contains c cs then renamed old new (seat n.channels c) m else seat n.channels c m)

-- The network after one round of the loop.
abbrev renamed_in : Text → Text → Text → Channel → Network → Network
renamed_in old new c ch n = record n {
  channels = insert c (channel_changeuser old new ch) n.channels;
}

seat-renamed_in :
    (old new c c' m : Text) (ch : Channel) (n : Network)
    → old ≢ new
    → lookup c n.channels ≡ some ch
    → seat (renamed_in old new c ch n).channels c' m
      ≡ (if c == c' then renamed old new (seat n.channels c') m else seat n.channels c' m)
unfolding channel_changeuser renamed
seat-renamed_in old new c c' m ch n ne e = ground (
  arith,
  seat-insert c c' m (channel_changeuser old new ch) n.channels,
  lookup-rename_key old new m ch.users ne,
  seat-some c m ch n.channels e,
  seat-some c old ch n.channels e,
  seat-some c new ch n.channels e,
  eq_iff c c',
)

step-seats :
    (old new c : Text) (cs : List Text) (ch : Channel) (n n' : Network)
    → old ≢ new
    → lookup c n.channels ≡ some ch
    → Renamed old new cs (renamed_in old new c ch n) n'
    → (c' m : Text)
    → seat n'.channels c' m ≡ (
        if contains c' (c ∷ cs)
        then renamed old new (seat n.channels c') m
        else seat n.channels c' m)
unfolding contains renamed
step-seats old new c cs ch n n' ne e w c' m = ground (
  arith,
  w.seats c' m,
  seat-renamed_in old new c c' m ch n ne e,
  seat-renamed_in old new c c' old ch n ne e,
  seat-renamed_in old new c c' new ch n ne e,
  renamed_twice old new m (seat n.channels c') ne,
  eq_iff old new,
  eq_iff old old,
  eq_iff new new,
  eq_iff new old,
)

has_channel-renamed_in :
    (old new c c' : Text) (ch ch' : Channel) (n : Network)
    → lookup c' n.channels ≡ some ch'
    → (ch'' : Channel) × (lookup c' (renamed_in old new c ch n).channels ≡ some ch'')
has_channel-renamed_in old new c c' ch ch' n e = elim (Bool-cases (c == c')) [
  | inl x ↦ (
    channel_changeuser old new ch,
    ground (arith, lookup-insert c c' (channel_changeuser old new ch) n.channels),
  )
  | inr x ↦ (ch', ground (arith, lookup-insert c c' (channel_changeuser old new ch) n.channels))
]

rename_on-Renamed :
    (old new : Text) (cs : List Text) (n : Network)
    → old ≢ new
    → IsNamed n.channels
    → ((c : Text) → contains c cs ≡ true → (ch : Channel) × (lookup c n.channels ≡ some ch))
    → (n' : Network) × (rename_on old new cs n ≡ ok n') × Renamed old new cs n n'
unfolding rename_on contains
rename_on-Renamed old new [] n ne v have =
    (n, refl, record { users = refl; store = refl; next = refl; named = v; seats = λ c m. refl })
rename_on-Renamed old new (c ∷ cs) n ne v have =
    let (ch, e) = have c (ground (arith, eq_iff c c)) in
    let named : IsNamed (renamed_in old new c ch n).channels =
      insert-IsNamed c (channel_changeuser old new ch) n.channels
        (unfold channel_changeuser in v.at_name c ch e)
        (unfold channel_changeuser in rename_key-IsDistinct old new ch.users (v.distinct c ch e))
        v in
    let (n', run, w) = rename_on-Renamed old new cs (renamed_in old new c ch n) ne named (λ c' h.
      let (ch', e') = have c' (ground arith) in has_channel-renamed_in old new c c' ch ch' n e') in
    (
      n',
      rw (e, rename_on) run,
      record {
        users = w.users;
        store = w.store;
        next = w.next;
        named = w.named;
        seats = step-seats old new c cs ch n n' ne e w;
      },
    )

channel_of_seat :
    (c m : Text) (r : Ref) (d : Dict Text Channel)
    → seat d c m ≡ some r
    → (ch : Channel) × (lookup c d ≡ some ch)
unfolding seat
channel_of_seat c m r d h = elim (Option-cases (lookup c d)) [
  | inl e ↦ absurd (ground arith)
  | inr found ↦ found
]

module _ (old new : Text) (r : Ref) (u : User) (n : Network)
    (known_as : lookup old n.users ≡ some r) (unused : lookup new n.users ≡ none)
    (nick : u.nick ≡ new) (kept : u.channels ≡ (n.store r).channels) (v : IsTracked n) where
  -- The network when the loop of `_userrename` starts.
  abbrev moved : Network
  moved = record n { store = update n.store r u; users = insert new r (erase old n.users) }

  old-ne-new : old ≢ new
  old-ne-new e = ground (arith, ap (λ (k : Text). lookup k n.users) e)

  users-moved :
      (m : Text)
      → lookup m moved.users
        ≡ (if new == m then some r else if old == m then none else lookup m n.users)
  users-moved m =
      ground (arith, lookup-insert new m r (erase old n.users), lookup-erase old m n.users)

  no-seat-new : (c : Text) → seat n.channels c new ≡ none
  no-seat-new c = elim (Option-cases (seat n.channels c new)) [
    | inl e ↦ e
    | inr (s, e) ↦ absurd (ground (arith, v.known c new s e))
  ]

  module _ (n' : Network) (w : Renamed old new (n.store r).channels moved n') where
    Renamed-known :
        (c m : Text) (s : Ref) → seat n'.channels c m ≡ some s → lookup m moved.users ≡ some s
    unfolding renamed
    Renamed-known c m s h = ground (
      arith,
      w.seats c m,
      users-moved m,
      no-seat-new c,
      v.known c m s,
      v.known c old s,
      v.listed c old s,
      v.seated c old r known_as,
      eq_iff new m,
      eq_iff old m,
    )

    Renamed-listed :
        (c m : Text) (s : Ref)
        → seat n'.channels c m ≡ some s
        → contains c (moved.store s).channels ≡ true
    unfolding renamed update
    Renamed-listed c m s h = ground (
      arith,
      w.seats c m,
      no-seat-new c,
      v.listed c m s,
      v.listed c old s,
      v.seated c old r known_as,
      eq_iff new m,
      eq_iff old m,
    )

    Renamed-seated :
        (c m : Text) (s : Ref)
        → lookup m moved.users ≡ some s
        → contains c (moved.store s).channels ≡ true
        → seat n'.channels c m ≡ some s
    unfolding renamed update
    Renamed-seated c m s h k = ground (
      arith,
      w.seats c m,
      users-moved m,
      v.seated c m s,
      v.seated c old r known_as,
      eq_iff new m,
      eq_iff old m,
    )

    keyed-moved : (m : Text) (s : Ref) → lookup m moved.users ≡ some s → (moved.store s).nick ≡ m
    unfolding update
    keyed-moved m s h =
        ground
          (arith, users-moved m, v.keyed m s, v.keyed old r known_as, eq_iff new m, eq_iff old m)

    present-moved :
        (m : Text) (s : Ref)
        → lookup m moved.users ≡ some s
        → is_empty (moved.store s).channels ≡ false
    unfolding update
    present-moved m s h =
        ground (arith, users-moved m, v.present m s, v.present old r known_as, eq_iff new m)

    Renamed-IsTracked : IsTracked n'
    Renamed-IsTracked = record {
      fresh = λ m s h.
          ground (arith, w.next, w.users, users-moved m, v.fresh m s, v.fresh old r known_as);
      keyed = λ m s h. rw w.store (keyed-moved m s (rw w.users at h));
      named = w.named;
      known = λ c m s h. rw w.users (Renamed-known c m s h);
      listed = λ c m s h. rw w.store (Renamed-listed c m s h);
      seated = λ c m s h k. Renamed-seated c m s (rw w.users at h) (rw w.store at k);
      present = λ m s h. rw w.store (present-moved m s (rw w.users at h));
    }

  no-seat-old : (c : Text) → contains c (n.store r).channels ≡ false → seat n.channels c old ≡ none
  no-seat-old c h = elim (Option-cases (seat n.channels c old)) [
    | inl e ↦ e
    | inr (s, e) ↦ absurd (ground (arith, v.known c old s e, v.listed c old s e))
  ]

  moved_run :
      (n' : Network) × (rename_on old new (n.store r).channels moved ≡ ok n')
      × Renamed old new (n.store r).channels moved n'
  moved_run =
      rename_on-Renamed old new (n.store r).channels moved old-ne-new v.named
        (λ c h. channel_of_seat c old r n.channels (v.seated c old r known_as h))

  moved_total :
      (n' : Network) × (rename_on old new (n.store r).channels moved ≡ ok n')
      × IsTracked n'
      × ((c : Text) → seat n'.channels c new ≡ seat n.channels c old)
      × (lookup old n'.users ≡ none)
  unfolding renamed
  moved_total =
      let (n', run, w) = moved_run in
      (
        n',
        run,
        Renamed-IsTracked n' w,
        (λ c. ground (arith, w.seats c new, no-seat-new c, eq_iff new new, no-seat-old c)),
        ground (arith, w.users, users-moved old, eq_iff old old, eq_iff new old, old-ne-new),
      )

-- `_userrename` of any nick to one that no tracked user has: it never raises, the state stays well
-- formed, and whoever sat under the old nick sits under the new one on every channel.
pub userrename-IsTracked :
    (old new : Text) (ident host hostmask : Option Text) (n : Network)
    → lookup new n.users ≡ none
    → IsTracked n
    → (n' : Network) × (userrename old new ident host hostmask n ≡ ok n')
      × IsTracked n'
      × ((c : Text) → seat n'.channels c new ≡ seat n.channels c old)
      × (lookup old n'.users ≡ none)
unfolding userrename
userrename-IsTracked old new ident host hostmask n unused v =
    elim (Option-cases (lookup old n.users)) [
      | inl e ↦ (n, rw (e, userrename) refl, v, (λ c. seats c e), e)
      | inr (r, e) ↦
          let u = refresh ident host hostmask (record (n.store r) { nick = new }) in
          let (n', run, w, seats, gone) =
            moved_total old new r u n e unused (unfold refresh in refl) (unfold refresh in refl)
              v in
          (n', rw (e, userrename) run, w, seats, gone)
    ]
  where
    nobody : (c m : Text) → lookup m n.users ≡ none → seat n.channels c m ≡ none
    nobody c m e = elim (Option-cases (seat n.channels c m)) [
      | inl x ↦ x
      | inr (s, x) ↦ absurd (ground (arith, v.known c m s x))
    ]

    seats : (c : Text) → lookup old n.users ≡ none → seat n.channels c new ≡ seat n.channels c old
    seats c e = nobody c new unused ∙ sym (nobody c old e)
