-- ===== src/State/Views.antt =====
-- util/state.py: what the dictionaries of channels say: who sits where.
use py_burly_bot.Common.{
  ◌≡◌, ◌≢◌, refl, ◌&&◌, List, [], ◌∷◌, Option, none, some, Text, text_eq, ◌==◌, Dict, lookup,
  insert, erase, contains, lookup-insert, lookup-erase, if◌then◌else◌, arith, eq_iff, Option-cases,
  Bool-cases, IsDistinct, inl, inr,
}
use py_burly_bot.State.Model.{Ref, Channel}
use py_burly_bot.State.Membership.{rename_key, channel_removeuser, leave_channels}

-- `self.channels[c].users.get(nick)`, or nothing where there is no such channel
unfoldable pub seat : Dict Text Channel → Text → Text → Option Ref
seat d c nick = elim (lookup c d) [ none ↦ none | some ch ↦ lookup nick ch.users ]

-- Every channel is stored under its own name, and seats no nick twice.
pub record IsNamed (d : Dict Text Channel) : Type 0 where
  pub at_name : (c : Text) (ch : Channel) → lookup c d ≡ some ch → ch.name ≡ c
  pub distinct : (c : Text) (ch : Channel) → lookup c d ≡ some ch → IsDistinct ch.users

pub seat-insert :
    (c c' m : Text) (ch : Channel) (d : Dict Text Channel)
    → seat (insert c ch d) c' m ≡ (if c == c' then lookup m ch.users else seat d c' m)
unfolding seat
seat-insert c c' m ch d = ground (arith, lookup-insert c c' ch d)

pub seat-erase :
    (c c' m : Text) (d : Dict Text Channel)
    → seat (erase c d) c' m ≡ (if c == c' then none else seat d c' m)
unfolding seat
seat-erase c c' m d = ground (arith, lookup-erase c c' d)

pub seat-none : (c m : Text) (d : Dict Text Channel) → lookup c d ≡ none → seat d c m ≡ none
unfolding seat
seat-none c m d e = ground arith

pub seat-some :
    (c m : Text) (ch : Channel) (d : Dict Text Channel)
    → lookup c d ≡ some ch
    → seat d c m ≡ lookup m ch.users
unfolding seat
seat-some c m ch d e = ground arith

pub insert-IsNamed :
    (c : Text) (ch : Channel) (d : Dict Text Channel)
    → ch.name ≡ c
    → IsDistinct ch.users
    → IsNamed d
    → IsNamed (insert c ch d)
insert-IsNamed c ch d e u n = record {
  distinct = λ c' ch' h. elim (Bool-cases (c == c')) [
    | inl x ↦ let same : ch ≡ ch' = ground (arith, lookup-insert c c' ch d) in rw (← same) u
    | inr x ↦ n.distinct c' ch' (ground (arith, lookup-insert c c' ch d))
  ];
  at_name = λ c' ch' h. ground (arith, lookup-insert c c' ch d, eq_iff c c', n.at_name c' ch');
}

pub erase-IsNamed : (c : Text) (d : Dict Text Channel) → IsNamed d → IsNamed (erase c d)
erase-IsNamed c d n = record {
  distinct = λ c' ch' h. n.distinct c' ch' (ground (arith, lookup-erase c c' d));
  at_name = λ c' ch' h. ground (arith, lookup-erase c c' d, n.at_name c' ch');
}

-- The seats of a channel after `old` has become `new`.
unfoldable pub renamed : Text → Text → (Text → Option Ref) → Text → Option Ref
renamed old new f m =
    if new == m
    then elim (f old) [ none ↦ f new | some r ↦ some r ]
    else if old == m
    then none
    else f m

pub lookup-rename_key :
    (old new m : Text) (d : Dict Text Ref)
    → old ≢ new
    → lookup m (rename_key old new d) ≡ renamed old new (λ k. lookup k d) m
unfolding rename_key renamed
lookup-rename_key old new m d ne = elim (Option-cases (lookup old d)) [
  | inl e ↦
      rw (e, rename_key, renamed) (ground (arith, lookup-erase old m d, eq_iff old m, eq_iff new m))
  | inr (r, e) ↦
      rw (e, rename_key, renamed)
        (ground (arith, lookup-insert new m r (erase old d), lookup-erase old m d))
]

pub renamed_twice :
    (old new m : Text) (f : Text → Option Ref)
    → old ≢ new
    → renamed old new (renamed old new f) m ≡ renamed old new f m
unfolding renamed
renamed_twice old new m f ne = ground (
  arith,
  eq_iff old new,
  eq_iff new old,
  eq_iff old old,
  eq_iff new new,
  eq_iff new m,
  eq_iff old m,
)

-- The loop of `_userquit` takes the nick off the listed channels and off no other.
pub seat-leave_channels :
    (nick c m : Text) (cs : List Text) (d : Dict Text Channel)
    → seat (leave_channels nick cs d) c m
      ≡ (if contains c cs && nick == m then none else seat d c m)
unfolding leave_channels contains
seat-leave_channels nick c m [] d = refl
seat-leave_channels nick c m (x ∷ xs) d = elim (Option-cases (lookup x d)) [
  | inl e ↦ rw e (ground (arith, seat-leave_channels nick c m xs d, eq_iff x c, seat-none x m d e))
  | inr (ch, e) ↦ rw e (
      ground (
        arith,
        seat-leave_channels nick c m xs (insert x (channel_removeuser nick ch) d),
        seat-insert x c m (channel_removeuser nick ch) d,
        lookup-erase nick m ch.users,
        eq_iff x c,
        seat-some x m ch d e,
      ))
]
