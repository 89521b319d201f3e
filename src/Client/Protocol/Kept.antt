-- ===== src/Client/Protocol/Kept.antt =====
-- util/client.py: the tracked state after the handlers of messages.
use py_burly_bot.Common.{
  List, [], ◌∷◌, Option, none, some, Text, text_eq, ◌==◌, lookup, ◌≡◌, refl, arith, inl, inr,
  Bool-cases, Option-cases, List-cases,
}
use py_burly_bot.State.Model.{Network}
use py_burly_bot.State.Membership.{truthy, joinchannel, userquit}
use py_burly_bot.State.Invariant.{IsTracked}
use py_burly_bot.State.Tracking.Part.{userpart-IsTracked, userquit-IsTracked}
use py_burly_bot.State.Tracking.Join.{userjoin-IsTracked}
use py_burly_bot.State.Tracking.Nuke.{joinchannel-IsTracked, leavechannel-IsTracked}
use py_burly_bot.State.Tracking.Rename.{userrename-IsTracked}
use py_burly_bot.Client.Masks.{Hostmask, process_hostmask}
use py_burly_bot.Client.Protocol.{
  Message, Client, after, map_state, on_state, own_prefix, ask_modes, keep_account, account_for,
  join_account, forget_legacy_account, joined, irc_join, irc_part, irc_quit, move_account,
  rename_other, irc_nick, irc_account, irc_kick, Verb, join_verb, part_verb, quit_verb, nick_verb,
  account_verb, kick_verb, handle,
}

-- Where the client tracks state, it is well formed.
abbrev pub IsSound : Option Network → Type 0
IsSound none = Unit
IsSound (some n) = IsTracked n

-- No tracked user has the nick.
abbrev pub IsUnused : Text → Option Network → Type 0
IsUnused nick none = Unit
IsUnused nick (some n) = lookup nick n.users ≡ none

-- A NICK message names a nick that no tracked user has.
abbrev pub IsFair : Verb → List Text → Option Network → Type 0
IsFair nick_verb (new ∷ rest) s = IsUnused new s
IsFair _ _ s = Unit

map_state-IsSound :
    (f : Network → Network) (s : Option Network)
    → ((n : Network) → IsTracked n → IsTracked (f n))
    → IsSound s
    → IsSound (map_state f s)
map_state-IsSound f none keeps v = v
map_state-IsSound f (some n) keeps v = keeps n v

state-ask_modes : (channel : Text) (c : Client) → (ask_modes channel c).state ≡ c.state
state-ask_modes channel c = ground arith

module _ (fold lower nick_changed : Text → Text) where
  state-keep_account :
      (nick : Text) (a : Option Text) (c : Client)
      → (keep_account fold lower nick_changed nick a c).state ≡ c.state
  unfolding keep_account
  state-keep_account nick none c = refl
  state-keep_account nick (some []) c = refl
  state-keep_account nick (some (x ∷ xs)) c = refl

  state-account_for :
      (m : Message) (c : Client) → (account_for fold lower nick_changed m c).1.state ≡ c.state
  unfolding account_for
  state-account_for m c = ground arith

  state-join_account :
      (m : Message) (c : Client) → (join_account fold lower nick_changed m c).1.state ≡ c.state
  unfolding join_account
  state-join_account m c = ground (arith, state-account_for m c)

  joined-IsSound :
      (m : Message) (w : Hostmask) (channel : Text) (a : Option Text) (c : Client)
      → IsSound c.state
      → IsSound (joined fold lower nick_changed m w channel (a, c)).state
  joined-IsSound m w channel a c v =
      let d = keep_account fold lower nick_changed w.nick a c in
      let vd : IsSound d.state = rw (state-keep_account w.nick a c) v in
      elim (Bool-cases (w.nick == d.nickname)) [
        | inl e ↦
            rw (e, state-ask_modes channel (on_state (joinchannel channel) (own_prefix m d)))
              (map_state-IsSound (joinchannel channel) d.state (joinchannel-IsTracked channel) vd)
        | inr e ↦ rw e (
            map_state-IsSound _ d.state
              (userjoin-IsTracked channel w.nick (some w.ident) (some w.host) (some m.prefix)) vd)
      ]

  irc_join-IsSound :
      (m : Message) (c : Client)
      → IsSound c.state
      → IsSound (after (irc_join fold lower nick_changed m c)).state
  unfolding irc_join
  irc_join-IsSound m c v = elim (Option-cases (process_hostmask m.prefix)) [
    | inl e ↦ rw (e, irc_join) v
    | inr (w, e) ↦ elim (List-cases m.params) [
      | inl p ↦ rw (e, irc_join, p) v
      | inr (channel, rest, p) ↦
          rw (e, irc_join, p)
            (joined-IsSound m w channel (join_account fold lower nick_changed m c).0
              (join_account fold lower nick_changed m c).1 (rw (state-join_account m c) v))
    ]
  ]

  irc_part-IsSound :
      (m : Message) (c : Client)
      → IsSound c.state
      → IsSound (after (irc_part fold lower nick_changed m c)).state
  unfolding irc_part
  irc_part-IsSound m c v = elim (Option-cases (process_hostmask m.prefix)) [
    | inl e ↦ rw (e, irc_part) v
    | inr (w, e) ↦ elim (List-cases m.params) [
      | inl p ↦ rw (e, irc_part, p) v
      | inr (channel, rest, p) ↦ elim (Bool-cases (w.nick == c.nickname)) [
        | inl own ↦
            rw (e, irc_part, p, own)
              (map_state-IsSound _ c.state (leavechannel-IsTracked channel) v)
        | inr other ↦
            rw (e, irc_part, p, other)
              (map_state-IsSound _ c.state
                (userpart-IsTracked channel w.nick (some w.ident) (some w.host) (some m.prefix)) v)
      ]
    ]
  ]

  irc_quit-IsSound :
      (m : Message) (c : Client)
      → IsSound c.state
      → IsSound (after (irc_quit fold lower nick_changed m c)).state
  unfolding irc_quit forget_legacy_account
  irc_quit-IsSound m c v = elim (Option-cases (process_hostmask m.prefix)) [
    | inl e ↦ rw (e, irc_quit) v
    | inr (w, e) ↦
        let q : IsSound (map_state (userquit w.nick) c.state) =
          map_state-IsSound (userquit w.nick) c.state (userquit-IsTracked w.nick) v in
        elim (List-cases m.params) [
          | inl p ↦ rw (e, irc_quit, p) q
          | inr (msg, rest, p) ↦ rw (e, irc_quit, p) q
        ]
  ]

  state-move_account :
      (old new : Text) (c : Client)
      → (move_account fold lower nick_changed old new c).state ≡ c.state
  unfolding move_account
  state-move_account old new c = state-keep_account new _ _

  state-irc_account :
      (m : Message) (c : Client) → (after (irc_account fold lower nick_changed m c)).state ≡ c.state
  unfolding irc_account
  state-irc_account m c = ground arith

  irc_kick-IsSound :
      (m : Message) (c : Client)
      → IsSound c.state
      → IsSound (after (irc_kick fold lower nick_changed m c)).state
  unfolding irc_kick
  irc_kick-IsSound m c v = go m.params refl
    where
      go :
          (ps : List Text)
          → m.params ≡ ps
          → IsSound (after (irc_kick fold lower nick_changed m c)).state
      go [] e = rw (e, irc_kick) v
      go (x ∷ []) e = rw (e, irc_kick) v
      go (channel ∷ kicked ∷ rest) e = elim (Bool-cases (lower kicked == lower c.nickname)) [
        | inl own ↦
            rw (e, irc_kick, own) (map_state-IsSound _ c.state (leavechannel-IsTracked channel) v)
        | inr other ↦
            rw (e, irc_kick, other)
              (map_state-IsSound _ c.state (userpart-IsTracked channel kicked none none none) v)
      ]

  rename_other-IsSound :
      (m : Message) (w : Hostmask) (new : Text) (account : Option Text) (c : Client)
      → IsSound c.state
      → IsUnused new c.state
      → IsSound (after (rename_other fold lower nick_changed m w new account c)).state
  rename_other-IsSound m w new account c v free = go c.state refl v free
    where
      go :
          (s : Option Network)
          → c.state ≡ s
          → IsSound s
          → IsUnused new s
          → IsSound (after (rename_other fold lower nick_changed m w new account c)).state
      go none e v free = rw e tt
      go (some n) e v free =
          let (n', returned, tracked, _, _) =
            userrename-IsTracked w.nick new (some w.ident) (some w.host) (some m.prefix) n free v in
          rw (e, returned) tracked

  irc_nick-IsSound :
      (m : Message) (c : Client)
      → IsFair nick_verb m.params c.state
      → IsSound c.state
      → IsSound (after (irc_nick fold lower nick_changed m c)).state
  unfolding irc_nick forget_legacy_account
  irc_nick-IsSound m c fair v = elim (Option-cases (process_hostmask m.prefix)) [
    | inl e ↦ rw (e, irc_nick) v
    | inr (w, e) ↦ elim (List-cases m.params) [
      | inl p ↦ elim (Bool-cases (truthy (lookup (fold w.nick) c.accounts))) [
        | inl t ↦ rw (e, irc_nick, p, t) v
        | inr t ↦ rw (e, irc_nick, p, t) v
      ]
      | inr (new, rest, p) ↦
          let d = move_account fold lower nick_changed w.nick new c in
          let vd : IsSound d.state = rw (state-move_account w.nick new c) v in
          let free : IsUnused new d.state = rw (state-move_account w.nick new c) (rw p at fair) in
          elim (Bool-cases (w.nick == c.nickname)) [
            | inl own ↦ rw (e, irc_nick, p, own) vd
            | inr other ↦ rw (e, irc_nick, p, other) (rename_other-IsSound m w new _ _ vd free)
          ]
    ]
  ]

  -- Whatever message comes, also one that the handler raises on, the tracked state stays well formed,
  -- where a NICK message names a nick that no tracked user has.
  pub handle-IsSound :
      (v : Verb) (m : Message) (c : Client)
      → IsFair v m.params c.state
      → IsSound c.state
      → IsSound (after (handle fold lower nick_changed v m c)).state
  unfolding handle
  handle-IsSound join_verb m c fair s = irc_join-IsSound m c s
  handle-IsSound part_verb m c fair s = irc_part-IsSound m c s
  handle-IsSound quit_verb m c fair s = irc_quit-IsSound m c s
  handle-IsSound nick_verb m c fair s = irc_nick-IsSound m c fair s
  handle-IsSound account_verb m c fair s = rw (state-irc_account m c) s
  handle-IsSound kick_verb m c fair s = irc_kick-IsSound m c s
