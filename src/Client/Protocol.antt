-- ===== src/Client/Protocol.antt =====
-- util/client.py: the handlers of JOIN, PART, QUIT, NICK, ACCOUNT and KICK, and the accounts that
-- they keep. `fold` is `str.casefold`, `lower` is `str.lower`, and `nick_changed` gives the nickname
-- that `IRCClient.nickChanged` leaves.
pub mod Kept
pub mod Accounts
use py_burly_bot.Common.{
  ℕ, Bool, true, false, List, [], ◌∷◌, ◌++◌, Option, none, some, Text, text_eq, ◌==◌, codes, Dict,
  lookup, insert, erase, length, if◌then◌else◌,
}
use py_burly_bot.State.Model.{Network, Outcome, ok, raise}
use py_burly_bot.State.Membership.{
  truthy, joinchannel, leavechannel, userjoin, userpart, userquit, userrename,
}
use py_burly_bot.Dispatch.Fire.{real_account, star}
use py_burly_bot.Client.Masks.{Hostmask, split_at, bang, process_hostmask, irc_casefold}

-- A message of the server, with the tags that came with it.
pub record Message : Type 0 where
  pub prefix : Text
  pub params : List Text
  pub tags : Dict Text (Option Text)

-- One call of `self.dispatch`.
pub record Notice : Type 0 where
  pub type : Text
  pub prefix : Text
  pub params : List Text
  pub target : Option Text
  pub nick : Option Text
  pub ident : Option Text
  pub host : Option Text
  pub account : Option Text
  pub msg : Option Text
  pub newname : Option Text
  pub kicked : Option Text

-- `sent` is what was given to `sendLine`, `notices` what was given to `dispatch`.
pub record Client : Type 0 where
  pub nickname : Text
  pub prefixlen : Option ℕ
  pub state : Option Network
  pub accounts : Dict Text Text
  pub status_cache : Dict Text (ℕ × Option Text)
  pub sent : List Text
  pub notices : List Notice

-- A handler returns, or raises with what was written before.
pub data Handled : Type 0 where
  done : Client → Handled
  fault : Client → Handled

abbrev pub after : Handled → Client
after (done c) = c
after (fault c) = c

abbrev pub plain : Text → Message → Notice
plain type m = record {
  type = type;
  prefix = m.prefix;
  params = m.params;
  target = none;
  nick = none;
  ident = none;
  host = none;
  account = none;
  msg = none;
  newname = none;
  kicked = none;
}

abbrev pub by_user : Text → Message → Hostmask → Notice
by_user type m w = record (plain type m) {
  nick = some w.nick;
  ident = some w.ident;
  host = some w.host;
}

abbrev pub tell : Notice → Client → Client
tell e c = record c { notices = c.notices ++ e ∷ [] }

-- `if self.state: ...`
abbrev pub map_state : (Network → Network) → Option Network → Option Network
map_state f none = none
map_state f (some n) = some (f n)

abbrev pub on_state : (Network → Network) → Client → Client
on_state f c = record c { state = map_state f c.state }

abbrev pub own_prefix : Message → Client → Client
own_prefix m c = record c { prefixlen = some (length m.prefix) }

-- `if self.state: ...; self.sendLine("MODE %s" % channel)`
abbrev pub ask_modes : Text → Client → Client
ask_modes channel c = elim c.state [
  | none ↦ c
  | some _ ↦ record c { sent = c.sent ++ (codes "MODE " ++ channel) ∷ [] }
]

abbrev pub last_or : Text → List Text → Text
last_or x [] = x
last_or x (y ∷ ys) = last_or y ys

-- `prefix.split("!")[0]`
abbrev pub before_bang : Text → Text
before_bang s = elim (split_at bang s) [ none ↦ s | some p ↦ p.0 ]

pub data Verb : Type 0 where
  join_verb part_verb quit_verb nick_verb account_verb kick_verb : Verb

module _ (fold lower nick_changed : Text → Text) where
  -- `if account: self._accounts[nick.casefold()] = account`
  unfoldable pub keep_account : Text → Option Text → Client → Client
  keep_account nick none c = c
  keep_account nick (some []) c = c
  keep_account nick (some (x ∷ xs)) c = record c {
    accounts = insert (fold nick) (x ∷ xs) c.accounts;
  }

  abbrev pub drop_account : Text → Client → Client
  drop_account nick c = record c { accounts = erase (fold nick) c.accounts }

  -- `_account_for`: the account and the client
  unfoldable pub account_for : Message → Client → Option Text × Client
  unfolding process_hostmask real_account
  account_for m c = elim (process_hostmask m.prefix) [
    | none ↦ (none, c)
    | some w ↦ elim (lookup (codes "account") m.tags) [
      | none ↦ (lookup (fold w.nick) c.accounts, c)
      | some tag ↦ elim (real_account tag) [
        | none ↦ (none, drop_account w.nick c)
        | some a ↦ (some a, record c { accounts = insert (fold w.nick) a c.accounts })
      ]
    ]
  ]

  -- The account of a JOIN: its second parameter where the extended form names one.
  unfoldable pub join_account : Message → Client → Option Text × Client
  unfolding account_for
  join_account m c = elim m.params [
    | channel ∷ a ∷ name ∷ rest ↦ if a == star then account_for m c else (some a, c)
    | _ ↦ account_for m c
  ]

  -- `_forgetLegacyAccount`
  unfoldable pub forget_legacy_account : Text → Client → Client
  unfolding irc_casefold
  forget_legacy_account nick c = record c {
    status_cache = erase (irc_casefold lower nick) c.status_cache;
  }

  -- `irc_JOIN`, with the nick known and the channel read
  abbrev pub joined : Message → Hostmask → Text → Option Text × Client → Client
  joined m w channel (account, c₀) =
      let c = keep_account w.nick account c₀ in
      if w.nick == c.nickname
      then tell (record (by_user (codes "joined") m w) { target = some channel; account = account })
          (ask_modes channel (on_state (joinchannel channel) (own_prefix m c)))
      else tell
          (record (by_user (codes "userJoined") m w) { target = some channel; account = account })
          (on_state (userjoin channel w.nick (some w.ident) (some w.host) (some m.prefix)) c)

  unfoldable pub irc_join : Message → Client → Handled
  unfolding join_account keep_account
  irc_join m c = elim (process_hostmask m.prefix) [
    | none ↦ done c
    | some w ↦ elim m.params [
      | [] ↦ fault c
      | channel ∷ rest ↦ done (joined m w channel (join_account m c))
    ]
  ]

  unfoldable pub irc_part : Message → Client → Handled
  irc_part m c = elim (process_hostmask m.prefix) [
    | none ↦ done c
    | some w ↦ elim m.params [
      | [] ↦ fault c
      | channel ∷ rest ↦
          if w.nick == c.nickname
          then done (
              tell (record (by_user (codes "left") m w) { target = some channel })
                (on_state (leavechannel channel) (own_prefix m c)))
          else done (
              tell (record (by_user (codes "userLeft") m w) { target = some channel })
                (on_state (userpart channel w.nick (some w.ident) (some w.host) (some m.prefix)) c))
    ]
  ]

  -- `irc_QUIT`: the message is read behind the changes
  unfoldable pub irc_quit : Message → Client → Handled
  unfolding forget_legacy_account
  irc_quit m c = elim (process_hostmask m.prefix) [
    | none ↦ done c
    | some w ↦
        let c' =
          forget_legacy_account w.nick (drop_account w.nick (on_state (userquit w.nick) c)) in
        elim m.params [
          | [] ↦ fault c'
          | msg ∷ rest ↦ done (tell (record (by_user (codes "userQuit") m w) { msg = some msg }) c')
        ]
  ]

  -- `account = self._accounts.pop(...)`, put back under the new nick
  unfoldable pub move_account : Text → Text → Client → Client
  unfolding keep_account
  move_account old new c = keep_account new (lookup (fold old) c.accounts) (drop_account old c)

  abbrev pub renamed_by : Notice → Client → Outcome Network → Handled
  renamed_by e c (ok n) = done (tell e (record c { state = some n }))
  renamed_by e c (raise x n) = fault (record c { state = some n })

  abbrev pub rename_other : Message → Hostmask → Text → Option Text → Client → Handled
  rename_other m w new account c =
      let e = record (by_user (codes "userRenamed") m w) {
        newname = some new;
        account = account;
      } in
      elim c.state [
        | none ↦ done (tell e c)
        | some n ↦
            renamed_by e c (userrename w.nick new (some w.ident) (some w.host) (some m.prefix) n)
      ]

  unfoldable pub irc_nick : Message → Client → Handled
  unfolding move_account forget_legacy_account
  irc_nick m c = elim (process_hostmask m.prefix) [
    | none ↦ done c
    | some w ↦
        let account = lookup (fold w.nick) c.accounts in
        elim m.params [
          | [] ↦
              let c' = drop_account w.nick c in
              fault (if truthy account then c' else forget_legacy_account w.nick c')
          | new ∷ rest ↦
              let c' =
                forget_legacy_account new
                  (forget_legacy_account w.nick (move_account w.nick new c)) in
              if w.nick == c.nickname
              then done (
                  tell (record (plain (codes "nickChanged") m) { newname = some new })
                    (record (own_prefix m c') { nickname = nick_changed new }))
              else rename_other m w new account c'
        ]
  ]

  unfoldable pub irc_account : Message → Client → Handled
  irc_account m c = elim (process_hostmask m.prefix) [
    | none ↦ done c
    | some w ↦ elim m.params [
      | [] ↦ done c
      | a ∷ rest ↦
          if a == star
          then done (drop_account w.nick c)
          else done (record c { accounts = insert (fold w.nick) a c.accounts })
    ]
  ]

  abbrev pub kick_notice : Text → Message → Text → Text → Text → Notice
  kick_notice type m channel kicked message = record (plain type m) {
    nick = some (before_bang m.prefix);
    target = some channel;
    msg = some message;
    kicked = some kicked;
  }

  unfoldable pub irc_kick : Message → Client → Handled
  irc_kick m c = elim m.params [
    | channel ∷ kicked ∷ rest ↦
        if lower kicked == lower c.nickname
        then done (
            tell (kick_notice (codes "kickedFrom") m channel kicked (last_or kicked rest))
              (on_state (leavechannel channel) c))
        else done (
            tell (kick_notice (codes "userKicked") m channel kicked (last_or kicked rest))
              (on_state (userpart channel kicked none none none) c))
    | _ ↦ fault c
  ]

  unfoldable pub handle : Verb → Message → Client → Handled
  unfolding irc_join irc_part irc_quit irc_nick irc_account irc_kick
  handle join_verb m c = irc_join m c
  handle part_verb m c = irc_part m c
  handle quit_verb m c = irc_quit m c
  handle nick_verb m c = irc_nick m c
  handle account_verb m c = irc_account m c
  handle kick_verb m c = irc_kick m c
