-- ===== src/Client/Lists.antt =====
-- util/client.py: the replies to NAMES, to the lists of masks and about topics, which come in pieces
-- and are handed on at their end; util/helpers.py: `processListReply`.
pub mod Gathered
pub mod Kept
use py_burly_bot.Common.{
  ℕ, Bool, true, false, List, [], ◌∷◌, ◌++◌, Option, none, some, Text, text_eq, Dict, lookup,
  insert, erase, map,
}
use py_burly_bot.State.Model.{Network, Outcome, ok, raise}
use py_burly_bot.State.Modes.{addbans, addexcepts, addinvites, addusers, settopic}
use py_burly_bot.Client.Masks.{Hostmask, process_hostmask}
use py_burly_bot.Client.Status.{split_words}

-- The three lists of masks: +b, +e and +I.
pub data Kind : Type 0 where
  bans excepts invites : Kind

pub record Entry : Type 0 where
  pub mask : Text
  pub hostmask : Text
  pub time : Text
  pub nick : Option Text

-- One call of `self.dispatch`.
pub data Told : Type 0 where
  entry_told : Kind → Text → Entry → Option Hostmask → Told
  list_told : Kind → Text → List Entry → Told
  names_told all_names_told : Text → List Text → Told
  topic_told : Text → Text → Option Hostmask → Told

pub record Lists : Type 0 where
  pub state : Option Network
  pub names : Dict Text (List Text)
  pub banlist : Dict Text (List Entry)
  pub exceptlist : Dict Text (List Entry)
  pub invitelist : Dict Text (List Entry)
  pub told : List Told

abbrev pub buffer : Kind → Lists → Dict Text (List Entry)
buffer bans l = l.banlist
buffer excepts l = l.exceptlist
buffer invites l = l.invitelist

abbrev pub put_buffer : Kind → Dict Text (List Entry) → Lists → Lists
put_buffer bans d l = record l { banlist = d }
put_buffer excepts d l = record l { exceptlist = d }
put_buffer invites d l = record l { invitelist = d }

abbrev pub or_empty {ℓ} : {A : Type ℓ} → Option (List A) → List A
or_empty none = []
or_empty (some xs) = xs

abbrev pub report : Told → Lists → Lists
report e l = record l { told = l.told ++ e ∷ [] }

abbrev pub nick_of : Option Hostmask → Option Text
nick_of none = none
nick_of (some w) = some w.nick

abbrev pub ident_of : Option Hostmask → Option Text
ident_of none = none
ident_of (some w) = some w.ident

abbrev pub host_of : Option Hostmask → Option Text
host_of none = none
host_of (some w) = some w.host

-- `processListReply`: the channel, the entry and who set it; nothing is the `IndexError`
unfoldable pub process_list_reply : List Text → Option (Text × Entry × Option Hostmask)
unfolding process_hostmask
process_list_reply (_ ∷ channel ∷ mask ∷ setter ∷ time ∷ rest) =
    let w = process_hostmask setter in
    some (channel, record { mask = mask; hostmask = setter; time = time; nick = nick_of w }, w)
process_list_reply _ = none

-- The numeric replies.
pub data Reply : Type 0 where
  of_list : Kind → Reply
  end_of_list : Kind → Reply
  of_names end_of_names topic no_topic : Reply

-- Each handler gives the state, and whether it returned.
abbrev pub Done : Type 0
Done = Lists × Bool

-- `irc_RPL_BANLIST`, `irc_RPL_EXCEPTLIST`, `irc_RPL_INVITELIST`
unfoldable pub list_reply : Kind → List Text → Lists → Done
unfolding process_list_reply
list_reply kind params l = elim (process_list_reply params) [
  | none ↦ (l, false)
  | some (channel, e, w) ↦
      let d = buffer kind l in
      (
        report (entry_told kind channel e w)
            (put_buffer kind (insert channel (or_empty (lookup channel d) ++ e ∷ []) d) l),
        true,
      )
]

abbrev pub triple : Entry → Text × Text × Option Text
triple e = (e.mask, e.time, e.nick)

module _ (to_int : Text → Option ℕ) where
  abbrev pub add_masks : Kind → Text → List Entry → Network → Outcome Network
  add_masks bans channel es n = addbans to_int channel (map triple es) n
  add_masks excepts channel es n = addexcepts to_int channel (map triple es) n
  add_masks invites channel es n = addinvites to_int channel (map triple es) n

  abbrev pub keep_outcome : Told → Lists → Outcome Network → Done
  keep_outcome e l (ok n) = (report e (record l { state = some n }), true)
  keep_outcome e l (raise x n) = (record l { state = some n }, false)

  -- `self._banlist.pop(channel, [])` and what follows it, with the state that is read
  abbrev pub close_list : Kind → Text → Lists → Option Network → Done
  close_list kind channel l none = (
    report (list_told kind channel (or_empty (lookup channel (buffer kind l))))
        (put_buffer kind (erase channel (buffer kind l)) l),
    true,
  )
  close_list kind channel l (some n) =
      keep_outcome (list_told kind channel (or_empty (lookup channel (buffer kind l))))
        (put_buffer kind (erase channel (buffer kind l)) l)
        (add_masks kind channel (or_empty (lookup channel (buffer kind l))) n)

  abbrev pub end_list : Kind → Text → Lists → Done
  end_list kind channel l = close_list kind channel l l.state

  -- `irc_RPL_ENDOFBANLIST`, `irc_RPL_ENDOFEXCEPTLIST`, `irc_RPL_ENDOFINVITELIST`
  unfoldable pub list_end : Kind → List Text → Lists → Done
  list_end kind (_ ∷ channel ∷ rest) l = end_list kind channel l
  list_end kind _ l = (l, false)

  abbrev pub named : Text → List Text → Lists → Outcome Network → Done
  named channel users l (raise x n) = (record l { state = some n }, false)
  named channel users l (ok n) = (
    report (names_told channel users) (record l {
      state = some n;
      names = insert channel (or_empty (lookup channel l.names) ++ users) l.names;
    }),
    true,
  )

  -- `irc_RPL_NAMREPLY`
  unfoldable pub names_reply : List Text → Lists → Done
  unfolding split_words
  names_reply (_ ∷ _ ∷ channel ∷ listed ∷ rest) l =
      let users = split_words [] listed in
      elim l.state [
        | some n ↦ named channel users l (addusers channel users n)
        | none ↦ (
          report (names_told channel users) (record l {
            names = insert channel (or_empty (lookup channel l.names) ++ users) l.names;
          }),
          true,
        )
      ]
  names_reply _ l = (l, false)

  -- `irc_RPL_ENDOFNAMES`
  unfoldable pub names_end : List Text → Lists → Done
  names_end (_ ∷ channel ∷ rest) l = (
    report (all_names_told channel (or_empty (lookup channel l.names)))
        (record l { names = erase channel l.names }),
    true,
  )
  names_end _ l = (l, false)

  abbrev pub set_topic : Text → Text → Text → Lists → Done
  set_topic prefix channel newtopic l =
      let w = process_hostmask prefix in
      let l' : Lists = elim l.state [
        | none ↦ l
        | some n ↦ record l {
          state = some (settopic channel newtopic (nick_of w) (ident_of w) (host_of w) none n);
        }
      ] in
      (report (topic_told channel newtopic w) l', true)

  -- `irc_RPL_TOPIC`
  unfoldable pub topic_reply : Text → List Text → Lists → Done
  topic_reply prefix (_ ∷ channel ∷ newtopic ∷ rest) l = set_topic prefix channel newtopic l
  topic_reply prefix _ l = (l, false)

  -- `irc_RPL_NOTOPIC`
  unfoldable pub no_topic_reply : Text → List Text → Lists → Done
  no_topic_reply prefix (_ ∷ channel ∷ rest) l = set_topic prefix channel [] l
  no_topic_reply prefix _ l = (l, false)

  unfoldable pub handle_reply : Reply → Text → List Text → Lists → Done
  unfolding list_reply list_end names_reply names_end topic_reply no_topic_reply
  handle_reply (of_list kind) prefix params l = list_reply kind params l
  handle_reply (end_of_list kind) prefix params l = list_end kind params l
  handle_reply of_names prefix params l = names_reply params l
  handle_reply end_of_names prefix params l = names_end params l
  handle_reply topic prefix params l = topic_reply prefix params l
  handle_reply no_topic prefix params l = no_topic_reply prefix params l
