-- ===== src/State/Modes.antt =====
-- util/state.py: the modes, masks, topic and NAMES list of a channel, and the snapshot.
pub mod Kept
pub mod Ranks
pub mod Snapshot
use py_burly_bot.Common.{
  ℕ, Bool, true, false, List, [], ◌∷◌, Option, none, some, Text, nat_eq, text_eq, ◌==◌, Dict,
  lookup, insert, erase, has_key, contains, add, discard, if◌then◌else◌, codes, is_substring,
  lstrip,
}
use py_burly_bot.State.Prefixes.{PrefixMap}
use py_burly_bot.State.Model.{
  Channel, Network, Masks, Outcome, ok, raise, key_error, attribute_error, value_error,
}
use py_burly_bot.State.Membership.{userjoin}

abbrev pub Mode : Type 0
Mode = Text × Text

-- `Channel._resetModeIs`
unfoldable pub reset_mode_is : Channel → Channel
reset_mode_is c = record c {
  moderated = false;
  inviteonly = false;
  secret = false;
  key = none;
  is_private = false;
  limit = none;
  optopic = false;
  noextmsg = false;
}

-- One round of `for mode, arg in added`, by `nick` at `now`.
unfoldable pub add_mode : PrefixMap → Option Text → ℕ → Mode → Channel → Channel
add_mode pm nick now (mode, arg) c =
    if is_substring mode pm.opcmds
    then record c { ops = add arg c.ops }
    else if mode == codes "b"
    then record c { banlist = insert arg (nick, now) c.banlist }
    else if mode == codes "e"
    then record c { exceptlist = insert arg (nick, now) c.exceptlist }
    else if mode == codes "i"
    then record c { inviteonly = true }
    else if mode == codes "m"
    then record c { moderated = true }
    else if mode == codes "n"
    then record c { noextmsg = true }
    else if mode == codes "p"
    then record c { is_private = true }
    else if mode == codes "s"
    then record c { secret = true }
    else if mode == codes "t"
    then record c { optopic = true }
    else if mode == codes "k"
    then record c { key = some arg }
    else if mode == codes "l"
    then record c { limit = some arg }
    else if mode == codes "I"
    then record c { invitelist = insert arg (nick, now) c.invitelist }
    else if is_substring mode pm.voicecmds
    then record c { voices = add arg c.voices }
    else c

-- One round of `for mode, arg in removed`.
unfoldable pub remove_mode : PrefixMap → Mode → Channel → Channel
remove_mode pm (mode, arg) c =
    if is_substring mode pm.opcmds
    then record c { ops = discard arg c.ops }
    else if mode == codes "b"
    then record c { banlist = erase arg c.banlist }
    else if mode == codes "e"
    then record c { exceptlist = erase arg c.exceptlist }
    else if mode == codes "i"
    then record c { inviteonly = false }
    else if mode == codes "m"
    then record c { moderated = false }
    else if mode == codes "n"
    then record c { noextmsg = false }
    else if mode == codes "p"
    then record c { is_private = false }
    else if mode == codes "s"
    then record c { secret = false }
    else if mode == codes "t"
    then record c { optopic = false }
    else if mode == codes "k"
    then record c { key = none }
    else if mode == codes "l"
    then record c { limit = none }
    else if mode == codes "I"
    then record c { invitelist = erase arg c.invitelist }
    else if is_substring mode pm.voicecmds
    then record c { voices = discard arg c.voices }
    else c

unfoldable pub add_modes : PrefixMap → Option Text → ℕ → List Mode → Channel → Channel
add_modes pm nick now [] c = c
add_modes pm nick now (m ∷ ms) c = add_modes pm nick now ms (add_mode pm nick now m c)

unfoldable pub remove_modes : PrefixMap → List Mode → Channel → Channel
remove_modes pm [] c = c
remove_modes pm (m ∷ ms) c = remove_modes pm ms (remove_mode pm m c)

-- The two loops; without a prefix map the first mode raises.
unfoldable pub change_modes :
    Option PrefixMap → Option Text → ℕ → List Mode → List Mode → Channel → Outcome Channel
change_modes none nick now [] [] c = ok c
change_modes none nick now (m ∷ ms) removed c = raise attribute_error c
change_modes none nick now [] (m ∷ ms) c = raise attribute_error c
change_modes (some pm) nick now added removed c =
    ok (remove_modes pm removed (add_modes pm nick now added c))

abbrev pub put_channel : Text → Network → Channel → Network
put_channel channel n c = record n { channels = insert channel c n.channels }

abbrev pub put_outcome : Text → Network → Outcome Channel → Outcome Network
put_outcome channel n (ok c) = ok (put_channel channel n c)
put_outcome channel n (raise e c) = raise e (put_channel channel n c)

-- `Network._modechange`
unfoldable pub modechange :
    Text → Option Text → ℕ → List Mode → List Mode → Bool → Network → Outcome Network
unfolding change_modes
modechange channel nick now added removed reset n = elim (lookup channel n.channels) [
  | none ↦ ok n
  | some c ↦
      put_outcome channel n
        (change_modes n.prefixmap nick now added removed (if reset then reset_mode_is c else c))
]

-- `Channel._settopic`, `Network._settopic`
unfoldable pub settopic :
    Text → Text → Option Text → Option Text → Option Text → Option Text → Network → Network
settopic channel newtopic nick ident host hostmask n = elim (lookup channel n.channels) [
  | none ↦ n
  | some c ↦
      put_channel channel n
        (record c { topic = newtopic; topicsetby = (nick, ident, host, hostmask) })
]

-- An entry of a mask list reply: mask, its time as a text or a number, and who set it.
module _ {T : Type 0} (to_int : T → Option ℕ) where
  -- `Network._processlist`: `int(t)` raises `ValueError`
  unfoldable pub processlist : List (Text × T × Option Text) → Masks → Option Masks
  processlist [] d = some d
  processlist ((mask, t, nick) ∷ entries) d = elim (to_int t) [
    | none ↦ none
    | some at ↦ processlist entries (insert mask (nick, at) d)
  ]

  unfoldable pub set_masks :
      (Masks → Channel → Channel) → Text → List (Text × T × Option Text) → Network → Outcome Network
  unfolding processlist
  set_masks field channel entries n = elim (lookup channel n.channels) [
    | none ↦ ok n
    | some c ↦ elim (processlist entries []) [
      | none ↦ raise value_error n
      | some d ↦ ok (put_channel channel n (field d c))
    ]
  ]

  -- `Network._addinvites`, `_addexcepts`, `_addbans`
  unfoldable pub addinvites : Text → List (Text × T × Option Text) → Network → Outcome Network
  unfolding set_masks
  addinvites = set_masks (λ d c. record c { invitelist = d })

  unfoldable pub addexcepts : Text → List (Text × T × Option Text) → Network → Outcome Network
  unfolding set_masks
  addexcepts = set_masks (λ d c. record c { exceptlist = d })

  unfoldable pub addbans : Text → List (Text × T × Option Text) → Network → Outcome Network
  unfolding set_masks
  addbans = set_masks (λ d c. record c { banlist = d })

-- `self.channels[channel].ops.add(nick)` and `.voices.add(nick)`
unfoldable pub rank_user : PrefixMap → ℕ → Text → Channel → Channel
rank_user pm prefix nick c = record c {
  ops = if contains prefix pm.opprefixes then add nick c.ops else c.ops;
  voices = if contains prefix pm.voiceprefixes then add nick c.voices else c.voices;
}

abbrev pub ranks_any : PrefixMap → ℕ → Bool
ranks_any pm prefix =
    if contains prefix pm.opprefixes then true else contains prefix pm.voiceprefixes

-- The nick of a NAMES entry, whose first character may be a rank.
unfoldable pub bare_nick : PrefixMap → Text → Text
bare_nick pm [] = []
bare_nick pm (prefix ∷ rest) =
    if contains prefix pm.nickprefixes
    then lstrip pm.nickprefixes (prefix ∷ rest)
    else prefix ∷ rest

-- One named user of the loop of `Network._addusers`.
unfoldable pub add_named : Text → PrefixMap → ℕ → Text → Network → Outcome Network
unfolding rank_user
add_named channel pm prefix nick n =
    let m = userjoin channel nick none none none n in
    elim (lookup channel m.channels) [
      | none ↦ if ranks_any pm prefix then raise key_error m else ok m
      | some c ↦
          ok (if ranks_any pm prefix then put_channel channel m (rank_user pm prefix nick c) else m)
    ]

infixl 5 ◌then_do◌
abbrev pub ◌then_do◌ : Outcome Network → (Network → Outcome Network) → Outcome Network
ok n then_do f = f n
raise e n then_do f = raise e n

unfoldable pub add_all : Text → Option PrefixMap → List Text → Network → Outcome Network
unfolding add_named bare_nick
add_all channel pm [] n = ok n
add_all channel pm ([] ∷ users) n = add_all channel pm users n
add_all channel none ((prefix ∷ rest) ∷ users) n = raise attribute_error n
add_all channel (some pm) ((prefix ∷ rest) ∷ users) n =
    add_named channel pm prefix (bare_nick pm (prefix ∷ rest)) n
    then_do add_all channel (some pm) users

-- `Network._addusers`
unfoldable pub addusers : Text → List Text → Network → Outcome Network
unfolding add_all
addusers channel users n =
    if has_key channel n.channels then add_all channel n.prefixmap users n else ok n
