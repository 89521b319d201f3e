-- ===== src/Dispatch/Fire.antt =====
-- util/dispatcher.py: `dispatchEvent` and `isAdminCommand`, up to the waiting generators. `lower` is
-- `str.lower`, `search` the search of a compiled regex, `is_admin` the server's admin test.
pub mod Order
use py_burly_bot.Common.{
  ℕ, Bool, true, false, List, [], ◌∷◌, ◌++◌, Option, none, some, Text, text_eq, nat_beq, ◌==◌, Dict,
  lookup, has_key, if◌then◌else◌, ◌||◌, ◌&&◌, not, any, codes, starts_with, drop, length,
}
use py_burly_bot.Dispatch.Mappings.{Mapping}
use py_burly_bot.Dispatch.Commands.{Split, nothing, command, index_error, command_split}
use py_burly_bot.Dispatch.EventMap.{EventMap, Group, group_of, commands_for}

-- The keyword arguments that dispatch reads, and the attributes of the event that it makes of them.
pub record Kwargs : Type 0 where
  pub msg : Option Text
  pub nick : Option Text
  pub account : Option Text
  pub target : Option Text
  pub command : Option Text
  pub argument : Option Text
  pub is_command : Bool
  pub is_admin_command : Bool

pub record Event : Type 0 where
  pub type : Text
  pub msg : Option Text
  pub nick : Option Text
  pub account : Option Text
  pub target : Option Text
  pub command : Option Text
  pub argument : Option Text
  pub is_command : Bool
  pub is_admin_command : Bool

abbrev pub star : Text
star = codes "*"

-- `x if x else None`
unfoldable pub non_empty : Option Text → Option Text
non_empty none = none
non_empty (some []) = none
non_empty (some (c ∷ cs)) = some (c ∷ cs)

-- `account if account and account != "*" else None`
unfoldable pub real_account : Option Text → Option Text
real_account none = none
real_account (some []) = none
real_account (some (c ∷ cs)) = if (c ∷ cs) == star then none else some (c ∷ cs)

-- `Event.__init__`
unfoldable pub new_event : Text → Kwargs → Event
unfolding non_empty real_account
new_event type kw = record {
  type = type;
  msg = kw.msg;
  nick = non_empty kw.nick;
  account = real_account kw.account;
  target = kw.target;
  command = kw.command;
  argument = kw.argument;
  is_command = kw.is_command;
  is_admin_command = kw.is_admin_command;
}

-- A handler run: the mapping, and the match of its regex if it fired by one.
pub record Call (R F X : Type 0) : Type 0 where
  pub mapping : Mapping R F
  pub regex_match : Option X

-- What one dispatch does: the event, the handlers that are started, in order, and whether they run
-- as one chain.
pub record Fired (R F X : Type 0) : Type 0 where
  pub event : Event
  pub calls : List (Call R F X)
  pub chained : Bool

pub data Dispatch (R F X : Type 0) : Type 0 where
  fired : Fired R F X → Dispatch R F X
  nothing_done : Dispatch R F X
  raised : Dispatch R F X

abbrev pub sendmsg : Text
sendmsg = codes "sendmsg"

-- What the message says: the kwargs with the command noted and its name in lower case, or that
-- dispatch ends here.
pub data Parsed : Type 0 where
  go : Kwargs → Text → Parsed
  stop : Parsed
  fault : Parsed

module _ (lower : Text → Text) (prefix : Text) where
  abbrev pub is_prefixed : Text → Text → Bool
  is_prefixed l [] = false
  is_prefixed l (c ∷ cs) = not (l == sendmsg) && starts_with (c ∷ cs) prefix

  abbrev pub noted : Kwargs → Split → Parsed
  noted kw nothing = stop
  noted kw (command c a) =
      let name = drop (length prefix) c in
      go (record kw { command = some name; argument = a }) (lower name)
  noted kw index_error = fault

  unfoldable pub parse_command : Text → Kwargs → Parsed
  parse_command l kw = elim kw.msg [
    | none ↦ go kw []
    | some msg ↦ if is_prefixed l msg then noted kw (command_split msg) else go kw []
  ]

module _ {R F : Type 0} (lower : Text → Text) (prefix : Text) where
  abbrev pub admin_among : Text → EventMap R F → Split → Option Bool
  admin_among t em nothing = some false
  admin_among t em (command c a) =
      some (any (λ m. m.admin) (commands_for t (lower (drop (length prefix) c)) em))
  admin_among t em index_error = none

  abbrev pub admin_text : Text → EventMap R F → Text → Option Bool
  admin_text t em [] = some false
  admin_text t em (c ∷ cs) = elim prefix [
    | [] ↦ some false
    | p ∷ ps ↦
        if starts_with (c ∷ cs) (p ∷ ps)
        then admin_among t em (command_split (c ∷ cs))
        else some false
  ]

  -- `Dispatcher.isAdminCommand`; `none` is the `IndexError` of `commandSplit`
  unfoldable pub is_admin_command : Text → Option Text → EventMap R F → Option Bool
  is_admin_command event_type none em = some false
  is_admin_command event_type (some msg) em = admin_text (lower event_type) em msg

module _ {R F X : Type 0} (search : R → Text → Option X) where
  abbrev pub plain : Mapping R F → Call R F X
  plain m = record { mapping = m; regex_match = none }

  -- The loop over the instant mappings: the calls, and whether priority 0 has overridden the rest.
  unfoldable pub fire_instants : List (Mapping R F) → List (Call R F X) × Bool
  fire_instants [] = ([], false)
  fire_instants (m ∷ ms) =
      let rest = fire_instants ms in
      if nat_beq m.priority 0 then (plain m ∷ [], true) else (plain m ∷ rest.0, rest.1)

  -- The loop over the command mappings.
  unfoldable pub fire_commands : Bool → List (Mapping R F) → List (Call R F X) × Bool
  fire_commands admin [] = ([], false)
  fire_commands admin (m ∷ ms) =
      let rest = fire_commands admin ms in
      if m.admin && not admin
      then rest
      else if nat_beq m.priority 0
      then (plain m ∷ [], true)
      else (plain m ∷ rest.0, rest.1)

  abbrev pub regex_hit : Mapping R F → Option Text → Option X
  regex_hit m none = none
  regex_hit m (some msg) = elim m.regex [ none ↦ none | some r ↦ search r msg ]

  -- The loop over the regex mappings.
  unfoldable pub fire_regexes : Option Text → List (Mapping R F) → List (Call R F X)
  fire_regexes msg [] = []
  fire_regexes msg (m ∷ ms) =
      let rest = fire_regexes msg ms in
      elim (regex_hit m msg) [
        | none ↦ rest
        | some x ↦
            let c : Call R F X = record { mapping = m; regex_match = some x } in
            if nat_beq m.priority 0 then c ∷ [] else c ∷ rest
      ]

  -- The three loops, each unless an earlier one was overridden.
  unfoldable pub fire_group :
      Bool → Option Text → Group R F → List (Mapping R F) → List (Call R F X)
  unfolding fire_instants fire_commands fire_regexes
  fire_group admin msg g commands =
      let (first, overridden) = fire_instants g.instant in
      let (second, overridden') = fire_commands admin commands in
      if overridden
      then first
      else if overridden'
      then first ++ second
      else first ++ second ++ fire_regexes msg g.regex

  module _ (lower : Text → Text) (prefix : Text) (is_admin : Option Text → Option Text → Bool) where
    abbrev pub annotated : Kwargs → List (Mapping R F) → Kwargs
    annotated kw commands = record kw {
      is_command = elim commands [ [] ↦ false | _ ∷ _ ↦ true ];
      is_admin_command = any (λ m. m.admin) commands;
    }

    abbrev pub fire_parsed : Text → EventMap R F → Kwargs → Text → Fired R F X
    fire_parsed l em kw name =
        let commands = commands_for l name em in
        let event = new_event l (annotated kw commands) in
        record {
          event = event;
          calls =
              if has_key l em
              then fire_group (is_admin event.nick event.account) event.msg (group_of l em) commands
              else [];
          chained = l == sendmsg;
        }

    abbrev pub after_parse : Text → EventMap R F → Parsed → Dispatch R F X
    after_parse l em (go kw name) = fired (fire_parsed l em kw name)
    after_parse l em stop = nothing_done
    after_parse l em fault = raised

    -- `Dispatcher.dispatchEvent`, its part before the waiting generators
    unfoldable pub dispatch_event : Text → Kwargs → EventMap R F → Dispatch R F X
    unfolding parse_command fire_group new_event
    dispatch_event event_type kw em =
        let l = lower event_type in after_parse l em (parse_command lower prefix l kw)
