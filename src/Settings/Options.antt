-- ===== src/Settings/Options.antt =====
-- util/settings.py: `getOption` and `setOption` for the options of modules. A value that is copied is
-- the same value; `A` is what options hold.
pub mod RoundTrip
use py_burly_bot.Common.{
  Bool, true, false, List, [], ◌∷◌, Option, none, some, Text, text_eq, codes, Dict, lookup, insert,
  contains, if◌then◌else◌,
}

-- What stands in the dictionary of a module: a value, or the options of its channels, under `_channels`.
pub data Value (A : Type 0) : Type 0 where
  plain : A → Value A
  table : Dict Text (Dict Text A) → Value A

abbrev pub ModuleOpts : Type 0 → Type 0
ModuleOpts A = Dict Text (Dict Text (Value A))

-- `server`: `None`, a false value, or a label
pub data Server : Type 0 where
  here nowhere : Server
  label : Text → Server

-- The servers with their `moduleopts`, the label of the one that is asked, and `Settings.moduleopts`.
pub record Store (A : Type 0) : Type 0 where
  pub servers : Dict Text (ModuleOpts A)
  pub self : Text
  pub main : ModuleOpts A

pub data Error : Type 0 where
  value_error attribute_error type_error : Error

pub data Found (A : Type 0) : Type 0 where
  found : Value A → Found A
  missing : Found A
  failed : Error → Found A

-- `core` is what goes on to the options of the server and of `Settings` itself, which are not here.
pub data Outcome (B : Type 0) : Type 0 where
  done : B → Outcome B
  raised : Error → Outcome B
  core : Outcome B

-- `KEYS_DENY`
abbrev pub keys_deny : List Text
keys_deny = codes "_admins" ∷ codes "servers" ∷ codes "dispatcher" ∷ codes "moduleopts" ∷ []

abbrev pub channels_key : Text
channels_key = codes "_channels"

-- `server or server is None`: the empty text asks for no server, as a false value does
abbrev pub asked_server : Server → Server
asked_server (label []) = nowhere
asked_server server = server

-- a channel that is given: `None`, `False` and the empty text are none
abbrev pub given : Option Text → Option Text
given none = none
given (some []) = none
given (some (c ∷ cs)) = some (c ∷ cs)

module _ {A : Type 0} where
  abbrev pub or_missing : Option (Value A) → Found A
  or_missing none = missing
  or_missing (some v) = found v

  abbrev pub in_channel : Text → Option (Dict Text A) → Found A
  in_channel opt none = missing
  in_channel opt (some d) = elim (lookup opt d) [ none ↦ missing | some v ↦ found (plain v) ]

  -- The part of `_lookupModuleOpt` for a channel.
  unfoldable pub lookup_channel : Dict Text (Value A) → Text → Option Text → Found A
  lookup_channel mod_opts opt none = missing
  lookup_channel mod_opts opt (some channel) = elim (lookup channels_key mod_opts) [
    | none ↦ missing
    | some (plain v) ↦ failed type_error
    | some (table channels) ↦ in_channel opt (lookup channel channels)
  ]

  -- `_lookupModuleOpt`
  unfoldable pub lookup_module_opt : ModuleOpts A → Text → Text → Option Text → Found A
  unfolding lookup_channel
  lookup_module_opt moduleopts m opt channel = elim (lookup m moduleopts) [
    | none ↦ missing
    | some mod_opts ↦ elim (lookup_channel mod_opts opt (given channel)) [
      | missing ↦ or_missing (lookup opt mod_opts)
      | found v ↦ found v
      | failed e ↦ failed e
    ]
  ]

  -- `_resolveServerModuleOpts`, with the label that it comes to
  abbrev pub label_of : Server → Store A → Text
  label_of (label l) s = l
  label_of _ s = s.self

  abbrev pub from_main :
      Found A → Option A → Bool → Text → Text → Store A → Outcome (Value A) × Store A
  from_main (found v) default set_default m opt s = (done v, s)
  from_main (failed e) default set_default m opt s = (raised e, s)
  from_main missing none set_default m opt s = (raised attribute_error, s)
  from_main missing (some d) false m opt s = (done (plain d), s)
  from_main missing (some d) true m opt s =
      let mod_opts : Dict Text (Value A) = elim (lookup m s.main) [ none ↦ [] | some o ↦ o ] in
      (done (plain d), record s { main = insert m (insert opt (plain d) mod_opts) s.main })

  -- What the server gives, or what `Settings.moduleopts` gives.
  unfoldable pub from_server : Server → Text → Text → Option Text → Store A → Found A
  unfolding lookup_module_opt
  from_server nowhere m opt channel s = missing
  from_server server m opt channel s = elim (lookup (label_of server s) s.servers) [
    | none ↦ failed value_error
    | some moduleopts ↦ lookup_module_opt moduleopts m opt channel
  ]

  -- The part of `getOption` for a module.
  unfoldable pub get_module_option :
      Text → Text → Option Text → Server → Option A → Bool → Store A → Outcome (Value A) × Store A
  unfolding from_server lookup_module_opt
  get_module_option opt m channel server default set_default s =
      elim (from_server server m opt channel s) [
        | found v ↦ (done v, s)
        | failed e ↦ (raised e, s)
        | missing ↦ from_main (lookup_module_opt s.main m opt channel) default set_default m opt s
      ]

  -- `getOption`; the empty text stands for no module, like `None`
  unfoldable pub get_option :
      Text → Text → Option Text → Server → Option A → Bool → Store A → Outcome (Value A) × Store A
  unfolding get_module_option
  get_option opt m channel server default set_default s =
      if contains opt keys_deny then (raised value_error, s) else elim m [
        | [] ↦ (core, s)
        | c ∷ cs ↦
            get_module_option opt (c ∷ cs) channel (asked_server server) default set_default s
      ]

  abbrev pub or_no_options : Option (Dict Text (Value A)) → Dict Text (Value A)
  or_no_options none = []
  or_no_options (some d) = d

  abbrev pub or_no_values : Option (Dict Text A) → Dict Text A
  or_no_values none = []
  or_no_values (some d) = d

  -- `mod.setdefault("_channels", {}).setdefault(channel, {})[opt] = value`, or `mod[opt] = value`
  unfoldable pub set_in :
      Text → A → Option Text → Dict Text (Value A) → Outcome (Dict Text (Value A))
  set_in opt v none mod_opts = done (insert opt (plain v) mod_opts)
  set_in opt v (some channel) mod_opts = elim (lookup channels_key mod_opts) [
    | none ↦ done (insert channels_key (table (insert channel (insert opt v []) [])) mod_opts)
    | some (plain w) ↦ raised type_error
    | some (table channels) ↦ done (
        insert channels_key
          (table (insert channel (insert opt v (or_no_values (lookup channel channels))) channels))
          mod_opts)
  ]

  -- The dictionary that `setOption` changes, with the module in it.
  unfoldable pub set_module : Text → Text → A → Option Text → ModuleOpts A → Outcome (ModuleOpts A)
  unfolding set_in
  set_module m opt v channel moduleopts =
      elim (set_in opt v (given channel) (or_no_options (lookup m moduleopts))) [
        | raised e ↦ raised e
        | core ↦ core
        | done mod_opts ↦ done (insert m mod_opts moduleopts)
      ]

  -- The part of `setOption` for a module; what an error leaves behind is at most an empty dictionary.
  unfoldable pub set_module_option :
      Text → A → Text → Option Text → Server → Store A → Outcome (Store A)
  unfolding set_module
  set_module_option opt v m channel nowhere s = elim (set_module m opt v channel s.main) [
    | raised e ↦ raised e
    | core ↦ core
    | done main ↦ done (record s { main = main })
  ]
  set_module_option opt v m channel server s = elim (lookup (label_of server s) s.servers) [
    | none ↦ raised value_error
    | some moduleopts ↦ elim (set_module m opt v channel moduleopts) [
      | raised e ↦ raised e
      | core ↦ core
      | done changed ↦ done (record s { servers = insert (label_of server s) changed s.servers })
    ]
  ]

  -- `setOption`
  unfoldable pub set_option : Text → A → Text → Option Text → Server → Store A → Outcome (Store A)
  unfolding set_module_option
  set_option opt v m channel server s =
      if contains opt keys_deny then raised value_error else elim m [
        | [] ↦ core
        | c ∷ cs ↦ set_module_option opt v (c ∷ cs) channel (asked_server server) s
      ]
