-- ===== src/State/Model.antt =====
-- util/state.py: the records `User`, `Channel` and `Network`. A `User` object is shared by the
-- network and by every channel it is on, so users live in a store and are named by references.
use py_burly_bot.Common.{
  ℕ, Bool, false, List, [], Option, none, Text, nat_eq, text_eq, ◌==◌, Dict, if◌then◌else◌,
}
use py_burly_bot.State.Prefixes.{PrefixMap}

pub record User : Type 0 where
  pub channels : List Text
  pub nick : Text
  pub ident : Option Text
  pub host : Option Text
  pub hostmask : Option Text

abbrev pub Ref : Type 0
Ref = ℕ

-- The store of `User` objects: a reference that was never allocated holds a blank user.
abbrev pub Store : Type 0
Store = Ref → User

unfoldable pub update : Store → Ref → User → Store
update h r u s = if r == s then u else h s

-- Mask of a ban, an exception or an invitation: who set it and when.
abbrev pub Masks : Type 0
Masks = Dict Text (Option Text × ℕ)

pub record Channel : Type 0 where
  pub name : Text
  pub users : Dict Text Ref
  pub ops : List Text
  pub voices : List Text
  pub moderated : Bool
  pub inviteonly : Bool
  pub secret : Bool
  pub key : Option Text
  pub is_private : Bool
  pub limit : Option Text
  pub optopic : Bool
  pub noextmsg : Bool
  pub banlist : Masks
  pub exceptlist : Masks
  pub invitelist : Masks
  pub topic : Text
  pub topicsetby : Option Text × Option Text × Option Text × Option Text

-- `Channel(name)`
unfoldable pub new_channel : Text → Channel
new_channel name = record {
  name = name;
  users = [];
  ops = [];
  voices = [];
  moderated = false;
  inviteonly = false;
  secret = false;
  key = none;
  is_private = false;
  limit = none;
  optopic = false;
  noextmsg = false;
  banlist = [];
  exceptlist = [];
  invitelist = [];
  topic = [];
  topicsetby = (none, none, none, none);
}

-- `User(nick, ident, host, hostmask)`
unfoldable pub new_user : Text → Option Text → Option Text → Option Text → User
new_user nick ident host hostmask = record {
  channels = [];
  nick = nick;
  ident = ident;
  host = host;
  hostmask = hostmask;
}

-- `prefixmap` is unset until the server has announced it.
pub record Network : Type 0 where
  pub name : Text
  pub users : Dict Text Ref
  pub channels : Dict Text Channel
  pub motd : Option Text
  pub prefixmap : Option PrefixMap
  pub store : Store
  pub next : Ref

abbrev pub blank : Store
blank r = new_user [] none none none

-- `Network(network)`
unfoldable pub new_network : Text → Network
new_network name = record {
  name = name;
  users = [];
  channels = [];
  motd = none;
  prefixmap = none;
  store = blank;
  next = 0;
}

-- Exceptions of the methods; what was written before one stays written.
pub data Error : Type 0 where
  key_error attribute_error value_error : Error

pub data Outcome {ℓ} (A : Type ℓ) : Type ℓ where
  ok : A → Outcome A
  raise : Error → A → Outcome A
