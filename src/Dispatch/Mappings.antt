-- ===== src/Dispatch/Mappings.antt =====
-- util/mapping.py: a `Mapping` of event types, commands or a regex to a handler. `R` is the type of
-- compiled regexes and `F` that of handlers.
use py_burly_bot.Common.{ℕ, Bool, List, [], ◌∷◌, Option, none, some, Text, codes}

pub record Mapping (R F : Type 0) : Type 0 where
  pub types : List Text
  pub command : Option (List Text)
  pub regex : Option R
  pub function : F
  pub priority : ℕ
  pub override : Bool
  pub admin : Bool
  pub hidden : Bool

-- The `command` argument: `None`, a string or a list.
pub data CommandArg : Type 0 where
  absent : CommandArg
  single : Text → CommandArg
  several : List Text → CommandArg

-- `if command: ... list(command)`: an empty string or list counts as no command
unfoldable pub normal_command : CommandArg → Option (List Text)
normal_command absent = none
normal_command (single []) = none
normal_command (single (c ∷ cs)) = some ((c ∷ cs) ∷ [])
normal_command (several []) = none
normal_command (several (c ∷ cs)) = some (c ∷ cs)

abbrev pub privmsged : Text
privmsged = codes "privmsged"

-- A mapping of commands with no event type of its own is for messages.
unfoldable pub default_types : Option (List Text) → List Text → List Text
default_types (some cs) [] = privmsged ∷ []
default_types (some cs) (t ∷ ts) = t ∷ ts
default_types none ts = ts

abbrev pub list_or_empty : Option (List Text) → List Text
list_or_empty none = []
list_or_empty (some ts) = ts

module _ {R F : Type 0} where
  -- `Mapping.__init__`
  unfoldable pub new_mapping :
      Option (List Text) → CommandArg → Option R → F → ℕ → Bool → Bool → Bool → Mapping R F
  unfolding normal_command default_types
  new_mapping types command regex function priority override admin hidden = record {
    types = default_types (normal_command command) (list_or_empty types);
    command = normal_command command;
    regex = regex;
    function = function;
    priority = priority;
    override = override;
    admin = admin;
    hidden = hidden;
  }
