-- ===== src/Examples/Loading.antt =====
-- util/dispatcher.py and util/moduleloader.py at work on modules that require one another.
use py_burly_bot.Common.{
  ℕ, suc, ◌<◌, ◌≡◌, refl, Bool, true, List, [], ◌∷◌, Option, none, some, Text, text_eq, ◌==◌, codes,
  lookup, insert, add, contains, length, select, text_beq, if◌then◌else◌, arith,
}
use py_burly_bot.Modules.Registry.{found, new_registry, import_plugin, activate}
use py_burly_bot.Modules.Load.{Env, World, passed, load_module, reload}
use py_burly_bot.Modules.Load.Requirements.{IsSatisfied, reload-IsSatisfied}
use py_burly_bot.Modules.Load.Fuel.{fresh_among, reload-ends}

abbrev tell : Text
tell = codes "tell"

abbrev users : Text
users = codes "users"

abbrev alias : Text
alias = codes "alias"

-- `tell` requires `users`, `users` requires `alias`, and `alias` requires `users` again. An imported
-- module is the list of its requirements, and the stages count themselves.
abbrev site : Env (List Text) ℕ
site = record {
  server = codes "net";
  allowed = tell ∷ users ∷ alias ∷ [];
  is_identifier = λ name. true;
  import_module = λ name.
      found
        (if name == alias then users ∷ [] else if name == users then alias ∷ [] else users ∷ []);
  requires = λ p. p;
  configure = λ name p s. (passed, suc s);
  initialize = λ name p s. (passed, suc s);
  register = λ name p s. (passed, suc s);
}

-- The same without the requirement of `alias`.
abbrev plain_site : Env (List Text) ℕ
plain_site = record site {
  import_module = λ name.
      found (if name == alias then [] else if name == users then alias ∷ [] else users ∷ []);
}

abbrev before : World (List Text) ℕ
before = record { registry = new_registry; rest = 0 }

abbrev state_of : Option (World (List Text) ℕ) → World (List Text) ℕ
state_of none = before
state_of (some w) = w

abbrev after : World (List Text) ℕ
after = state_of (reload plain_site 4 (tell ∷ []) before)

reloaded : reload plain_site 4 (tell ∷ []) before ≡ some after
unfolding reload lookup insert add contains text_beq import_plugin activate
reloaded = refl

reload-IsSatisfied_example : IsSatisfied plain_site after
reload-IsSatisfied_example = reload-IsSatisfied plain_site 4 (tell ∷ []) before after reloaded

reload-ends_example :
    (w' : World (List Text) ℕ) × (reload site (suc (length site.allowed)) (tell ∷ alias ∷ []) before
      ≡ some w')
reload-ends_example = reload-ends site (tell ∷ alias ∷ []) before

enough : fresh_among (tell ∷ []) site.allowed < 3
unfolding select contains text_beq
enough = omega arith

abbrev loaded_state : Option (Bool × World (List Text) ℕ) → World (List Text) ℕ
loaded_state none = before
loaded_state (some r) = r.1

abbrev with_users : World (List Text) ℕ
with_users = loaded_state (load_module plain_site 3 users [] before)

users_loaded : load_module plain_site 3 users [] before ≡ some (true, with_users)
unfolding load_module lookup insert add contains text_beq import_plugin activate
users_loaded = refl
