-- ===== src/Settings/Options/RoundTrip.antt =====
-- util/settings.py: an option that is set is what is got.
use py_burly_bot.Common.{
  Bool, [], ◌∷◌, Option, none, some, Text, text_eq, Dict, lookup, insert, contains,
  lookup-insert_same, ◌≡◌, refl, sym, ap, ◌∙◌, arith, Bool-cases, Option-cases, inl, inr, ◌⊎◌, ◌≢◌,
}
use py_burly_bot.Settings.Options.{
  Value, plain, table, ModuleOpts, Server, here, nowhere, label, Store, Found, found, missing,
  failed, Outcome, Error, done, raised, keys_deny, channels_key, given, lookup_channel,
  lookup_module_opt, label_of, from_server, get_module_option, get_option, set_in, set_module,
  set_module_option, set_option, core, asked_server, or_no_options, or_no_values, or_missing,
}

done-injective : {B : Type 0} {a b : B} → done a ≡ done b → a ≡ b
done-injective h = cc

Outcome-cases :
    {B : Type 0} (o : Outcome B)
    → (((e : Error) × (o ≡ raised e)) ⊎ (o ≡ core)) ⊎ ((b : B) × (o ≡ done b))
Outcome-cases (raised e) = inl (inl (e, refl))
Outcome-cases (core) = inl (inr refl)
Outcome-cases (done b) = inr (b, refl)

module _ {A : Type 0} where
  -- What the module gives for an option that was set in its dictionary.
  abbrev found_in : Dict Text (Value A) → Text → Option Text → Found A
  found_in mod_opts opt channel = elim (lookup_channel mod_opts opt channel) [
    | missing ↦ or_missing (lookup opt mod_opts)
    | found v ↦ found v
    | failed e ↦ failed e
  ]

  found_in-table :
      (mod_opts : Dict Text (Value A)) (opt channel : Text) (v : A)
      (channels : Dict Text (Dict Text A)) (d : Dict Text A)
      → lookup channels_key mod_opts ≡ some (table channels)
      → lookup channel channels ≡ some d
      → lookup opt d ≡ some v
      → found_in mod_opts opt (some channel) ≡ found (plain v)
  unfolding lookup_channel
  found_in-table mod_opts opt channel v channels d e f g = ground (arith, e, f, g)

  set_in-found :
      (opt : Text) (v : A) (channel : Option Text) (mod_opts changed : Dict Text (Value A))
      → set_in opt v channel mod_opts ≡ done changed
      → found_in changed opt channel ≡ found (plain v)
  unfolding set_in lookup_channel lookup
  set_in-found opt v none mod_opts changed h =
      ground (arith, h, lookup-insert_same opt (plain v) mod_opts)
  set_in-found opt v (some channel) mod_opts changed h =
      elim (Option-cases (lookup channels_key mod_opts)) [
        | inl e ↦ in_table [] (done-injective (rw (set_in, e) at h))
        | inr (plain w, e) ↦ absurd (cc (rw (set_in, e) at h))
        | inr (table channels, e) ↦ in_table channels (done-injective (rw (set_in, e) at h))
      ]
    where
      in_table :
          (channels : Dict Text (Dict Text A))
          → insert channels_key
              (table
                (insert channel (insert opt v (or_no_values (lookup channel channels))) channels))
              mod_opts
            ≡ changed
          → found_in changed opt (some channel) ≡ found (plain v)
      in_table channels e =
          found_in-table changed opt channel v
            (insert channel (insert opt v (or_no_values (lookup channel channels))) channels)
            (insert opt v (or_no_values (lookup channel channels)))
            (ap (lookup channels_key) (sym e) ∙ lookup-insert_same channels_key _ mod_opts)
            (lookup-insert_same channel _ channels) (lookup-insert_same opt v _)

  lookup_module_opt-of :
      (m opt : Text) (channel : Option Text) (moduleopts : ModuleOpts A)
      (mod_opts : Dict Text (Value A))
      → lookup m moduleopts ≡ some mod_opts
      → lookup_module_opt moduleopts m opt channel ≡ found_in mod_opts opt (given channel)
  unfolding lookup_module_opt
  lookup_module_opt-of m opt channel moduleopts mod_opts e = ground (arith, e)

  set_module-found :
      (m opt : Text) (v : A) (channel : Option Text) (moduleopts changed : ModuleOpts A)
      → set_module m opt v channel moduleopts ≡ done changed
      → lookup_module_opt changed m opt channel ≡ found (plain v)
  unfolding set_module lookup_module_opt
  set_module-found m opt v channel moduleopts changed h =
      by_outcome (set_in opt v (given channel) (or_no_options (lookup m moduleopts))) refl h
    where
      by_outcome :
          (o : Outcome (Dict Text (Value A)))
          → set_in opt v (given channel) (or_no_options (lookup m moduleopts)) ≡ o
          → (elim o as (λ _. Outcome (ModuleOpts A)) [
            | raised e ↦ raised e
            | core ↦ core
            | done mod_opts ↦ done (insert m mod_opts moduleopts)
          ])
            ≡ done changed
          → lookup_module_opt changed m opt channel ≡ found (plain v)
      by_outcome (raised x) e h = absurd (cc)
      by_outcome (core) e h = absurd (cc)
      by_outcome (done mod_opts) e h =
          ap (λ c. lookup_module_opt c m opt channel) (sym (done-injective h))
          ∙ (lookup_module_opt-of m opt channel (insert m mod_opts moduleopts) mod_opts
                (lookup-insert_same m mod_opts moduleopts)
              ∙ set_in-found opt v (given channel) _ mod_opts e)

  get_module_option-found :
      (opt m : Text) (v : Value A) (channel : Option Text) (server : Server) (default : Option A)
      (set_default : Bool) (s : Store A)
      → from_server server m opt channel s ≡ found v
      → (get_module_option opt m channel server default set_default s).0 ≡ done v
  unfolding get_module_option
  get_module_option-found opt m v channel server default set_default s e = ground (arith, e)

  get_module_option-main :
      (opt m : Text) (v : Value A) (channel : Option Text) (default : Option A) (set_default : Bool)
      (s : Store A)
      → lookup_module_opt s.main m opt channel ≡ found v
      → (get_module_option opt m channel nowhere default set_default s).0 ≡ done v
  unfolding get_module_option from_server
  get_module_option-main opt m v channel default set_default s e = ground (arith, e)

  server-found :
      (m opt : Text) (v : Value A) (channel : Option Text) (server : Server) (s : Store A)
      (moduleopts : ModuleOpts A)
      → server ≢ nowhere
      → lookup (label_of server s) s.servers ≡ some moduleopts
      → lookup_module_opt moduleopts m opt channel ≡ found v
      → from_server server m opt channel s ≡ found v
  unfolding from_server
  server-found m opt v channel nowhere s moduleopts n e f = absurd (n refl)
  server-found m opt v channel here s moduleopts n e f = rw (from_server, e) f
  server-found m opt v channel (label l) s moduleopts n e f = rw (from_server, e) f

  -- Where the value stands once it is set.
  abbrev IsStored : Text → Text → A → Option Text → Server → Store A → Type 0
  IsStored opt m v channel nowhere t = lookup_module_opt t.main m opt channel ≡ found (plain v)
  IsStored opt m v channel server t = from_server server m opt channel t ≡ found (plain v)

  stored :
      (opt m : Text) (v : A) (channel : Option Text) (server : Server) (s t : Store A)
      → set_module_option opt v m channel server s ≡ done t
      → IsStored opt m v channel server t
  unfolding set_module_option
  stored opt m v channel nowhere s t h = elim (Outcome-cases (set_module m opt v channel s.main)) [
    | inl (inl (e, c)) ↦ absurd (cc (rw (set_module_option, c) at h))
    | inl (inr c) ↦ absurd (cc (rw (set_module_option, c) at h))
    | inr (new, c) ↦
        let changed = done-injective (rw (set_module_option, c) at h) in
        ap (λ x. lookup_module_opt x m opt channel) (sym (ap Store.main changed))
        ∙ set_module-found m opt v channel s.main new c
  ]
  stored opt m v channel (here) s t h = elim (Option-cases (lookup s.self s.servers)) [
    | inl b ↦ absurd (cc (rw (set_module_option, b) at h))
    | inr (old, b) ↦ elim (Outcome-cases (set_module m opt v channel old)) [
      | inl (inl (e, c)) ↦ absurd (cc (rw (set_module_option, b, c) at h))
      | inl (inr c) ↦ absurd (cc (rw (set_module_option, b, c) at h))
      | inr (new, c) ↦
          let changed = done-injective (rw (set_module_option, b, c) at h) in
          ap (from_server (here) m opt channel) (sym changed)
          ∙ server-found m opt (plain v) channel (here)
              (record s { servers = insert s.self new s.servers }) new (λ h. cc)
              (lookup-insert_same s.self new s.servers) (set_module-found m opt v channel old new c)
    ]
  ]
  stored opt m v channel (label l) s t h = elim (Option-cases (lookup l s.servers)) [
    | inl b ↦ absurd (cc (rw (set_module_option, b) at h))
    | inr (old, b) ↦ elim (Outcome-cases (set_module m opt v channel old)) [
      | inl (inl (e, c)) ↦ absurd (cc (rw (set_module_option, b, c) at h))
      | inl (inr c) ↦ absurd (cc (rw (set_module_option, b, c) at h))
      | inr (new, c) ↦
          let changed = done-injective (rw (set_module_option, b, c) at h) in
          ap (from_server (label l) m opt channel) (sym changed)
          ∙ server-found m opt (plain v) channel (label l)
              (record s { servers = insert l new s.servers }) new (λ h. cc)
              (lookup-insert_same l new s.servers) (set_module-found m opt v channel old new c)
    ]
  ]

  get_module_option-set_module_option :
      (opt m : Text) (v : A) (channel : Option Text) (server : Server) (s t : Store A)
      (default : Option A) (set_default : Bool)
      → set_module_option opt v m channel server s ≡ done t
      → (get_module_option opt m channel server default set_default t).0 ≡ done (plain v)
  get_module_option-set_module_option opt m v channel nowhere s t default set_default h =
      get_module_option-main opt m (plain v) channel default set_default t
        (stored opt m v channel nowhere s t h)
  get_module_option-set_module_option opt m v channel (here) s t default set_default h =
      get_module_option-found opt m (plain v) channel (here) default set_default t
        (stored opt m v channel (here) s t h)
  get_module_option-set_module_option opt m v channel (label l) s t default set_default h =
      get_module_option-found opt m (plain v) channel (label l) default set_default t
        (stored opt m v channel (label l) s t h)

  -- An option of a module that was set, for a channel and a server or for neither, is what is got
  -- there, whatever the default.
  pub get_option-set_option :
      (opt m : Text) (v : A) (channel : Option Text) (server : Server) (s t : Store A)
      (default : Option A) (set_default : Bool)
      → set_option opt v m channel server s ≡ done t
      → (get_option opt m channel server default set_default t).0 ≡ done (plain v)
  unfolding set_option get_option
  get_option-set_option opt [] v channel server s t default set_default h =
      elim (Bool-cases (contains opt keys_deny)) [
        | inl a ↦ absurd (cc (rw (set_option, a) at h))
        | inr a ↦ absurd (cc (rw (set_option, a) at h))
      ]
  get_option-set_option opt (c ∷ cs) v channel server s t default set_default h =
      elim (Bool-cases (contains opt keys_deny)) [
        | inl a ↦ absurd (cc (rw (set_option, a) at h))
        | inr a ↦
            rw (get_option, a)
              (get_module_option-set_module_option opt (c ∷ cs) v channel (asked_server server) s t
                default set_default (rw (set_option, a) at h))
      ]
