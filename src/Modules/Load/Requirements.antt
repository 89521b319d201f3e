-- ===== src/Modules/Load/Requirements.antt =====
-- util/dispatcher.py: which modules are active after `load_module` and `reload`.
use py_burly_bot.Common.{
  ℕ, zero, suc, Bool, true, false, List, [], ◌∷◌, ◌++◌, Option, none, some, Text, text_eq, ◌==◌,
  lookup, insert, has_key, ◌≡◌, refl, sym, ◌∙◌, contains, add, if◌then◌else◌, not, arith, eq_iff,
  inl, inr, Bool-cases, Option-cases, lookup-insert, contains-add,
}
use py_burly_bot.Modules.Registry.{
  Reason, import_plugin, active_modules, activate, record_activation_error, clear_server,
  not_allowed, circular,
}
use py_burly_bot.Modules.Load.{
  Env, World, Missing, Loaded, Stage, is_nothing, modules, note_error, run_stages,
  load_requirements, finish, finished, imported, attempt, load_module, load_all, reload,
}

empty_has_none : (k : Text) → contains k [] ≡ false
unfolding contains
empty_has_none k = refl

module _ {P S : Type 0} (env : Env P S) where
  -- Whatever is active has all its requirements active.
  pub record IsSatisfied (w : World P S) : Type 0 where
    pub satisfied :
        (m r : Text) (p : P)
        → lookup m (modules env w) ≡ some p
        → contains r (env.requires p) ≡ true
        → has_key r (modules env w) ≡ true

  -- What was active stays active.
  pub record Grows (w w' : World P S) : Type 0 where
    pub grows : (m : Text) → has_key m (modules env w) ≡ true → has_key m (modules env w') ≡ true

  Grows-refl : {w w' : World P S} → modules env w' ≡ modules env w → Grows w w'
  Grows-refl e = record { grows = λ m h. rw e h }

  Grows-trans : {a b c : World P S} → Grows a b → Grows b c → Grows a c
  Grows-trans g h = record { grows = λ m k. h.grows m (g.grows m k) }

  same-IsSatisfied :
      {w w' : World P S} → modules env w' ≡ modules env w → IsSatisfied w → IsSatisfied w'
  same-IsSatisfied e v = record {
    satisfied = λ m r p h c. rw e (v.satisfied m r p (sym (rw e refl) ∙ h) c);
  }

  modules-note_error :
      (name : Text) (reason : Reason) (w : World P S)
      → modules env (note_error env name reason w) ≡ modules env w
  unfolding record_activation_error
  modules-note_error name reason w = refl

  modules-imported :
      (name : Text) (w : World P S) → modules env (imported env name w).1 ≡ modules env w
  unfolding import_plugin
  modules-imported name w = ground arith

  modules-run_stages :
      (i : ℕ) (stages : List (Text → P → S → Stage × S)) (name : Text) (p : P) (w : World P S)
      → modules env (run_stages env i stages name p w).1 ≡ modules env w
  unfolding run_stages record_activation_error
  modules-run_stages i [] name p w = refl
  modules-run_stages i (stage ∷ stages) name p w = ground (
    arith,
    modules-run_stages (suc i) stages name p (record w { rest = (stage name p w.rest).1 }),
  )

  -- What one load promises.
  pub record Promise (name : Text) (w : World P S) (done : Bool) (w' : World P S) : Type 0 where
    pub keeps : IsSatisfied w → IsSatisfied w'
    pub more : Grows w w'
    pub active : done ≡ true → has_key name (modules env w') ≡ true

  -- The requirements that are not missing are active at the end of the loop.
  record Met (names : List Text) (before : Missing) (w : World P S) (missing : Missing)
      (w' : World P S) : Type 0 where
    keeps : IsSatisfied w → IsSatisfied w'
    more : Grows w w'
    still : is_nothing missing ≡ true → is_nothing before ≡ true
    all :
        (r : Text)
        → contains r names ≡ true
        → is_nothing missing ≡ true
        → has_key r (modules env w') ≡ true

  Met-skip :
      (name : Text) (names : List Text) (before missing : Missing) (w w' : World P S)
      → has_key name (modules env w) ≡ true
      → Met names before w missing w'
      → Met (name ∷ names) before w missing w'
  unfolding contains
  Met-skip name names before missing w w' have met = record {
    keeps = met.keeps;
    more = met.more;
    still = met.still;
    all = λ r h k. elim (Bool-cases (name == r)) [
      | inl e ↦ rw (← (eq_iff name r).0 e) (met.more.grows name have)
      | inr e ↦ met.all r (ground arith) k
    ];
  }

  -- A missing requirement is never forgotten.
  Met-lost :
      (name : Text) (names : List Text) (before noted missing : Missing) (w w₁ w' : World P S)
      → is_nothing noted ≡ false
      → (IsSatisfied w → IsSatisfied w₁)
      → Grows w w₁
      → Met names noted w₁ missing w'
      → Met (name ∷ names) before w missing w'
  Met-lost name names before noted missing w w₁ w' lost keeps more met = record {
    keeps = λ v. met.keeps (keeps v);
    more = Grows-trans more met.more;
    still = λ k. absurd (cc (met.still k));
    all = λ r h k. absurd (cc (met.still k));
  }

  Met-loaded :
      (name : Text) (names : List Text) (before missing : Missing) (w w₁ w' : World P S)
      → Promise name w true w₁
      → Met names before w₁ missing w'
      → Met (name ∷ names) before w missing w'
  unfolding contains
  Met-loaded name names before missing w w₁ w' p met = record {
    keeps = λ v. met.keeps (p.keeps v);
    more = Grows-trans p.more met.more;
    still = met.still;
    all = λ r h k. elim (Bool-cases (name == r)) [
      | inl e ↦ rw (← (eq_iff name r).0 e) (met.more.grows name (p.active refl))
      | inr e ↦ met.all r (ground arith) k
    ];
  }

  noted_allowed :
      (name : Text) (m : Missing)
      → is_nothing (record m { notallowed = add name m.notallowed }) ≡ false
  noted_allowed name m =
      ground (arith, contains-add name name m.notallowed, eq_iff name name, empty_has_none name)

  noted_failed :
      (name : Text) (m : Missing) → is_nothing (record m { failures = add name m.failures }) ≡ false
  noted_failed name m =
      ground (arith, contains-add name name m.failures, eq_iff name name, empty_has_none name)

  module _ (load : Text → World P S → Loaded P S)
      (promise : (k : Text) (w w' : World P S) (done : Bool)
        → load k w ≡ some (done, w')
        → Promise k w done w') where
    load_requirements-Met :
        (names : List Text) (before missing : Missing) (w w' : World P S)
        → load_requirements env load names before w ≡ some (missing, w')
        → Met names before w missing w'
    unfolding load_requirements
    load_requirements-Met [] before missing w w' h =
        let same : before ≡ missing = ground arith in
        let kept : w ≡ w' = ground arith in
        rw (← same, ← kept)
          (record {
            keeps = λ v. v;
            more = Grows-refl refl;
            still = λ k. k;
            all = λ r c k. absurd (cc (c, empty_has_none r));
          })
    load_requirements-Met (name ∷ names) before missing w w' h =
        elim (Bool-cases (has_key name (modules env w))) [
          | inl have ↦
              Met-skip name names before missing w w' have
                (load_requirements-Met names before missing w w' (rw have at h))
          | inr lack ↦ elim (Bool-cases (not (contains name env.allowed))) [
            | inl out ↦
                let noted = record before { notallowed = add name before.notallowed } in
                Met-lost name names before noted missing w w w' (noted_allowed name before) (λ v. v)
                  (Grows-refl refl)
                  (load_requirements-Met names noted missing w w' (rw (lack, out) at h))
            | inr in_list ↦ elim (Option-cases (load name w)) [
              | inl ended ↦ absurd (cc (rw (lack, in_list, load_requirements, ended) at h))
              | inr ((done, w₁), ran) ↦ elim (Bool-cases done) [
                | inl loaded ↦
                    Met-loaded name names before missing w w₁ w'
                      (promise name w w₁ true (rw (← loaded) ran))
                      (load_requirements-Met names before missing w₁ w'
                        (rw (lack, in_list, load_requirements, ran, loaded) at h))
                | inr failed ↦
                    let noted = record before { failures = add name before.failures } in
                    let p : Promise name w false w₁ = promise name w w₁ false (rw (← failed) ran) in
                    Met-lost name names before noted missing w w₁ w' (noted_failed name before)
                      p.keeps p.more
                      (load_requirements-Met names noted missing w₁ w'
                        (rw (lack, in_list, load_requirements, ran, failed) at h))
              ]
            ]
          ]
        ]

  abbrev with_active : Text → P → World P S → World P S
  with_active name p w = record w { registry = activate env.server name p w.registry }

  lookup-with_active :
      (name m : Text) (p : P) (w : World P S)
      → lookup m (modules env (with_active name p w))
        ≡ (if name == m then some p else lookup m (modules env w))
  unfolding activate
  lookup-with_active name m p w = ground (
    arith,
    lookup-insert env.server env.server (insert name p (active_modules env.server w.registry))
        w.registry.active,
    eq_iff env.server env.server,
    lookup-insert name m p (active_modules env.server w.registry),
  )

  has_key-with_active :
      (name m : Text) (p : P) (w : World P S)
      → has_key m (modules env w) ≡ true
      → has_key m (modules env (with_active name p w)) ≡ true
  has_key-with_active name m p w h = ground (arith, lookup-with_active name m p w)

  with_active-Promise :
      (name : Text) (p : P) (w : World P S)
      → ((r : Text) → contains r (env.requires p) ≡ true → has_key r (modules env w) ≡ true)
      → Promise name w true (with_active name p w)
  with_active-Promise name p w all = record {
    keeps = λ v. record {
      satisfied = λ m r q h c. elim (Bool-cases (name == m)) [
        | inl e ↦
            let same : p ≡ q = ground (arith, lookup-with_active name m p w) in
            has_key-with_active name r p w (all r (rw same c))
        | inr e ↦
            has_key-with_active name r p w
              (v.satisfied m r q (ground (arith, lookup-with_active name m p w)) c)
      ];
    };
    more = record { grows = λ m h. has_key-with_active name m p w h };
    active = λ _. ground (arith, lookup-with_active name name p w, eq_iff name name);
  }

  Promise-after :
      {name : Text} {a b c : World P S} {done : Bool}
      → (IsSatisfied a → IsSatisfied b)
      → Grows a b
      → Promise name b done c
      → Promise name a done c
  Promise-after keeps more p = record {
    keeps = λ v. p.keeps (keeps v);
    more = Grows-trans more p.more;
    active = p.active;
  }

  same-Promise :
      (name : Text) (w w' : World P S) → modules env w' ≡ modules env w → Promise name w false w'
  same-Promise name w w' e = record {
    keeps = same-IsSatisfied e;
    more = Grows-refl e;
    active = λ h. absurd (cc);
  }

  ended-Promise :
      (name : Text) (p : P) (w : World P S) (end : Bool × World P S)
      → modules env end.1 ≡ modules env w
      → ((r : Text) → contains r (env.requires p) ≡ true → has_key r (modules env w) ≡ true)
      → let out =
          if◌then◌else◌ {A = Bool × World P S} end.0
            (true, with_active name p end.1)
            (false, end.1) in
        Promise name w out.0 out.1
  ended-Promise name p w (true, w') e all =
      Promise-after (same-IsSatisfied e) (Grows-refl e)
        (with_active-Promise name p w' (λ r c. rw e (all r c)))
  ended-Promise name p w (false, w') e all = same-Promise name w w' e

  finish-Promise :
      (name : Text) (p : P) (missing : Missing) (w₀ w : World P S)
      → Met (env.requires p) (record { notallowed = []; failures = [] }) w₀ missing w
      → Promise name w₀ (finish env name p (missing, w)).0 (finish env name p (missing, w)).1
  finish-Promise name p missing w₀ w met =
      Promise-after met.keeps met.more (go (is_nothing missing) refl)
    where
      stages : List (Text → P → S → Stage × S)
      stages = env.configure ∷ env.initialize ∷ env.register ∷ []

      go :
          (b : Bool)
          → is_nothing missing ≡ b
          → Promise name w (finish env name p (missing, w)).0 (finish env name p (missing, w)).1
      go true e = rw e (
          ended-Promise name p w (run_stages env 0 stages name p w)
            (modules-run_stages 0 stages name p w) (λ r c. met.all r c e))
      go false e = rw e (same-Promise name w _ (modules-note_error name _ w))

  answer :
      (name : Text) (w v w' : World P S) (b done : Bool)
      → ◌≡◌ {A = Loaded P S} (some (b, v)) (some (done, w'))
      → Promise name w b v
      → Promise name w done w'
  answer name w v w' b done h p =
      let same : b ≡ done = ground arith in
      let kept : v ≡ w' = ground arith in rw (← same, ← kept) p

  -- One level of `load_module`, over any way to load the requirements that keeps the promise.
  module _ (deeper : Text → World P S → Loaded P S)
      (promise : (k : Text) (w w' : World P S) (done : Bool)
        → deeper k w ≡ some (done, w')
        → Promise k w done w') where
    attempt-Promise :
        (name : Text) (w₁ w' : World P S) (done : Bool) (o : Option P)
        → attempt env deeper name w₁ o ≡ some (done, w')
        → Promise name w₁ done w'
    attempt-Promise name w₁ w' done none h =
        answer name w₁ w₁ w' false done h (same-Promise name w₁ w₁ refl)
    attempt-Promise name w₁ w' done (some p) h =
        go (load_requirements env deeper (env.requires p) nothing_yet w₁) refl h
      where
        nothing_yet : Missing
        nothing_yet = record { notallowed = []; failures = [] }

        go :
            (r : Option (Missing × World P S))
            → load_requirements env deeper (env.requires p) nothing_yet w₁ ≡ r
            → finished env name p r ≡ some (done, w')
            → Promise name w₁ done w'
        go none e k = absurd (cc)
        go (some (missing, w₂)) e k =
            answer name w₁ (finish env name p (missing, w₂)).1 w'
              (finish env name p (missing, w₂)).0 done k
              (finish-Promise name p missing w₁ w₂
                (load_requirements-Met deeper promise (env.requires p) nothing_yet missing w₁ w₂ e))

    level-Promise :
        (name : Text) (w w' : World P S) (done : Bool) (a b c : Bool)
        → has_key name (modules env w) ≡ a
        → ◌≡◌ {A = Loaded P S}
            (if a
              then some (true, w)
              else if not b
              then some (false, note_error env name not_allowed w)
              else if c
              then some (false, note_error env name circular w)
              else attempt env deeper name (imported env name w).1 (imported env name w).0)
            (some (done, w'))
        → Promise name w done w'
    level-Promise name w w' done true b c e k =
        answer name w w w' true done k
          (record { keeps = λ v. v; more = Grows-refl refl; active = λ _. e })
    level-Promise name w w' done false false c e k =
        answer name w _ w' false done k
          (same-Promise name w _ (modules-note_error name not_allowed w))
    level-Promise name w w' done false true true e k =
        answer name w _ w' false done k (same-Promise name w _ (modules-note_error name circular w))
    level-Promise name w w' done false true false e k =
        Promise-after (same-IsSatisfied (modules-imported name w))
          (Grows-refl (modules-imported name w))
          (attempt-Promise name (imported env name w).1 w' done (imported env name w).0 k)

  -- One load, of any module at any depth: it keeps every active module supplied with what it
  -- requires, it deactivates nothing, and a load that succeeds leaves its module active.
  pub load_module-Promise :
      (fuel : ℕ) (name : Text) (parents : List Text) (w w' : World P S) (done : Bool)
      → load_module env fuel name parents w ≡ some (done, w')
      → Promise name w done w'
  unfolding load_module
  load_module-Promise zero name parents w w' done h = absurd (cc)
  load_module-Promise (suc fuel) name parents w w' done h =
      level-Promise (λ k. load_module env fuel k (parents ++ name ∷ []))
        (λ k. load_module-Promise fuel k (parents ++ name ∷ [])) name w w' done
        (has_key name (modules env w)) (contains name env.allowed) (contains name parents) refl h

  load_all-IsSatisfied :
      (fuel : ℕ) (names : List Text) (w w' : World P S)
      → load_all env fuel names w ≡ some w'
      → IsSatisfied w
      → IsSatisfied w'
  unfolding load_all
  load_all-IsSatisfied fuel [] w w' h v = let same : w ≡ w' = ground arith in rw (← same) v
  load_all-IsSatisfied fuel (name ∷ names) w w' h v =
      elim (Bool-cases (contains name env.allowed)) [
        | inr out ↦ load_all-IsSatisfied fuel names w w' (rw out at h) v
        | inl in_list ↦ elim (Option-cases (load_module env fuel name [] w)) [
          | inl ended ↦ absurd (cc (rw (in_list, load_all, ended) at h))
          | inr ((done, w₁), ran) ↦
              load_all-IsSatisfied fuel names w₁ w' (rw (in_list, load_all, ran) at h)
                ((load_module-Promise fuel name [] w w₁ done ran).keeps v)
        ]
      ]

  -- After a reload, from whatever was loaded before, every active module has all the modules that it
  -- requires active beside it.
  pub reload-IsSatisfied :
      (fuel : ℕ) (load_order : List Text) (w w' : World P S)
      → reload env fuel load_order w ≡ some w'
      → IsSatisfied w'
  unfolding reload
  reload-IsSatisfied fuel load_order w w' h =
      load_all-IsSatisfied fuel load_order _ w' h
        (record { satisfied = λ m r p e c. absurd (cleared m p e) })
    where
      cleared :
          (m : Text) (p : P)
          → lookup m (modules env (record w { registry = clear_server env.server w.registry }))
            ≡ some p
          → ⊥
      cleared m p e =
          unfold clear_server lookup in
          ground (
            arith,
            lookup-insert env.server env.server [] w.registry.active,
            eq_iff env.server env.server,
          )
