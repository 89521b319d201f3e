-- ===== src/Webhook/Settling.antt =====
-- util/webhook.py: runs of the listener, and what its chain of stops and starts amounts to.
use mathlib.Core.List.{append_assoc}
use py_burly_bot.Common.{
  ℕ, Bool, true, List, [], ◌∷◌, ◌++◌, Option, none, some, text_eq, if◌then◌else◌, ◌≡◌, refl, arith,
  eq_iff, inl, inr, Bool-cases, Option-cases, ◌∙◌,
}
use py_burly_bot.Webhook.Listener.{
  Address, Pending, stop_port, start_port, Listener, initial, is_at, same_address, enqueue, listen,
  release, stop_if_unclaimed, run_pending, run_next,
}

-- What happens to the listener: the calls, the check that `release` schedules, and a step of the
-- chain, which says whether a bind would succeed.
pub data Happening (H : Type 0) : Type 0 where
  listened : Address → H → ℕ → Happening H
  released : Happening H
  checked : Happening H
  turned : Bool → Happening H

-- Where the port ends if the chain runs with this address.
unfoldable pub settled : List Pending → Option Address → Option Address → Option Address
settled [] address port = port
settled (stop_port ∷ ps) address port = settled ps address none
settled (start_port a ∷ ps) address port =
    settled ps address (if is_at a address then some a else port)

-- Every start in the chain finds the port closed.
abbrev pub IsGuarded : List Pending → Option Address → Type 0
IsGuarded [] port = Unit
IsGuarded (stop_port ∷ ps) port = IsGuarded ps none
IsGuarded (start_port a ∷ ps) port = (port ≡ none) × ((p : Option Address) → IsGuarded ps p)

settled-append :
    (ps qs : List Pending) (address port : Option Address)
    → settled (ps ++ qs) address port ≡ settled qs address (settled ps address port)
unfolding settled
settled-append [] qs address port = refl
settled-append (stop_port ∷ ps) qs address port = settled-append ps qs address none
settled-append (start_port a ∷ ps) qs address port = settled-append ps qs address _

settled-none : (ps : List Pending) → settled ps none none ≡ none
unfolding settled
settled-none [] = refl
settled-none (stop_port ∷ ps) = settled-none ps
settled-none (start_port a ∷ ps) = settled-none ps

IsGuarded-append :
    (ps qs : List Pending) (port : Option Address)
    → IsGuarded ps port
    → ((p : Option Address) → IsGuarded qs p)
    → IsGuarded (ps ++ qs) port
IsGuarded-append [] qs port g h = h port
IsGuarded-append (stop_port ∷ ps) qs port g h = IsGuarded-append ps qs none g h
IsGuarded-append (start_port a ∷ ps) qs port g h = (g.0, λ p. IsGuarded-append ps qs p (g.1 p) h)

same_address_refl : (a : Address) → same_address a a ≡ true
same_address_refl a = ground (arith, eq_iff a.host a.host)

module _ {H : Type 0} where
  -- Once the chain has run, the port is at the address, and no start opens a second port.
  pub record IsSettling (s : Listener H) : Type 0 where
    pub settles : settled s.chain s.address s.port ≡ s.address
    pub guarded : IsGuarded s.chain s.port

  unfoldable pub happen : Happening H → Listener H → Listener H
  unfolding listen release stop_if_unclaimed run_next
  happen (listened a handler max_body) s = listen a handler max_body s
  happen released s = release s
  happen checked s = stop_if_unclaimed s
  happen (turned bound) s = run_next bound s

  unfoldable pub happen_all : List (Happening H) → Listener H → Listener H
  unfolding happen
  happen_all [] s = s
  happen_all (h ∷ hs) s = happen_all hs (happen h s)

  listen-IsSettling :
      (a : Address) (handler : H) (max_body : ℕ) (s : Listener H)
      → IsSettling s
      → IsSettling (listen a handler max_body s)
  unfolding listen enqueue settled
  listen-IsSettling a handler max_body s v = elim (Bool-cases (is_at a s.address)) [
    | inl e ↦ rw (e, listen) (record { settles = v.settles; guarded = v.guarded })
    | inr e ↦
        rw (e, listen)
          (record {
            settles =
                settled-append (s.chain ++ stop_port ∷ []) (start_port a ∷ []) (some a) s.port
                ∙ rw (settled-append s.chain (stop_port ∷ []) (some a) s.port, same_address_refl a)
                    refl;
            guarded = rw (append_assoc s.chain (stop_port ∷ []) (start_port a ∷ [])) (
                IsGuarded-append s.chain (stop_port ∷ start_port a ∷ []) s.port v.guarded
                  (λ p. (refl, λ q. tt)));
          })
  ]

  stop_if_unclaimed-IsSettling : (s : Listener H) → IsSettling s → IsSettling (stop_if_unclaimed s)
  unfolding stop_if_unclaimed enqueue settled
  stop_if_unclaimed-IsSettling s v = elim (Option-cases s.handler) [
    | inl e ↦
        rw (e, stop_if_unclaimed)
          (record {
            settles = settled-append s.chain (stop_port ∷ []) none s.port;
            guarded = IsGuarded-append s.chain (stop_port ∷ []) s.port v.guarded (λ p. tt);
          })
    | inr (h, e) ↦ rw (e, stop_if_unclaimed) v
  ]

  start-IsSettling :
      (bound : Bool) (a : Address) (ps : List Pending) (s : Listener H)
      → settled (start_port a ∷ ps) s.address s.port ≡ s.address
      → IsGuarded (start_port a ∷ ps) s.port
      → IsSettling (run_pending bound (start_port a) (record s { chain = ps }))
  unfolding run_pending settled
  start-IsSettling bound a ps s e g = elim (Bool-cases (is_at a s.address)) [
    | inr off ↦ rw (off, run_pending) (record { settles = rw off at e; guarded = g.1 s.port })
    | inl on ↦ elim (Bool-cases bound) [
      | inl bind ↦
          rw (on, run_pending, bind) (record { settles = rw on at e; guarded = g.1 (some a) })
      | inr refusal ↦
          rw (on, run_pending, refusal)
            (record { settles = rw g.0 (settled-none ps); guarded = g.1 s.port })
    ]
  ]

  run_next-IsSettling :
      (bound : Bool) (s : Listener H) → IsSettling s → IsSettling (run_next bound s)
  unfolding run_next run_pending settled
  run_next-IsSettling bound s v = go s.chain refl
    where
      go : (ps : List Pending) → s.chain ≡ ps → IsSettling (run_next bound s)
      go [] e = rw (e, run_next) v
      go (stop_port ∷ ps) e =
          rw (e, run_next) (record { settles = rw e at v.settles; guarded = rw e at v.guarded })
      go (start_port a ∷ ps) e =
          rw (e, run_next) (start-IsSettling bound a ps s (rw e at v.settles) (rw e at v.guarded))

  -- No sequence of calls, checks and steps of the chain, binds that fail included, breaks this: the
  -- chain still leads the port to the address, and each start in it finds the port closed.
  pub happen_all-IsSettling :
      (hs : List (Happening H)) (s : Listener H) → IsSettling s → IsSettling (happen_all hs s)
  unfolding happen_all happen
  happen_all-IsSettling [] s v = v
  happen_all-IsSettling (listened a handler max_body ∷ hs) s v =
      happen_all-IsSettling hs _ (listen-IsSettling a handler max_body s v)
  happen_all-IsSettling (released ∷ hs) s v =
      happen_all-IsSettling hs (release s)
        (unfold release in record { settles = v.settles; guarded = v.guarded })
  happen_all-IsSettling (checked ∷ hs) s v =
      happen_all-IsSettling hs _ (stop_if_unclaimed-IsSettling s v)
  happen_all-IsSettling (turned bound ∷ hs) s v =
      happen_all-IsSettling hs _ (run_next-IsSettling bound s v)

  -- From the start on, whenever the chain is empty the port is bound to the address, and closed
  -- where there is none.
  pub idle-port :
      (hs : List (Happening H))
      → (happen_all hs initial).chain ≡ []
      → (happen_all hs initial).port ≡ (happen_all hs initial).address
  unfolding settled
  idle-port hs e =
      (rw e at (happen_all-IsSettling hs initial (record { settles = refl; guarded = tt })).settles)
