-- ===== src/Net/Requests/Redirects.antt =====
-- util/http.py: the loop over the redirects makes such a run as `Runs` says.
use py_burly_bot.Common.{
  ℕ, zero, suc, Bool, true, false, List, [], ◌∷◌, Option, some, Text, text_eq, ◌==◌, Dict, any,
  lookup, codes, ◌≡◌, ◌≢◌, refl, arith, inl, inr, ◌⊎◌, Bool-cases, Option-cases, nat_beq,
}
use py_burly_bot.Net.Requests.{
  Sent, Response, Failure, Result, Web, Limits, Round, over, moved, ok, err, host_header,
  redirect_origin, prepare, read_response, follow, round, request_loop, request, first, is_redirect,
  final, unmoved,
}
use py_burly_bot.Net.Requests.Next.{redirected-IsNext}
use py_burly_bot.Net.Requests.Runs.{
  IsRedirect, LeadsTo, IsVerdict, IsAnswered, Run, refused, failed, ended, ran_out, misled, went_on,
}

pub Result-cases {ℓ} :
    {A : Type ℓ} (r : Result A) → ((e : Failure) × (r ≡ err e)) ⊎ ((a : A) × (r ≡ ok a))
Result-cases (err e) = inl (e, refl)
Result-cases (ok a) = inr (a, refl)

pub ok-injective : {A : Type 0} {a b : A} → ok a ≡ ok b → a ≡ b
ok-injective h = cc

Round-cases :
    (x : Round)
    → ((r : Result Response) × (log : List Sent) × (x ≡ over r log))
      ⊎ ((sent : Sent) × (next : Sent) × (x ≡ moved sent next))
Round-cases (over r log) = inl (r, log, refl)
Round-cases (moved sent next) = inr (sent, next, refl)

is_redirect-IsRedirect : (status : ℕ) → is_redirect status ≡ true → IsRedirect status
unfolding is_redirect
is_redirect-IsRedirect status h = ground (arith, h)

IsRedirect-is_redirect : (status : ℕ) → is_redirect status ≡ false → IsRedirect status → ⊥
unfolding is_redirect
IsRedirect-is_redirect status h r = ground (arith, h, r)

final-IsVerdict : (raising : Bool) (r : Response) → IsVerdict raising r (final raising r)
final-IsVerdict raising r = ground arith

unmoved-IsVerdict :
    (raising : Bool) (r : Response) → IsRedirect r.status → IsVerdict raising r (unmoved raising r)
unmoved-IsVerdict false r h = inl (inl refl, refl)
unmoved-IsVerdict true r h = inr (refl, (λ fine. omega (arith, h, fine)), refl)

module _ (web : Web) (limits : Limits) (raising : Bool) (late : ℕ → Bool) where
  -- What a round of the loop adds to the run.
  abbrev IsRound : ℕ → Sent → Round → Type 0
  IsRound n s (over result log) = Run web limits raising late (suc n) s result log
  IsRound n s (moved t next) =
      (n ≢ 0)
      × ((result : Result Response) (log : List Sent)
          → Run web limits raising late n next result log
          → Run web limits raising late (suc n) s result (t ∷ log))

  stays :
      (n : ℕ) (s t : Sent) (r : Response)
      → IsAnswered web limits raising late n s t r
      → IsRedirect r.status
      → ((location : Text) → lookup (codes "location") r.headers ≡ some location → location ≡ [])
      → IsRound n s (over (unmoved raising r) (t ∷ []))
  stays n s t r answered there nowhere =
      ended n s t r _ answered (λ l leads. leads.2 (nowhere l leads.1))
        (unmoved-IsVerdict raising r there)

  leads :
      (n : ℕ) (s t : Sent) (r : Response) (c : ℕ) (cs : Text)
      → IsAnswered web limits raising late n s t r
      → is_redirect r.status ≡ true
      → lookup (codes "location") r.headers ≡ some (c ∷ cs)
      → IsRound n s (follow web (nat_beq n 0) raising t r)
  unfolding follow
  leads zero s t r c cs answered there l =
      rw (follow, there, l)
        (ran_out s t r (c ∷ cs) answered
          (is_redirect-IsRedirect r.status there, l, λ e. absurd (cc)))
  leads (suc n) s t r c cs answered there l =
      let to : LeadsTo r (c ∷ cs) = (is_redirect-IsRedirect r.status there, l, λ e. absurd (cc)) in
      let more : nat_beq (suc n) 0 ≡ false = ground arith in
      elim (Result-cases (redirect_origin web (web.urljoin t.url (c ∷ cs)))) [
        | inl (e, f) ↦ rw (follow, there, l, more, f) (misled n s t r (c ∷ cs) e answered to f)
        | inr (o, f) ↦
            rw (follow, there, l, more, f)
              (
                λ e. absurd (omega (arith, e)),
                λ result log run.
                    went_on (suc n) s t r (c ∷ cs) o _ result log answered to f
                      (redirected-IsNext web t o r.status _) run,
              )
      ]

  follow-IsRound :
      (n : ℕ) (s t : Sent) (r : Response)
      → IsAnswered web limits raising late n s t r
      → IsRound n s (follow web (nat_beq n 0) raising t r)
  unfolding follow
  follow-IsRound n s t r answered = elim (Bool-cases (is_redirect r.status)) [
    | inr other ↦
        rw (follow, other)
          (ended n s t r _ answered (λ l to. IsRedirect-is_redirect r.status other to.0)
            (final-IsVerdict raising r))
    | inl there ↦
        let redirects = is_redirect-IsRedirect r.status there in
        elim (Option-cases (lookup (codes "location") r.headers)) [
          | inl l ↦ rw (follow, there, l) (stays n s t r answered redirects (λ x e. absurd (cc)))
          | inr ([], l) ↦ rw (follow, there, l) (stays n s t r answered redirects (λ x e. cc))
          | inr (c ∷ cs, l) ↦ leads n s t r c cs answered there l
        ]
  ]

  round-IsRound : (n : ℕ) (s : Sent) → IsRound n s (round web n limits raising late s)
  unfolding round
  round-IsRound n s = elim (Result-cases (prepare web limits (late n) s)) [
    | inl (e, p) ↦ rw (round, p) (refused n s e p)
    | inr (t, p) ↦ elim (Result-cases (read_response web limits t (web.exchange n t))) [
      | inl (e, q) ↦ rw (round, p, q) (failed n s t e p q)
      | inr (r, q) ↦ rw (round, p, q) (follow-IsRound n s t r (p, q))
    ]
  ]

  request_loop-Run :
      (n : ℕ) (s : Sent)
      → let out = request_loop web (suc n) limits raising late s in
        Run web limits raising late (suc n) s out.0 out.1
  unfolding request_loop
  request_loop-Run zero s = elim (Round-cases (round web 0 limits raising late s)) [
    | inl (r, log, e) ↦ rw (request_loop, e) (rw e at (round-IsRound 0 s))
    | inr (t, next, e) ↦ let (more, _) = rw e at (round-IsRound 0 s) in absurd (more refl)
  ]
  request_loop-Run (suc n) s = elim (Round-cases (round web (suc n) limits raising late s)) [
    | inl (r, log, e) ↦ rw (request_loop, e) (rw e at (round-IsRound (suc n) s))
    | inr (t, next, e) ↦
        let (_, go) = rw e at (round-IsRound (suc n) s) in
        rw (request_loop, e) (go _ _ (request_loop-Run n next))
  ]

pub request-Run :
    (web : Web) (limits : Limits) (user_agent : Text) (raising : Bool) (late : ℕ → Bool)
    (method url : Text) (headers : Dict Text Text) (body : Option (List ℕ))
    → let out = request web limits user_agent raising late method url headers body in
      (out ≡ (err host_header, []))
      ⊎ Run web limits raising late
          (suc limits.max_redirects)
          (first web user_agent method url headers body)
          out.0
          out.1
unfolding request
request-Run web limits user_agent raising late method url headers body =
    let s = first web user_agent method url headers body in
    elim (Bool-cases (any (λ h. web.casefold h.0 == codes "host") s.headers)) [
      | inl e ↦ rw (request, e) (inl refl)
      | inr e ↦
          rw (request, e) (inr (request_loop-Run web limits raising late limits.max_redirects s))
    ]
