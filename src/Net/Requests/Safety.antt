-- ===== src/Net/Requests/Safety.antt =====
-- util/http.py: what every request of `HTTPClient` keeps to, whatever the servers answer.
use py_burly_bot.Common.{
  ℕ, suc, ◌≤◌, Bool, true, false, List, [], ◌∷◌, Option, Text, text_eq, ◌==◌, Dict, any, All,
  length, codes, ◌≡◌, refl, arith, inl, inr, Bool-cases, Option-cases, if◌then◌else◌,
}
use py_burly_bot.Net.Requests.{
  Address, Sent, Response, Result, Web, Limits, Reply, Answer, answered, timed_out, broken, ok, err,
  check_url, validated_addresses, without_zone, is_unsafe, some_address, distinct_addresses,
  prepare, read_response, request, read_limited, is_encoded, fold_headers, check_length, or_stuck,
  ◌>>=◌,
}
use py_burly_bot.Net.Requests.Runs.{
  IsVerdict, Run, refused, failed, ended, ran_out, misled, went_on,
}
use py_burly_bot.Net.Requests.Redirects.{request-Run, Result-cases, ok-injective}
use py_burly_bot.Net.Requests.Reading.{IsReading, fits, over, ran_out, read_limited-IsReading}

after-body :
    (c : Result {0} Unit) (b : Result (List ℕ)) (f : List ℕ → Response) (r : Response)
    → (c >>= λ _. b >>= λ bytes. ok (f bytes)) ≡ ok r
    → (bytes : List ℕ) × (b ≡ ok bytes) × (f bytes ≡ r)
after-body (err e) b f r h = absurd (cc)
after-body (ok u) (err e) f r h = absurd (cc)
after-body (ok u) (ok bytes) f r h = (bytes, refl, ok-injective h)

body-short :
    (limit : ℕ) (a : Answer) (o : Option (Result (List ℕ))) (bytes : List ℕ)
    → IsReading limit a a.body o
    → or_stuck o ≡ ok bytes
    → length bytes ≤ limit
body-short limit a o bytes (fits short) h = ground (arith, short, ok-injective h)
body-short limit a o bytes (over long) h = absurd (cc)
body-short limit a o bytes (ran_out i gone) h = absurd (cc)

module _ (web : Web) (limits : Limits) where
  pub prepare-ok :
      (late : Bool) (s t : Sent)
      → prepare web limits late s ≡ ok t
      → (check_url web s.url ≡ ok t.origin)
        × (t.headers ≡ s.headers)
        × (t.url ≡ s.url)
        × (validated_addresses web t.origin.hostname t.origin.port limits.allow_private
            ≡ ok t.addresses)
  unfolding prepare
  prepare-ok late s t h = elim (Result-cases (check_url web s.url)) [
    | inl (e, p) ↦ absurd (cc (rw p at h))
    | inr (o, p) ↦ elim (Bool-cases late) [
      | inl gone ↦ absurd (cc (rw (p, gone) at h))
      | inr there ↦
          elim (Result-cases (validated_addresses web o.hostname o.port limits.allow_private)) [
            | inl (e, q) ↦ absurd (cc (rw (p, there, q) at h))
            | inr (l, q) ↦ ground (arith, p, there, q)
          ]
    ]
  ]

  abbrev pub IsGlobal : Address → Type 0
  IsGlobal a = web.is_global (without_zone a.ip) ≡ true

  none_unsafe : (l : List Address) → any (is_unsafe web) l ≡ false → All IsGlobal l
  unfolding any
  none_unsafe [] h = tt
  none_unsafe (a ∷ l) h = (ground (arith, h), none_unsafe l (ground (arith, h)))

  some_address-IsGlobal : (l m : List Address) → some_address web l false ≡ ok m → All IsGlobal m
  some_address-IsGlobal [] m h = absurd (cc)
  some_address-IsGlobal (a ∷ l) m h = elim (Bool-cases (any (is_unsafe web) (a ∷ l))) [
    | inl e ↦ absurd (cc (rw e at h))
    | inr e ↦
        let same : ok (a ∷ l) ≡ ok m = rw e at h in rw (← ok-injective same) (none_unsafe (a ∷ l) e)
  ]

  validated_addresses-IsGlobal :
      (hostname : Text) (port : ℕ) (l : List Address)
      → validated_addresses web hostname port false ≡ ok l
      → All IsGlobal l
  unfolding validated_addresses
  validated_addresses-IsGlobal hostname port l h =
      elim (Option-cases (web.getaddrinfo hostname port)) [
        | inl e ↦ absurd (cc (rw (validated_addresses, e) at h))
        | inr (answers, e) ↦
            some_address-IsGlobal (distinct_addresses [] answers) l
              (rw (validated_addresses, e) at h)
      ]

  prepare-IsGlobal :
      (late : Bool) (s t : Sent)
      → limits.allow_private ≡ false
      → prepare web limits late s ≡ ok t
      → All IsGlobal t.addresses
  prepare-IsGlobal late s t strict h =
      validated_addresses-IsGlobal _ _ _ (rw strict at (prepare-ok late s t h).3)

  unfoldable pub AreGlobal : Sent → Type 0
  AreGlobal t = All IsGlobal t.addresses

  Run-global :
      (raising : Bool) (late : ℕ → Bool) (n : ℕ) (s : Sent) (r : Result Response) (log : List Sent)
      → limits.allow_private ≡ false
      → Run web limits raising late n s r log
      → All AreGlobal log
  unfolding AreGlobal
  Run-global raising late n s r log strict (refused m o e p) = tt
  Run-global raising late n s r log strict (failed m o t e p q) =
      (prepare-IsGlobal (late m) o t strict p, tt)
  Run-global raising late n s r log strict (ended m o t x y a p q) =
      (prepare-IsGlobal (late m) o t strict a.0, tt)
  Run-global raising late n s r log strict (ran_out o t x l a p) =
      (prepare-IsGlobal (late 0) o t strict a.0, tt)
  Run-global raising late n s r log strict (misled m o t x l e a p q) =
      (prepare-IsGlobal (late (suc m)) o t strict a.0, tt)
  Run-global raising late n s r log strict (went_on m o t x l origin next y log' a p led q run) =
      (prepare-IsGlobal (late m) o t strict a.0, Run-global raising late m next y log' strict run)

  Run-length :
      (raising : Bool) (late : ℕ → Bool) (n : ℕ) (s : Sent) (r : Result Response) (log : List Sent)
      → Run web limits raising late n s r log
      → length log ≤ n
  Run-length raising late n s r log (refused m o e p) = omega arith
  Run-length raising late n s r log (failed m o t e p q) = omega arith
  Run-length raising late n s r log (ended m o t x y a p q) = omega arith
  Run-length raising late n s r log (ran_out o t x l a p) = omega arith
  Run-length raising late n s r log (misled m o t x l e a p q) = omega arith
  Run-length raising late n s r log (went_on m o t x l origin next y log' a p led q run) =
      omega (arith, Run-length raising late m next y log' run)

  unfoldable pub IsShort : Result Response → Type 0
  IsShort (ok r) = length r.body ≤ limits.max_bytes
  IsShort (err e) = Unit

  body_of-short :
      (t : Sent) (a : Answer) (bytes : List ℕ)
      → (if t.method == codes "HEAD" then ok [] else or_stuck (read_limited limits.max_bytes a))
        ≡ ok bytes
      → length bytes ≤ limits.max_bytes
  body_of-short t a bytes h = elim (Bool-cases (t.method == codes "HEAD")) [
    | inl head ↦ ground (arith, ok-injective (rw head at h))
    | inr whole ↦
        body-short limits.max_bytes a _ bytes (read_limited-IsReading limits.max_bytes a)
          (rw whole at h)
  ]

  read_response-short :
      (t : Sent) (reply : Reply) (r : Response)
      → read_response web limits t reply ≡ ok r
      → length r.body ≤ limits.max_bytes
  unfolding read_response
  read_response-short t timed_out r h = absurd (cc)
  read_response-short t broken r h = absurd (cc)
  read_response-short t (answered a) r h =
      elim (Bool-cases (is_encoded web (fold_headers web a.headers []))) [
        | inl e ↦ absurd (cc (rw (read_response, e) at h))
        | inr e ↦
            let hs = fold_headers web a.headers [] in
            let body =
              if t.method == codes "HEAD"
              then ok []
              else or_stuck (read_limited limits.max_bytes a) in
            let (bytes, p, q) =
              after-body (check_length web limits.max_bytes hs) body
                (λ bytes. record { url = t.url; status = a.status; headers = hs; body = bytes }) r
                (rw (read_response, e) at h) in
            ground (arith, body_of-short t a bytes p, q)
      ]

  verdict-IsShort :
      (raising : Bool) (t : Sent) (reply : Reply) (r : Response) (result : Result Response)
      → read_response web limits t reply ≡ ok r
      → IsVerdict raising r result
      → IsShort result
  unfolding IsShort
  verdict-IsShort raising t reply r result q (inl (fine, e)) =
      rw e (read_response-short t reply r q)
  verdict-IsShort raising t reply r result q (inr (raised, bad, e)) = rw e tt

  Run-IsShort :
      (raising : Bool) (late : ℕ → Bool) (n : ℕ) (s : Sent) (r : Result Response) (log : List Sent)
      → Run web limits raising late n s r log
      → IsShort r
  unfolding IsShort
  Run-IsShort raising late n s r log (refused m o e p) = tt
  Run-IsShort raising late n s r log (failed m o t e p q) = tt
  Run-IsShort raising late n s r log (ended m o t x y a p verdict) =
      verdict-IsShort raising t (web.exchange m t) x y a.1 verdict
  Run-IsShort raising late n s r log (ran_out o t x l a p) = tt
  Run-IsShort raising late n s r log (misled m o t x l e a p q) = tt
  Run-IsShort raising late n s r log (went_on m o t x l origin next y log' a p led q run) =
      Run-IsShort raising late m next y log' run

-- Where private addresses are not allowed, every request goes to addresses that are all global, also
-- after redirects, whatever the names resolve to.
pub request-global :
    (web : Web) (limits : Limits) (user_agent : Text) (raising : Bool) (late : ℕ → Bool)
    (method url : Text) (headers : Dict Text Text) (body : Option (List ℕ))
    → limits.allow_private ≡ false
    → All
        (AreGlobal web limits)
        (request web limits user_agent raising late method url headers body).1
request-global web limits user_agent raising late method url headers body strict =
    elim (request-Run web limits user_agent raising late method url headers body) [
      | inl e ↦ rw e tt
      | inr run ↦ Run-global web limits raising late (suc limits.max_redirects) _ _ _ strict run
    ]

-- At most one request more than `max_redirects` is sent, and a body that is returned is within
-- `max_bytes`.
pub request-bounded :
    (web : Web) (limits : Limits) (user_agent : Text) (raising : Bool) (late : ℕ → Bool)
    (method url : Text) (headers : Dict Text Text) (body : Option (List ℕ))
    → let out = request web limits user_agent raising late method url headers body in
      (length out.1 ≤ suc limits.max_redirects) × IsShort web limits out.0
request-bounded web limits user_agent raising late method url headers body =
    elim (request-Run web limits user_agent raising late method url headers body) [
      | inl e ↦ rw e (omega arith, unfold IsShort in tt)
      | inr run ↦ (
        Run-length web limits raising late (suc limits.max_redirects) _ _ _ run,
        Run-IsShort web limits raising late (suc limits.max_redirects) _ _ _ run,
      )
    ]
