-- ===== src/Net/Requests/Secrets.antt =====
-- util/http.py: where the credentials of a request go.
use py_burly_bot.Common.{
  ℕ, suc, Bool, false, List, [], ◌∷◌, Option, Text, text_eq, Dict, select, contains, All, not, ◌++◌,
  ◌≢◌, ◌≡◌, refl, sym, ◌∙◌, arith, inl, inr, ◌⊎◌, Bool-cases,
}
use py_burly_bot.Net.Requests.{
  Origin, Sent, Response, Result, Web, Limits, ok, check_url, redirect_origin, prepare, request,
  secrets,
}
use py_burly_bot.Net.Requests.Runs.{IsNext, Run, refused, failed, ended, ran_out, misled, went_on}
use py_burly_bot.Net.Requests.Redirects.{request-Run, ok-injective}
use py_burly_bot.Net.Requests.Safety.{prepare-ok}

module _ (web : Web) (limits : Limits) where
  unfoldable pub HasNoSecrets : Dict Text Text → Type 0
  HasNoSecrets hs = All (λ h. contains (web.casefold h.0) secrets ≡ false) hs

  check_url-redirect_origin :
      (url : Text) (o : Origin) → check_url web url ≡ ok o → redirect_origin web url ≡ ok o
  unfolding check_url redirect_origin
  check_url-redirect_origin url o h = ground (arith, h)

  All-select :
      (P : Text × Text → Type 0) (p : Text × Text → Bool) (hs : Dict Text Text)
      → All P hs
      → All P (select p hs)
  unfolding select
  All-select P p [] h = tt
  All-select P p (x ∷ hs) h = elim (Bool-cases (p x)) [
    | inl e ↦ rw e (h.0, All-select P p hs h.1)
    | inr e ↦ rw e (All-select P p hs h.1)
  ]

  contains-before :
      (k : Text) (xs ys : List Text) → contains k (xs ++ ys) ≡ false → contains k xs ≡ false
  unfolding contains
  contains-before k [] ys h = refl
  contains-before k (x ∷ xs) ys h = ground (arith, h, contains-before k xs ys)

  select-HasNoSecrets :
      (names : List Text) (hs : Dict Text Text)
      → HasNoSecrets (select (λ h. not (contains (web.casefold h.0) (secrets ++ names))) hs)
  unfolding select HasNoSecrets
  select-HasNoSecrets names [] = tt
  select-HasNoSecrets names (x ∷ hs) =
      elim (Bool-cases (contains (web.casefold x.0) (secrets ++ names))) [
        | inl e ↦ rw (select, e) (select-HasNoSecrets names hs)
        | inr e ↦
            rw (select, e)
              (contains-before (web.casefold x.0) secrets names e, select-HasNoSecrets names hs)
      ]

  next-HasNoSecrets :
      (t : Sent) (o : Origin) (status : ℕ) (url : Text) (next : Sent)
      → IsNext web t o status url next
      → (o ≢ t.origin) ⊎ HasNoSecrets t.headers
      → HasNoSecrets next.headers
  unfolding HasNoSecrets
  next-HasNoSecrets t o status url next is (inr none) = rw is.keeps (All-select _ _ _ none)
  next-HasNoSecrets t o status url next is (inl apart) = elim is.is_secret [
    | inl (same, e) ↦ absurd (apart same)
    | inr (other, e) ↦ rw (is.keeps, e) (select-HasNoSecrets is.of_body t.headers)
  ]

  -- The origin is the first one's, or the headers hold no secret.
  unfoldable pub IsGuarded : Origin → Sent → Type 0
  IsGuarded o t = (t.origin ≡ o) ⊎ HasNoSecrets t.headers

  next-guarded :
      (o : Origin) (t : Sent) (new : Origin) (status : ℕ) (url : Text) (next : Sent)
      → IsNext web t new status url next
      → IsGuarded o t
      → (new ≡ o) ⊎ HasNoSecrets next.headers
  unfolding IsGuarded
  next-guarded o t new status url next is (inr h) =
      inr (next-HasNoSecrets t new status url next is (inr h))
  next-guarded o t new status url next is (inl h) = elim is.is_secret [
    | inl (same, e) ↦ inl (same ∙ h)
    | inr (apart, e) ↦ inr (next-HasNoSecrets t new status url next is (inl apart))
  ]

  prepare-IsGuarded :
      (o : Origin) (gone : Bool) (s t : Sent)
      → ((next : Origin) → check_url web s.url ≡ ok next → (next ≡ o) ⊎ HasNoSecrets s.headers)
      → prepare web limits gone s ≡ ok t
      → IsGuarded o t
  unfolding IsGuarded
  prepare-IsGuarded o gone s t h p =
      let (checked, headers, url, _) = prepare-ok web limits gone s t p in
      elim (h t.origin checked) [ inl e ↦ inl e | inr e ↦ inr (rw headers e) ]

  after_redirect :
      (o : Origin) (t : Sent) (new : Origin) (status : ℕ) (url : Text) (next : Sent)
      → IsNext web t new status url next
      → IsGuarded o t
      → redirect_origin web url ≡ ok new
      → (origin : Origin) → check_url web next.url ≡ ok origin
      → (origin ≡ o) ⊎ HasNoSecrets next.headers
  after_redirect o t new status url next is h led origin checked =
      let same : ok new ≡ ok origin =
        sym led ∙ check_url-redirect_origin url origin (rw is.goes_to at checked) in
      elim (next-guarded o t new status url next is h) [
        | inl e ↦ inl (sym (ok-injective same) ∙ e)
        | inr e ↦ inr e
      ]

  Run-IsGuarded :
      (o : Origin) (raising : Bool) (gone : ℕ → Bool) (n : ℕ) (s : Sent) (r : Result Response)
      (log : List Sent)
      → ((next : Origin) → check_url web s.url ≡ ok next → (next ≡ o) ⊎ HasNoSecrets s.headers)
      → Run web limits raising gone n s r log
      → All (IsGuarded o) log
  Run-IsGuarded o raising gone n s r log h (refused m _ e p) = tt
  Run-IsGuarded o raising gone n s r log h (failed m _ t e p q) =
      (prepare-IsGuarded o (gone m) s t h p, tt)
  Run-IsGuarded o raising gone n s r log h (ended m _ t x y a p q) =
      (prepare-IsGuarded o (gone m) s t h a.0, tt)
  Run-IsGuarded o raising gone n s r log h (ran_out _ t x l a p) =
      (prepare-IsGuarded o (gone 0) s t h a.0, tt)
  Run-IsGuarded o raising gone n s r log h (misled m _ t x l e a p q) =
      (prepare-IsGuarded o (gone (suc m)) s t h a.0, tt)
  Run-IsGuarded o raising gone n s r log h (went_on m _ t x l new next y more a p led is run) =
      let guarded = prepare-IsGuarded o (gone m) s t h a.0 in
      (
        guarded,
        Run-IsGuarded o raising gone m next y more
            (after_redirect o t new x.status _ next is guarded led) run,
      )

  -- After the first request, every one is to its origin or holds no secret.
  unfoldable pub AreGuarded : List Sent → Type 0
  unfolding IsGuarded
  AreGuarded [] = Unit
  AreGuarded (t ∷ more) = All (IsGuarded t.origin) more

  Run-AreGuarded :
      (raising : Bool) (gone : ℕ → Bool) (n : ℕ) (s : Sent) (r : Result Response) (log : List Sent)
      → Run web limits raising gone n s r log
      → AreGuarded log
  unfolding AreGuarded
  Run-AreGuarded raising gone n s r log (refused m _ e p) = tt
  Run-AreGuarded raising gone n s r log (failed m _ t e p q) = tt
  Run-AreGuarded raising gone n s r log (ended m _ t x y a p q) = tt
  Run-AreGuarded raising gone n s r log (ran_out _ t x l a p) = tt
  Run-AreGuarded raising gone n s r log (misled m _ t x l e a p q) = tt
  Run-AreGuarded raising gone n s r log (went_on m _ t x l new next y more a p led is run) =
      Run-IsGuarded t.origin raising gone m next y more
        (after_redirect t.origin t new x.status _ next is (unfold IsGuarded in inl refl) led) run

-- Every request after the first goes to the scheme, host and port of the first one or holds no
-- `Authorization` and no `Cookie` header, also where a later redirect leads back.
pub request-guarded :
    (web : Web) (limits : Limits) (user_agent : Text) (raising : Bool) (gone : ℕ → Bool)
    (method url : Text) (headers : Dict Text Text) (body : Option (List ℕ))
    → AreGuarded web limits (request web limits user_agent raising gone method url headers body).1
request-guarded web limits user_agent raising gone method url headers body =
    elim (request-Run web limits user_agent raising gone method url headers body) [
      | inl e ↦ rw e (unfold AreGuarded in tt)
      | inr run ↦ Run-AreGuarded web limits raising gone (suc limits.max_redirects) _ _ _ run
    ]
