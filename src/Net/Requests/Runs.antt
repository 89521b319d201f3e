-- ===== src/Net/Requests/Runs.antt =====
-- util/http.py: what a run over the redirects is, written without the loop. `late i` says whether the
-- deadline is over where `i` redirects are left.
use py_burly_bot.Common.{
  ℕ, suc, ◌≤◌, ◌<◌, Bool, true, false, not, List, [], ◌∷◌, ◌++◌, none, some, Text, text_eq, lookup,
  select, contains, codes, ◌≡◌, ◌≢◌, ◌⊎◌,
}
use py_burly_bot.Net.Requests.{
  Origin, Sent, Response, Failure, status_error, http_error, Result, Web, Limits, ok, err,
  redirect_origin, prepare, read_response,
}

-- The statuses of a redirect.
abbrev pub IsRedirect : ℕ → Type 0
IsRedirect status =
    (status ≡ 301) ⊎ (status ≡ 302) ⊎ (status ≡ 303) ⊎ (status ≡ 307) ⊎ (status ≡ 308)

-- The response is a redirect that names where it leads.
abbrev pub LeadsTo : Response → Text → Type 0
LeadsTo r location =
    IsRedirect r.status × (lookup (codes "location") r.headers ≡ some location) × (location ≢ [])

-- The redirects after which the next request is a `GET`.
abbrev pub BecomesGet : ℕ → Text → Type 0
BecomesGet status method =
    (status ≡ 303) ⊎ (((status ≡ 301) ⊎ (status ≡ 302)) × (method ≡ codes "POST"))

-- The headers that must not go from one origin to another.
abbrev pub IsSecretTo : Origin → Origin → List Text → Type 0
IsSecretTo old new names =
    ((new ≡ old) × (names ≡ []))
    ⊎ ((new ≢ old) × (names ≡ codes "authorization" ∷ codes "cookie" ∷ []))

-- The method and the body of the next request, and the headers that went with the body.
abbrev pub IsTurned : ℕ → Sent → Sent → List Text → Type 0
IsTurned status t next names =
    (BecomesGet status t.method
      × (next.method ≡ codes "GET")
      × (next.body ≡ none)
      × (names ≡ codes "content-type" ∷ codes "content-length" ∷ []))
    ⊎ ((BecomesGet status t.method → ⊥)
        × (next.method ≡ t.method)
        × (next.body ≡ t.body)
        × (names ≡ []))

-- The response, or the error for its status where errors are raised for it.
abbrev pub IsVerdict : Bool → Response → Result Response → Type 0
IsVerdict raising r result =
    (((raising ≡ false) ⊎ ((200 ≤ r.status) × (r.status < 300))) × (result ≡ ok r))
    ⊎ ((raising ≡ true)
        × (((200 ≤ r.status) × (r.status < 300)) → ⊥)
        × (result ≡ err (status_error r)))

module _ (web : Web) where
  -- What a redirect of `t` with a status to a URL of an origin leaves for the next request.
  pub record IsNext (t : Sent) (o : Origin) (status : ℕ) (url : Text) (next : Sent) : Type 0 where
    pub goes_to : next.url ≡ url
    pub secret : List Text
    pub of_body : List Text
    pub is_secret : IsSecretTo t.origin o secret
    pub is_turned : IsTurned status t next of_body
    pub keeps :
        next.headers ≡ select (λ h. not (contains (web.casefold h.0) (secret ++ of_body))) t.headers

  module _ (limits : Limits) (raising : Bool) (late : ℕ → Bool) where
    -- The request is sent, and its response is within the limits.
    abbrev pub IsAnswered : ℕ → Sent → Sent → Response → Type 0
    IsAnswered n s t r =
        (prepare web limits (late n) s ≡ ok t)
        × (read_response web limits t (web.exchange n t) ≡ ok r)

    -- A run of at most `n` requests from what the last one left, with its result and the requests.
    pub data Run : ℕ → Sent → Result Response → List Sent → Type 0 where
      refused :
          (n : ℕ) (s : Sent) (e : Failure)
          → prepare web limits (late n) s ≡ err e
          → Run (suc n) s (err e) []
      failed :
          (n : ℕ) (s t : Sent) (e : Failure)
          → prepare web limits (late n) s ≡ ok t
          → read_response web limits t (web.exchange n t) ≡ err e
          → Run (suc n) s (err e) (t ∷ [])
      ended :
          (n : ℕ) (s t : Sent) (r : Response) (result : Result Response)
          → IsAnswered n s t r
          → ((location : Text) → LeadsTo r location → ⊥)
          → IsVerdict raising r result
          → Run (suc n) s result (t ∷ [])
      ran_out :
          (s t : Sent) (r : Response) (location : Text)
          → IsAnswered 0 s t r
          → LeadsTo r location
          → Run 1 s (err http_error) (t ∷ [])
      misled :
          (n : ℕ) (s t : Sent) (r : Response) (location : Text) (e : Failure)
          → IsAnswered (suc n) s t r
          → LeadsTo r location
          → redirect_origin web (web.urljoin t.url location) ≡ err e
          → Run (suc (suc n)) s (err e) (t ∷ [])
      went_on :
          (n : ℕ) (s t : Sent) (r : Response) (location : Text) (o : Origin) (next : Sent)
          (result : Result Response) (log : List Sent)
          → IsAnswered n s t r
          → LeadsTo r location
          → redirect_origin web (web.urljoin t.url location) ≡ ok o
          → IsNext t o r.status (web.urljoin t.url location) next
          → Run n next result log
          → Run (suc n) s result (t ∷ log)
