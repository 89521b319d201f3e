-- ===== src/Net/Requests.antt =====
-- util/http.py: `HTTPClient.request` with its redirects, and the check of the addresses that a name
-- resolves to.
mod Model
pub mod Reading
pub mod Runs
pub mod Next
pub mod Redirects
pub mod Safety
pub mod Secrets
unfoldable pub use Model.*
use py_burly_bot.Common.{
  ℕ, zero, suc, ◌+◌, ◌-◌, ◌*◌, ◌≤◌, Bool, true, false, not, ◌&&◌, ◌||◌, List, [], ◌∷◌, ◌++◌, Option,
  none, some, Text, text_eq, ◌==◌, Dict, lookup, insert, merge, if◌then◌else◌, ltb, leb, nat_beq,
  length, take, drop, any, select, contains, codes, ◌≡◌,
}

module _ (web : Web) where
  abbrev pub is_unsafe : Address → Bool
  is_unsafe a = not (web.is_global (without_zone a.ip))

  abbrev pub some_address : List Address → Bool → Result (List Address)
  some_address [] allow_private = err http_error
  some_address (a ∷ more) allow_private =
      if any is_unsafe (a ∷ more) && not allow_private then err unsafe_address else ok (a ∷ more)

  -- `_validated_addresses`
  unfoldable pub validated_addresses : Text → ℕ → Bool → Result (List Address)
  unfolding distinct_addresses without_zone
  validated_addresses hostname port allow_private = elim (web.getaddrinfo hostname port) [
    | none ↦ err http_error
    | some answers ↦ some_address (distinct_addresses [] answers) allow_private
  ]

  -- `hostname.encode("idna")` and the port, whose errors are `HTTPError`
  abbrev pub authority : Text → Url → Text → Result Origin
  authority scheme u h = elim (web.idna h) [
    | none ↦ err http_error
    | some hostname ↦ elim u.port [
      | none ↦ err http_error
      | some port ↦
          ok (record {
            scheme = scheme;
            hostname = hostname;
            port = port_or port (http_port scheme);
          })
    ]
  ]

  -- The checks of a URL at the head of the loop.
  unfoldable pub check_url : Text → Result Origin
  check_url url =
      let u = web.urlsplit url in
      let scheme = web.casefold u.scheme in
      if not (scheme == codes "http" || scheme == codes "https")
      then err unsafe_address
      else if u.credentials
      then err unsafe_address
      else elim u.hostname [
        | none ↦ err http_error
        | some [] ↦ err http_error
        | some (c ∷ cs) ↦ authority scheme u (c ∷ cs)
      ]

  -- `next_origin`; a URL without a host has the empty one
  unfoldable pub redirect_origin : Text → Result Origin
  redirect_origin url =
      let u = web.urlsplit url in
      let scheme = web.casefold u.scheme in
      elim u.hostname [
        | some (c ∷ cs) ↦ authority scheme u (c ∷ cs)
        | _ ↦ elim u.port [
          | none ↦ err http_error
          | some port ↦
              ok (record { scheme = scheme; hostname = []; port = port_or port (http_port scheme) })
        ]
      ]

  abbrev pub fold_headers : List (Text × Text) → Dict Text Text → Dict Text Text
  fold_headers [] d = d
  fold_headers ((name, value) ∷ hs) d = fold_headers hs (insert (web.casefold name) value d)

  abbrev pub is_encoded : Dict Text Text → Bool
  is_encoded hs = elim (lookup (codes "content-encoding") hs) [
    | none ↦ false
    | some e ↦ not (web.casefold e == [] || web.casefold e == codes "identity")
  ]

  abbrev pub check_length : ℕ → Dict Text Text → Result {0} Unit
  check_length limit hs = elim (lookup (codes "content-length") hs) [
    | none ↦ ok tt
    | some declared ↦ elim (web.content_length declared) [
      | no_number ↦ err http_error
      | negative ↦ err http_error
      | size n ↦ if ltb limit n then err too_large else ok tt
    ]
  ]

  -- The response of one exchange, within the limits.
  unfoldable pub read_response : Limits → Sent → Reply → Result Response
  unfolding read_loop
  read_response limits sent timed_out = err timeout
  read_response limits sent broken = err http_error
  read_response limits sent (answered a) =
      let hs = fold_headers a.headers [] in
      if is_encoded hs
      then err http_error
      else check_length limits.max_bytes hs >>= λ _.
          (if sent.method == codes "HEAD"
            then ok []
            else or_stuck (read_limited limits.max_bytes a))
          >>= λ bytes. ok (record { url = sent.url; status = a.status; headers = hs; body = bytes })

  -- `{... if key.casefold() not in names}`
  abbrev pub without_headers : List Text → Dict Text Text → Dict Text Text
  without_headers names = select (λ h. not (contains (web.casefold h.0) names))

  -- What is left of the request for the next URL.
  unfoldable pub redirected : Origin → Origin → ℕ → Text → Sent → Sent
  redirected old new status url s =
      let hs = if same_origin new old then s.headers else without_headers secrets s.headers in
      if becomes_get status s.method
      then record s {
        url = url;
        method = codes "GET";
        body = none;
        headers = without_headers content_headers hs;
      }
      else record s { url = url; headers = hs }

  -- The request of one round with its origin and addresses, or why there is none.
  unfoldable pub prepare : Limits → Bool → Sent → Result Sent
  unfolding check_url validated_addresses
  prepare limits late s = check_url s.url >>= λ o.
      (if late
        then err timeout
        else validated_addresses o.hostname o.port limits.allow_private >>= λ addresses.
            ok (record s { origin = o; addresses = addresses }))

  -- What the status and the headers of a response say; `last` is `redirect_count == max_redirects`.
  unfoldable pub follow : Bool → Bool → Sent → Response → Round
  unfolding is_redirect redirect_origin redirected
  follow last raise_for_status sent r = elim (is_redirect r.status) [
    | false ↦ over (final raise_for_status r) (sent ∷ [])
    | true ↦ elim (lookup (codes "location") r.headers) [
      | none ↦ over (unmoved raise_for_status r) (sent ∷ [])
      | some [] ↦ over (unmoved raise_for_status r) (sent ∷ [])
      | some (c ∷ cs) ↦ elim last [
        | true ↦ over (err http_error) (sent ∷ [])
        | false ↦
            let next_url = web.urljoin sent.url (c ∷ cs) in
            elim (redirect_origin next_url) [
              | err e ↦ over (err e) (sent ∷ [])
              | ok o ↦ moved sent (redirected sent.origin o r.status next_url sent)
            ]
      ]
    ]
  ]

  -- One round of the loop over the redirects. The `Sent` that comes in holds what the request takes
  -- from the last one.
  unfoldable pub round : ℕ → Limits → Bool → (ℕ → Bool) → Sent → Round
  unfolding prepare read_response follow
  round left limits raise_for_status late s = elim (prepare limits (late left) s) [
    | err e ↦ over (err e) []
    | ok sent ↦ elim (read_response limits sent (web.exchange left sent)) [
      | err e ↦ over (err e) (sent ∷ [])
      | ok r ↦ follow (nat_beq left 0) raise_for_status sent r
    ]
  ]

  -- The loop: the result, and the requests that are sent, in order.
  unfoldable pub request_loop : ℕ → Limits → Bool → (ℕ → Bool) → Sent → Result Response × List Sent
  unfolding round
  request_loop zero limits raise_for_status late s = (err assertion, [])
  request_loop (suc left) limits raise_for_status late s =
      elim (round left limits raise_for_status late s) [
        | over r log ↦ (r, log)
        | moved sent next ↦
            let rest = request_loop left limits raise_for_status late next in
            (rest.0, sent ∷ rest.1)
      ]

  -- The method, the headers and the body of the first request.
  abbrev pub first : Text → Text → Text → Dict Text Text → Option (List ℕ) → Sent
  first user_agent method url headers body = record {
    origin = record { scheme = []; hostname = []; port = 0 };
    addresses = [];
    method = web.upper method;
    url = url;
    headers =
        merge headers
          ((codes "Accept-Encoding", codes "identity") ∷ (codes "User-Agent", user_agent) ∷ []);
    body = body;
  }

  -- `HTTPClient.request`
  unfoldable pub request :
      Limits
      → Text
      → Bool
      → (ℕ → Bool)
      → Text
      → Text
      → Dict Text Text
      → Option (List ℕ)
      → Result Response × List Sent
  unfolding request_loop
  request limits user_agent raise_for_status late method url headers body =
      let s = first user_agent method url headers body in
      if any (λ h. web.casefold h.0 == codes "host") s.headers
      then (err host_header, [])
      else request_loop (suc limits.max_redirects) limits raise_for_status late s
