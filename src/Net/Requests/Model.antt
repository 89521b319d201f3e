-- ===== src/Net/Requests/Model.antt =====
-- util/http.py: what a request is made of, and the reading of a body up to a limit.
use py_burly_bot.Common.{
  ℕ, zero, suc, ◌+◌, ◌-◌, ◌*◌, Bool, true, false, not, ◌&&◌, ◌||◌, List, [], ◌∷◌, ◌++◌, Option,
  none, some, Text, text_eq, ◌==◌, Dict, if◌then◌else◌, ltb, leb, nat_beq, length, take, drop, any,
  codes,
}

-- What `urlsplit` gives; `port` is nothing where reading it raises.
pub record Url : Type 0 where
  pub scheme : Text
  pub credentials : Bool
  pub hostname : Option Text
  pub port : Option (Option ℕ)

pub record Address : Type 0 where
  pub family : ℕ
  pub socket_type : ℕ
  pub protocol : ℕ
  pub ip : Text
  pub sockaddr_rest : List Text

pub record Origin : Type 0 where
  pub scheme : Text
  pub hostname : Text
  pub port : ℕ

-- One request that is sent, and the addresses that its connection may use.
pub record Sent : Type 0 where
  pub origin : Origin
  pub addresses : List Address
  pub method : Text
  pub url : Text
  pub headers : Dict Text Text
  pub body : Option (List ℕ)

pub data Length : Type 0 where
  no_number negative : Length
  size : ℕ → Length

-- What comes back: the status, the headers and the body, how much of it the `i`-th read finds, and the
-- `i`-th test of the deadline while it is read.
pub record Answer : Type 0 where
  pub status : ℕ
  pub headers : List (Text × Text)
  pub body : List ℕ
  pub found : ℕ → ℕ
  pub expired : ℕ → Bool

pub data Reply : Type 0 where
  answered : Answer → Reply
  timed_out broken : Reply

-- `Response`, without its reason phrase
pub record Response : Type 0 where
  pub url : Text
  pub status : ℕ
  pub headers : Dict Text Text
  pub body : List ℕ

pub data Failure : Type 0 where
  unsafe_address http_error timeout too_large host_header assertion : Failure
  status_error : Response → Failure

pub data Result {ℓ} (A : Type ℓ) : Type ℓ where
  ok : A → Result A
  err : Failure → Result A

-- What one round of the loop ends with.
pub data Round : Type 0 where
  over : Result Response → List Sent → Round
  moved : Sent → Sent → Round

infixl 5 ◌>>=◌
abbrev pub ◌>>=◌ {ℓ κ} : {A : Type ℓ} {B : Type κ} → Result A → (A → Result B) → Result B
ok a >>= f = f a
err e >>= f = err e

-- The libraries that the client stands on and the other side; `exchange i` sends a request when `i`
-- redirects are left.
pub record Web : Type 0 where
  pub urlsplit : Text → Url
  pub urljoin : Text → Text → Text
  pub idna : Text → Option Text
  pub casefold : Text → Text
  pub getaddrinfo : Text → ℕ → Option (List Address)
  pub is_global : Text → Bool
  pub content_length : Text → Length
  pub upper : Text → Text
  pub exchange : ℕ → Sent → Reply

-- `HTTPClient.__init__`, its limits
pub record Limits : Type 0 where
  pub max_bytes : ℕ
  pub max_redirects : ℕ
  pub allow_private : Bool

abbrev pub same_texts : List Text → List Text → Bool
same_texts [] [] = true
same_texts (x ∷ xs) (y ∷ ys) = x == y && same_texts xs ys
same_texts _ _ = false

abbrev pub same_address : Address → Address → Bool
same_address a b =
    nat_beq a.family b.family
    && nat_beq a.socket_type b.socket_type
    && nat_beq a.protocol b.protocol
    && a.ip == b.ip
    && same_texts a.sockaddr_rest b.sockaddr_rest

-- The loop of `_validated_addresses`: each address once, in order.
unfoldable pub distinct_addresses : List Address → List Address → List Address
distinct_addresses kept [] = kept
distinct_addresses kept (a ∷ answers) =
    distinct_addresses (if any (same_address a) kept then kept else kept ++ a ∷ []) answers

abbrev pub percent : ℕ
percent = 37

-- `address.ip.split("%", 1)[0]`
unfoldable pub without_zone : Text → Text
without_zone [] = []
without_zone (c ∷ cs) = let rest = without_zone cs in if nat_beq c percent then [] else c ∷ rest

abbrev pub http_port : Text → ℕ
http_port scheme = if scheme == codes "https" then 443 else 80

-- `port or default`
abbrev pub port_or : Option ℕ → ℕ → ℕ
port_or none d = d
port_or (some zero) d = d
port_or (some (suc p)) d = suc p

abbrev pub least : ℕ → ℕ → ℕ
least m n = if ltb m n then m else n

-- `_read_limited`, the `i`-th round; a read brings at least one byte where there is one
unfoldable pub read_loop : ℕ → ℕ → ℕ → Answer → List ℕ → List ℕ → Option (Result (List ℕ))
read_loop zero i limit a sofar rest = none
read_loop (suc fuel) i limit a sofar rest = elim (leb (length sofar) limit) [
  | false ↦ some (err too_large)
  | true ↦ elim (a.expired (2 * i)) [
    | true ↦ some (err timeout)
    | false ↦ elim rest [
      | [] ↦ some (ok sofar)
      | b ∷ bs ↦
          let n = least (least (a.found i) (64 * 1024 - 1)) (limit - length sofar) in
          elim (a.expired (2 * i + 1)) [
            | true ↦ some (err timeout)
            | false ↦ read_loop fuel (i + 1) limit a (sofar ++ b ∷ take n bs) (drop n bs)
          ]
    ]
  ]
]

abbrev pub read_limited : ℕ → Answer → Option (Result (List ℕ))
read_limited limit a = read_loop (suc (length a.body)) 0 limit a [] a.body

abbrev pub or_stuck : Option (Result (List ℕ)) → Result (List ℕ)
or_stuck none = err http_error
or_stuck (some r) = r

unfoldable pub is_redirect : ℕ → Bool
is_redirect status =
    nat_beq status 301
    || nat_beq status 302
    || nat_beq status 303
    || nat_beq status 307
    || nat_beq status 308

abbrev pub secrets : List Text
secrets = codes "authorization" ∷ codes "cookie" ∷ []

abbrev pub content_headers : List Text
content_headers = codes "content-type" ∷ codes "content-length" ∷ []

abbrev pub same_origin : Origin → Origin → Bool
same_origin a b = a.scheme == b.scheme && a.hostname == b.hostname && nat_beq a.port b.port

abbrev pub becomes_get : ℕ → Text → Bool
becomes_get status method =
    nat_beq status 303 || (nat_beq status 301 || nat_beq status 302) && method == codes "POST"

abbrev pub is_success : ℕ → Bool
is_success status = leb 200 status && ltb status 300

abbrev pub unmoved : Bool → Response → Result Response
unmoved raise_for_status r = if raise_for_status then err (status_error r) else ok r

abbrev pub final : Bool → Response → Result Response
final raise_for_status r =
    if raise_for_status && not (is_success r.status) then err (status_error r) else ok r
