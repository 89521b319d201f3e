-- ===== src/Client/Login/Model.antt =====
-- util/client.py: the state of a login, its lines, and the handlers that no argument reaches.
use py_burly_bot.Common.{
  ℕ, zero, suc, ◌+◌, ◌/◌, ◌%◌, Bool, true, false, ◌&&◌, List, [], ◌∷◌, ◌++◌, Option, none, some,
  Text, text_eq, ◌==◌, codes, Dict, insert, contains, add, select, if◌then◌else◌, nat_beq, length,
  take, drop, map, lstrip, sort_texts, join_with,
}
use py_burly_bot.Client.Masks.{split_at, equals}
use py_burly_bot.Client.Status.{split_words}

pub record Settings : Type 0 where
  pub sasl_username : Option Text
  pub sasl_password : Option Text
  pub sasl_authzid : Option Text
  pub password : Option Text

pub record Login : Type 0 where
  pub sasl_required : Bool
  pub capabilities : List Text
  pub cap_ls : List Text
  pub cap_values : Dict Text (Option Text)
  pub cap_ended : Bool
  pub payload_sent : Bool
  pub legacy_lookup : Bool
  pub attempted_nick : Text
  pub username : Text
  pub closed : Bool
  pub sent : List Text

abbrev pub truth : Option Text → Bool
truth none = false
truth (some []) = false
truth (some (c ∷ cs)) = true

-- `"%s" % value`
abbrev pub shown : Option Text → Text
shown none = codes "None"
shown (some t) = t

-- `value or ""`
abbrev pub or_blank : Option Text → Text
or_blank none = []
or_blank (some t) = t

abbrev pub send : Text → Login → Login
send line s = record s { sent = s.sent ++ line ∷ [] }

abbrev pub send_all : List Text → Login → Login
send_all [] s = s
send_all (line ∷ lines) s = send_all lines (send line s)

abbrev pub cap_end : Text
cap_end = codes "CAP END"

-- The lines of `register`, whose `PASS` is for a server password.
abbrev pub pass_lines : Option Text → List Text
pass_lines none = []
pass_lines (some p) = (codes "PASS " ++ p) ∷ []

unfoldable pub register : Settings → Option Text → Text → Text → Text → Text → Login
register settings username realname nickname hostname servername =
    let user : Text = elim username [ none ↦ nickname | some u ↦ u ] in
    record {
      sasl_required = truth settings.sasl_username && truth settings.sasl_password;
      capabilities = [];
      cap_ls = [];
      cap_values = [];
      cap_ended = false;
      payload_sent = false;
      legacy_lookup = false;
      attempted_nick = nickname;
      username = user;
      closed = false;
      sent =
          codes "CAP LS 302"
          ∷ (pass_lines settings.password
              ++ ((codes "NICK " ++ nickname)
                  ∷ (codes "USER "
                      ++ user
                      ++ codes " "
                      ++ hostname
                      ++ codes " "
                      ++ servername
                      ++ codes " :"
                      ++ realname)
                  ∷ []));
    }

abbrev pub identity_capabilities : List Text
identity_capabilities = codes "account-notify" ∷ codes "account-tag" ∷ codes "extended-join" ∷ []

abbrev pub sasl : Text
sasl = codes "sasl"

abbrev pub has_none {ℓ} : {A : Type ℓ} → List A → Bool
has_none [] = true
has_none (x ∷ xs) = false

-- `a.intersection(b)`
abbrev pub intersection : List Text → List Text → List Text
intersection a b = select (λ x. contains x a) b

-- `_end_cap`
unfoldable pub end_cap : Login → Login
end_cap s =
    if s.cap_ended
    then s
    else send cap_end (record s {
      cap_ended = true;
      legacy_lookup =
          if has_none (intersection s.capabilities identity_capabilities)
          then true
          else s.legacy_lookup;
    })

-- `_fail_sasl`
unfoldable pub fail_sasl : Login → Login
fail_sasl s = record (send (codes "QUIT :SASL authentication failed") s) { closed = true }

-- `item.partition("=")`, with the value where the separator is there
abbrev pub capability : Text → Text × Option Text
capability item = elim (split_at equals item) [
  | none ↦ (item, none)
  | some (name, value) ↦ (name, some value)
]

abbrev pub add_each : List Text → List Text → List Text
add_each [] xs = xs
add_each (y ∷ ys) xs = add_each ys (add y xs)

abbrev pub store_values : List Text → Dict Text (Option Text) → Dict Text (Option Text)
store_values [] d = d
store_values (item ∷ items) d =
    let (name, value) = capability item in store_values items (insert name value d)

abbrev pub comma : ℕ
comma = 44

-- `params[-1]`
abbrev pub last_of : Text → List Text → Text
last_of x [] = x
last_of x (y ∷ ys) = last_of y ys

-- The items that a CAP message names, from its third parameter on.
abbrev pub capability_text : List Text → Text
capability_text [] = []
capability_text (x ∷ xs) = last_of x xs

abbrev pub dash : Text
dash = codes "-"

unfoldable pub items_of : List Text → List Text
unfolding split_words
items_of rest = map (lstrip dash) (split_words [] (capability_text rest))

abbrev pub names_of : List Text → List Text
names_of rest = map (λ item. (capability item).0) (items_of rest)

-- `len(params) > 2 and params[2] == "*"`
abbrev pub is_continued : List Text → Bool
is_continued [] = false
is_continued (x ∷ xs) = x == codes "*"

-- `if desired: ... else: self._end_cap()`
abbrev pub ask_for : List Text → Login → Login
ask_for [] s = end_cap s
ask_for (x ∷ xs) s = send (codes "CAP REQ :" ++ join_with (codes " ") (sort_texts (x ∷ xs))) s

-- `payload[offset : offset + 400] for offset in range(0, len(payload), 400)`
unfoldable pub chunks : ℕ → Text → List Text
chunks zero payload = []
chunks (suc k) payload = take 400 payload ∷ chunks k (drop 400 payload)

abbrev pub authenticate : Text
authenticate = codes "AUTHENTICATE "

-- What the lines of a payload say behind the command.
unfoldable pub payload_parts : Text → List Text
unfolding chunks
payload_parts payload =
    chunks ((length payload + 399) / 400) payload
    ++ (if nat_beq (length payload % 400) 0 then codes "+" ∷ [] else [])

abbrev pub nul : ℕ
nul = 0

abbrev pub acknowledged : List Text → Login → Login
acknowledged rest s = record s { capabilities = add_each (names_of rest) s.capabilities }

unfoldable pub cap_ack : List Text → Login → Login
unfolding end_cap items_of
cap_ack rest s =
    let t = acknowledged rest s in
    if contains sasl (names_of rest) && s.sasl_required
    then send (codes "AUTHENTICATE PLAIN") t
    else end_cap t

unfoldable pub cap_nak : List Text → Login → Login
unfolding end_cap fail_sasl items_of
cap_nak rest s = if s.sasl_required && contains sasl (names_of rest) then fail_sasl s else end_cap s

-- What the server says during the login.
pub data LoginEvent : Type 0 where
  cap : List Text → LoginEvent
  challenge : List Text → LoginEvent
  success already : LoginEvent
  failed : LoginEvent
