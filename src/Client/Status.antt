-- ===== src/Client/Status.antt =====
-- util/client.py: the NickServ STATUS lookups that stand in for account capabilities. A Deferred is
-- a number, and `fired` holds the answers that were given, in order. Times are ticks with `second`
-- ticks to the second; `is_digit` is `str.isdigit`, `to_int` is `int`, `fold` is `str.casefold`.
pub mod Answers
use py_burly_bot.Common.{
  ℕ, suc, ◌+◌, ◌*◌, Bool, true, false, List, [], ◌∷◌, ◌++◌, Option, none, some, Text, text_eq, ◌==◌,
  codes, Dict, lookup, insert, erase, contains, add, discard, if◌then◌else◌, ltb, leb, not, map,
}
use py_burly_bot.State.Membership.{truthy}
use py_burly_bot.Dispatch.Commands.{is_space}
use py_burly_bot.Client.Masks.{Hostmask, process_hostmask, irc_casefold}

pub record Status : Type 0 where
  pub cache : Dict Text (ℕ × Option Text)
  pub pending : Dict Text (List ℕ)
  pub timeouts : List Text
  pub sent : List Text
  pub fired : List (ℕ × Option Text)
  pub created : ℕ

abbrev pub no_status : Status
no_status = record { cache = []; pending = []; timeouts = []; sent = []; fired = []; created = 0 }

abbrev pub flush : Text → List Text → List Text
flush [] rest = rest
flush (c ∷ cs) rest = (c ∷ cs) ∷ rest

-- `str.split()`, with the word that has been read so far
unfoldable pub split_words : Text → Text → List Text
split_words word [] = flush word []
split_words word (c ∷ cs) = elim (is_space c) [
  | true ↦ flush word (split_words [] cs)
  | false ↦ split_words (word ++ c ∷ []) cs
]

abbrev pub list_or_none : Option (List ℕ) → List ℕ
list_or_none none = []
list_or_none (some ds) = ds

-- a cached answer that has not expired
abbrev pub valid : ℕ → Option (ℕ × Option Text) → Option (Option Text)
valid now none = none
valid now (some (until, account)) = if ltb now until then some account else none

abbrev pub keys_of : Dict Text (List ℕ) → List Text
keys_of = map (λ e. e.0)

module _ (second : ℕ) (lower fold upper : Text → Text) (is_digit : Text → Bool)
    (to_int : Text → Option ℕ) where
  -- A Deferred is put under its key; the first one asks NickServ and starts the timer.
  abbrev pub wait_for : Text → Text → Status → Status
  wait_for nick key s = elim (lookup key s.pending) [
    | some ds ↦ record s {
      pending = insert key (ds ++ s.created ∷ []) s.pending;
      created = suc s.created;
    }
    | none ↦ record s {
      pending = insert key (s.created ∷ []) s.pending;
      timeouts = add key s.timeouts;
      sent = s.sent ++ (codes "PRIVMSG NickServ :STATUS " ++ nick) ∷ [];
      created = suc s.created;
    }
  ]

  -- `resolveLegacyAccount`; the Deferred that it returns is numbered `created`
  unfoldable pub resolve_legacy_account : Text → ℕ → Status → Status
  unfolding irc_casefold
  resolve_legacy_account nick now s =
      let key = irc_casefold lower nick in
      elim (valid now (lookup key s.cache)) [
        | some account ↦ record s {
          fired = s.fired ++ (s.created, account) ∷ [];
          created = suc s.created;
        }
        | none ↦ wait_for nick key s
      ]

  abbrev pub ttl : Option Text → ℕ
  ttl account = if truthy account then 60 * second else 5 * second

  -- `_finishLegacyStatus`
  unfoldable pub finish_legacy_status : ℕ → Text → Option Text → Bool → Status → Status
  finish_legacy_status now key account cache_result s = record s {
    timeouts = discard key s.timeouts;
    cache = if cache_result then insert key (now + ttl account, account) s.cache else s.cache;
    pending = erase key s.pending;
    fired = s.fired ++ map (λ d. (d, account)) (list_or_none (lookup key s.pending));
  }

  -- `_legacyStatusTimeout`
  unfoldable pub legacy_status_timeout : ℕ → Text → Status → Status
  unfolding finish_legacy_status
  legacy_status_timeout now key s =
      finish_legacy_status now key none false (record s { timeouts = discard key s.timeouts })

  unfoldable pub abandon_all : ℕ → List Text → Status → Status
  unfolding finish_legacy_status
  abandon_all now [] s = s
  abandon_all now (key ∷ keys) s = abandon_all now keys (finish_legacy_status now key none false s)

  -- `_abandonLegacyStatus`
  unfoldable pub abandon_legacy_status : ℕ → Status → Status
  unfolding abandon_all
  abandon_legacy_status now s = abandon_all now (keys_of s.pending) s

  -- The reply `STATUS <nick> <level>`; nothing is the `ValueError` of `int`.
  abbrev pub take_level : ℕ → Text → Option ℕ → Status → Option Status
  take_level now nick none s = none
  take_level now nick (some level) s = some (
      finish_legacy_status now (irc_casefold lower nick) (if leb 3 level then some nick else none)
        true s)

  abbrev pub take_words : ℕ → List Text → Status → Option Status
  take_words now (word ∷ nick ∷ level ∷ rest) s =
      if not (upper word == codes "STATUS")
      then some s
      else if not (is_digit level)
      then some s
      else take_level now nick (to_int level) s
  take_words now _ s = some s

  -- `_handleLegacyStatusReply`
  unfoldable pub handle_legacy_status_reply : Text → Text → ℕ → Status → Option Status
  unfolding finish_legacy_status irc_casefold split_words process_hostmask
  handle_legacy_status_reply prefix message now s = elim (process_hostmask prefix) [
    | none ↦ some s
    | some w ↦
        if fold w.nick == codes "nickserv"
        then take_words now (split_words [] message) s
        else some s
  ]
