-- ===== src/Client/Login.antt =====
-- util/client.py: the login of the protocol instance: `register`, the negotiation of capabilities and
-- SASL. `sent` holds the lines of `_reallySendLine`, `base64` is `b64encode` of the UTF-8 bytes.
mod Model
pub mod Ends
pub mod Payload
pub mod Required
unfoldable pub use Model.*
use py_burly_bot.Common.{
  ℕ, zero, suc, ◌+◌, ◌/◌, ◌%◌, Bool, true, false, not, ◌&&◌, ◌||◌, List, [], ◌∷◌, ◌++◌, Option,
  none, some, Text, text_eq, ◌==◌, codes, Dict, lookup, insert, contains, add, select,
  if◌then◌else◌, ltb, nat_beq, length, take, drop, map, lstrip, sort_texts, split_on, join_with,
}
use py_burly_bot.Client.Masks.{split_at, equals}
use py_burly_bot.Client.Status.{split_words}

module _ (upper base64 : Text → Text) (settings : Settings) where
  -- `mechanisms and "PLAIN" not in mechanisms.upper().split(",")`
  abbrev pub lacks_plain : Option (Option Text) → Bool
  lacks_plain (some (some (c ∷ cs))) =
      not (contains (codes "PLAIN") (split_on comma [] (upper (c ∷ cs))))
  lacks_plain _ = false

  -- The end of a list of capabilities.
  unfoldable pub listed : Login → Login
  unfolding end_cap fail_sasl split_on join_with
  listed s =
      let desired = intersection s.cap_ls identity_capabilities in
      if not s.sasl_required
      then ask_for desired s
      else if not (contains sasl s.cap_ls)
      then fail_sasl s
      else if lacks_plain (lookup sasl s.cap_values)
      then fail_sasl s
      else ask_for (add sasl desired) s

  -- The subcommands of `irc_CAP`; `rest` is `params[2:]`.
  unfoldable pub cap_ls_reply : List Text → Login → Login
  unfolding listed items_of
  cap_ls_reply rest s =
      let t = record s {
        cap_ls = add_each (names_of rest) s.cap_ls;
        cap_values = store_values (items_of rest) s.cap_values;
      } in
      if is_continued rest then t else listed t

  -- `irc_CAP`
  unfoldable pub irc_cap : List Text → Login → Login
  unfolding cap_ls_reply cap_ack cap_nak
  irc_cap (target ∷ command ∷ rest) s =
      let subcommand = upper command in
      if subcommand == codes "LS"
      then cap_ls_reply rest s
      else if subcommand == codes "ACK"
      then cap_ack rest s
      else if subcommand == codes "NAK"
      then cap_nak rest s
      else s
  irc_cap _ s = s

  unfoldable pub sasl_payload : Text
  sasl_payload = base64 (
      or_blank settings.sasl_authzid
      ++ nul ∷ shown settings.sasl_username
      ++ nul ∷ shown settings.sasl_password)

  -- `irc_AUTHENTICATE`
  unfoldable pub irc_authenticate : List Text → Login → Login
  unfolding payload_parts sasl_payload
  irc_authenticate [] s = s
  irc_authenticate (p ∷ params) s =
      if not (p == codes "+") || s.payload_sent
      then s
      else record (send_all (map (λ part. authenticate ++ part) (payload_parts sasl_payload)) s) {
        payload_sent = true;
      }

  -- The handlers: `irc_ERR_SASLFAIL` is also the one of `SASLTOOLONG` and `SASLABORTED`.
  unfoldable pub handle_login : LoginEvent → Login → Login
  unfolding irc_cap irc_authenticate end_cap fail_sasl
  handle_login (cap params) s = irc_cap params s
  handle_login (challenge params) s = irc_authenticate params s
  handle_login success s = end_cap s
  handle_login already s = end_cap s
  handle_login failed s = fail_sasl s

  unfoldable pub run_login : List LoginEvent → Login → Login
  unfolding handle_login
  run_login [] s = s
  run_login (e ∷ events) s = run_login events (handle_login e s)
