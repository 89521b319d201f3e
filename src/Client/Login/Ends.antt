-- ===== src/Client/Login/Ends.antt =====
-- util/client.py: when the login ends.
use py_burly_bot.Common.{
  ℕ, suc, ◌+◌, Bool, true, false, ◌&&◌, List, [], ◌∷◌, ◌++◌, Option, Text, text_eq, ◌==◌, codes,
  ◌≡◌, refl, arith, inl, inr, Bool-cases, if◌then◌else◌, contains, text_beq, Option-cases, add, map,
}
use py_burly_bot.Client.Login.{
  Settings, Login, register, end_cap, fail_sasl, cap_end, listed, cap_ls_reply, cap_ack, cap_nak,
  irc_cap, irc_authenticate, LoginEvent, cap, challenge, success, already, failed, handle_login,
  run_login, sasl, names_of, send, send_all, ask_for, is_continued, intersection,
  identity_capabilities, payload_parts, acknowledged, authenticate, sasl_payload,
}

-- How many times a line is among those that are sent.
unfoldable pub times : Text → List Text → ℕ
times line [] = 0
times line (x ∷ xs) = let rest = times line xs in if x == line then suc rest else rest

times-append :
    (line : Text) (xs ys : List Text) → times line (xs ++ ys) ≡ times line xs + times line ys
unfolding times
times-append line [] ys = omega arith
times-append line (x ∷ xs) ys = ground (arith, times-append line xs ys)

pub times-contains : (line : Text) (xs : List Text) → times line xs ≡ 0 → contains line xs ≡ false
unfolding times contains
times-contains line [] h = refl
times-contains line (x ∷ xs) h = ground (arith, times-contains line xs, h)

-- `CAP END` has been sent once where the login has ended, and not before.
abbrev pub IsEnded : Login → Type 0
IsEnded s = times cap_end s.sent ≡ (if s.cap_ended then 1 else 0)

-- another line does not end it
send-IsEnded :
    (line : Text) (s : Login) → (line == cap_end) ≡ false → IsEnded s → IsEnded (send line s)
unfolding times
send-IsEnded line s other h = ground (arith, times-append cap_end s.sent (line ∷ []), other, h)

send_all-IsEnded :
    (parts : List Text) (s : Login)
    → IsEnded s
    → IsEnded (send_all (map (λ part. authenticate ++ part) parts) s)
unfolding text_beq
send_all-IsEnded [] s h = h
send_all-IsEnded (x ∷ parts) s h =
    send_all-IsEnded parts (send (authenticate ++ x) s) (send-IsEnded (authenticate ++ x) s refl h)

end_cap-IsEnded : (s : Login) → IsEnded s → IsEnded (end_cap s)
unfolding end_cap times text_beq
end_cap-IsEnded s h = elim (Bool-cases s.cap_ended) [
  | inl e ↦ ground (arith, e, h)
  | inr e ↦ ground (arith, times-append cap_end s.sent (cap_end ∷ []), e, h)
]

fail_sasl-IsEnded : (s : Login) → IsEnded s → IsEnded (fail_sasl s)
unfolding fail_sasl text_beq
fail_sasl-IsEnded s h = send-IsEnded (codes "QUIT :SASL authentication failed") s refl h

ask_for-IsEnded : (names : List Text) (s : Login) → IsEnded s → IsEnded (ask_for names s)
unfolding text_beq
ask_for-IsEnded [] s h = end_cap-IsEnded s h
ask_for-IsEnded (x ∷ xs) s h = send-IsEnded _ s refl h

register-IsEnded :
    (settings : Settings) (username : Option Text) (realname nickname hostname servername : Text)
    → IsEnded (register settings username realname nickname hostname servername)
unfolding register times text_beq
register-IsEnded settings username realname nickname hostname servername =
    elim (Option-cases settings.password) [ inl e ↦ rw e refl | inr (p, e) ↦ rw e refl ]

if-IsEnded : (b : Bool) (s t : Login) → IsEnded s → IsEnded t → IsEnded (if b then s else t)
if-IsEnded true s t h k = h
if-IsEnded false s t h k = k

cap_ack-IsEnded : (rest : List Text) (s : Login) → IsEnded s → IsEnded (cap_ack rest s)
unfolding cap_ack text_beq
cap_ack-IsEnded rest s h =
    if-IsEnded (contains sasl (names_of rest) && s.sasl_required) _ _
      (send-IsEnded (codes "AUTHENTICATE PLAIN") (acknowledged rest s) refl h)
      (end_cap-IsEnded (acknowledged rest s) h)

cap_nak-IsEnded : (rest : List Text) (s : Login) → IsEnded s → IsEnded (cap_nak rest s)
unfolding cap_nak
cap_nak-IsEnded rest s h =
    if-IsEnded (s.sasl_required && contains sasl (names_of rest)) _ _ (fail_sasl-IsEnded s h)
      (end_cap-IsEnded s h)

module _ (upper base64 : Text → Text) (settings : Settings) where
  listed-IsEnded : (s : Login) → IsEnded s → IsEnded (listed upper base64 settings s)
  unfolding listed
  listed-IsEnded s h = ground (
    arith,
    fail_sasl-IsEnded s h,
    ask_for-IsEnded (intersection s.cap_ls identity_capabilities) s h,
    ask_for-IsEnded (add sasl (intersection s.cap_ls identity_capabilities)) s h,
  )

  cap_ls_reply-IsEnded :
      (rest : List Text) (s : Login)
      → IsEnded s
      → IsEnded (cap_ls_reply upper base64 settings rest s)
  unfolding cap_ls_reply
  cap_ls_reply-IsEnded rest s h = if-IsEnded (is_continued rest) _ _ h (listed-IsEnded _ h)

  irc_cap-IsEnded :
      (params : List Text) (s : Login)
      → IsEnded s
      → IsEnded (irc_cap upper base64 settings params s)
  unfolding irc_cap
  irc_cap-IsEnded [] s h = h
  irc_cap-IsEnded (x ∷ []) s h = h
  irc_cap-IsEnded (x ∷ command ∷ rest) s h =
      if-IsEnded (upper command == codes "LS") _ _ (cap_ls_reply-IsEnded rest s h) (
        if-IsEnded (upper command == codes "ACK") _ _ (cap_ack-IsEnded rest s h)
          (if-IsEnded (upper command == codes "NAK") _ _ (cap_nak-IsEnded rest s h) h))

  handle_login-IsEnded :
      (e : LoginEvent) (s : Login) → IsEnded s → IsEnded (handle_login upper base64 settings e s)
  unfolding handle_login irc_authenticate
  handle_login-IsEnded (cap params) s h = irc_cap-IsEnded params s h
  handle_login-IsEnded (challenge []) s h = h
  handle_login-IsEnded (challenge (p ∷ params)) s h =
      ground (arith, send_all-IsEnded (payload_parts (sasl_payload upper base64 settings)) s h, h)
  handle_login-IsEnded success s h = end_cap-IsEnded s h
  handle_login-IsEnded already s h = end_cap-IsEnded s h
  handle_login-IsEnded failed s h = fail_sasl-IsEnded s h

  run_login-IsEnded :
      (events : List LoginEvent) (s : Login)
      → IsEnded s
      → IsEnded (run_login upper base64 settings events s)
  unfolding run_login
  run_login-IsEnded [] s h = h
  run_login-IsEnded (e ∷ events) s h =
      run_login-IsEnded events (handle_login upper base64 settings e s) (handle_login-IsEnded e s h)

-- Whatever the server says after `register`, `CAP END` is sent once at most, and the protocol has
-- ended the negotiation exactly where it was sent.
pub run_register-IsEnded :
    (upper base64 : Text → Text) (settings : Settings) (username : Option Text)
    (realname nickname hostname servername : Text) (events : List LoginEvent)
    → let s =
        run_login upper base64 settings events
          (register settings username realname nickname hostname servername) in
      times cap_end s.sent ≡ (if s.cap_ended then 1 else 0)
run_register-IsEnded upper base64 settings username realname nickname hostname servername events =
    run_login-IsEnded upper base64 settings events _
      (register-IsEnded settings username realname nickname hostname servername)
