-- ===== src/Client/Login/Required.antt =====
-- util/client.py: SASL that the settings ask for.
use py_burly_bot.Common.{
  Bool, true, false, not, ◌&&◌, ◌||◌, List, [], ◌∷◌, ◌++◌, Option, Text, text_eq, ◌==◌, codes,
  eq_iff, contains-add, ◌≡◌, refl, ap, ◌∙◌, arith, if◌then◌else◌, contains, All, lookup, add, map,
}
use py_burly_bot.Client.Login.{
  Settings, Login, register, fail_sasl, listed, cap_ls_reply, cap_ack, cap_nak, irc_cap,
  irc_authenticate, LoginEvent, cap, challenge, success, already, failed, handle_login, run_login,
  sasl, names_of, send, send_all, ask_for, is_continued, intersection, identity_capabilities,
  payload_parts, authenticate, sasl_payload, truth, cap_end, lacks_plain, cap_end,
}
use py_burly_bot.Client.Login.Ends.{times-contains, run_register-IsEnded}

-- The login waits for SASL.
abbrev pub IsWaiting : Login → Type 0
IsWaiting s = (s.sasl_required ≡ true) × (s.cap_ended ≡ false)

if-IsWaiting :
    (b : Bool) (s t : Login)
    → (b ≡ true → IsWaiting s)
    → (b ≡ false → IsWaiting t)
    → IsWaiting (if b then s else t)
if-IsWaiting true s t h k = h refl
if-IsWaiting false s t h k = k refl

fail_sasl-IsWaiting : (s : Login) → IsWaiting s → IsWaiting (fail_sasl s)
unfolding fail_sasl
fail_sasl-IsWaiting s h = h

send_all-IsWaiting :
    (parts : List Text) (s : Login)
    → IsWaiting s
    → IsWaiting (send_all (map (λ part. authenticate ++ part) parts) s)
send_all-IsWaiting [] s h = h
send_all-IsWaiting (x ∷ parts) s h = send_all-IsWaiting parts (send (authenticate ++ x) s) h

ask_for-IsWaiting :
    (names : List Text) (s : Login)
    → contains sasl names ≡ true
    → IsWaiting s
    → IsWaiting (ask_for names s)
unfolding contains
ask_for-IsWaiting [] s c h = absurd (cc)
ask_for-IsWaiting (x ∷ xs) s c h = h

-- Neither a success of SASL nor an answer to the request that leaves `sasl` out.
module _ (upper : Text → Text) where
  abbrev pub is_about_sasl : List Text → Bool
  is_about_sasl (x ∷ command ∷ rest) =
      contains sasl (names_of rest)
      || not (upper command == codes "ACK" || upper command == codes "NAK")
  is_about_sasl _ = true

  abbrev pub IsUnsettled : LoginEvent → Type 0
  IsUnsettled (cap params) = is_about_sasl params ≡ true
  IsUnsettled (challenge params) = Unit
  IsUnsettled success = ⊥
  IsUnsettled already = ⊥
  IsUnsettled failed = Unit

module _ (upper base64 : Text → Text) (settings : Settings) where
  sasl_added : (names : List Text) → contains sasl (add sasl names) ≡ true
  sasl_added names = ground (arith, contains-add sasl sasl names, eq_iff sasl sasl)

  listed-IsWaiting : (s : Login) → IsWaiting s → IsWaiting (listed upper base64 settings s)
  unfolding listed fail_sasl
  listed-IsWaiting s h =
      let desired = intersection s.cap_ls identity_capabilities in
      if-IsWaiting (not s.sasl_required) _ _ (λ e. absurd (ground (arith, e, h)))
        (λ _.
          if-IsWaiting (not (contains sasl s.cap_ls)) _ _ (λ _. fail_sasl-IsWaiting s h)
            (λ _.
              if-IsWaiting (lacks_plain upper base64 settings (lookup sasl s.cap_values)) _ _
                (λ _. fail_sasl-IsWaiting s h)
                (λ _. ask_for-IsWaiting (add sasl desired) s (sasl_added desired) h)))

  cap_ls_reply-IsWaiting :
      (rest : List Text) (s : Login)
      → IsWaiting s
      → IsWaiting (cap_ls_reply upper base64 settings rest s)
  unfolding cap_ls_reply
  cap_ls_reply-IsWaiting rest s h =
      if-IsWaiting (is_continued rest) _ _ (λ _. h) (λ _. listed-IsWaiting _ h)

  cap_ack-IsWaiting :
      (rest : List Text) (s : Login)
      → contains sasl (names_of rest) ≡ true
      → IsWaiting s
      → IsWaiting (cap_ack rest s)
  unfolding cap_ack
  cap_ack-IsWaiting rest s c h =
      if-IsWaiting (contains sasl (names_of rest) && s.sasl_required) _ _ (λ _. h)
        (λ e. absurd (ground (arith, e, c, h)))

  cap_nak-IsWaiting :
      (rest : List Text) (s : Login)
      → contains sasl (names_of rest) ≡ true
      → IsWaiting s
      → IsWaiting (cap_nak rest s)
  unfolding cap_nak
  cap_nak-IsWaiting rest s c h =
      if-IsWaiting (s.sasl_required && contains sasl (names_of rest)) _ _
        (λ _. fail_sasl-IsWaiting s h) (λ e. absurd (ground (arith, e, c, h)))

  irc_cap-IsWaiting :
      (params : List Text) (s : Login)
      → is_about_sasl upper params ≡ true
      → IsWaiting s
      → IsWaiting (irc_cap upper base64 settings params s)
  unfolding irc_cap cap_ls_reply cap_ack cap_nak
  irc_cap-IsWaiting [] s c h = h
  irc_cap-IsWaiting (x ∷ []) s c h = h
  irc_cap-IsWaiting (x ∷ command ∷ rest) s c h =
      if-IsWaiting (upper command == codes "LS") _ _ (λ _. cap_ls_reply-IsWaiting rest s h)
        (λ _.
          if-IsWaiting (upper command == codes "ACK") _ _
            (λ e. cap_ack-IsWaiting rest s (ground (arith, c, e)) h)
            (λ _.
              if-IsWaiting (upper command == codes "NAK") _ _
                (λ e. cap_nak-IsWaiting rest s (ground (arith, c, e)) h) (λ _. h)))

  irc_authenticate-IsWaiting :
      (params : List Text) (s : Login)
      → IsWaiting s
      → IsWaiting (irc_authenticate upper base64 settings params s)
  unfolding irc_authenticate
  irc_authenticate-IsWaiting [] s h = h
  irc_authenticate-IsWaiting (p ∷ params) s h =
      if-IsWaiting (not (p == codes "+") || s.payload_sent) _ _ (λ _. h)
        (λ _. send_all-IsWaiting (payload_parts (sasl_payload upper base64 settings)) s h)

  handle_login-IsWaiting :
      (e : LoginEvent) (s : Login)
      → IsUnsettled upper e
      → IsWaiting s
      → IsWaiting (handle_login upper base64 settings e s)
  unfolding handle_login
  handle_login-IsWaiting (cap params) s u h = irc_cap-IsWaiting params s u h
  handle_login-IsWaiting (challenge params) s u h = irc_authenticate-IsWaiting params s h
  handle_login-IsWaiting success s u h = absurd u
  handle_login-IsWaiting already s u h = absurd u
  handle_login-IsWaiting failed s u h = fail_sasl-IsWaiting s h

  run_login-IsWaiting :
      (events : List LoginEvent) (s : Login)
      → All (IsUnsettled upper) events
      → IsWaiting s
      → IsWaiting (run_login upper base64 settings events s)
  unfolding run_login
  run_login-IsWaiting [] s u h = h
  run_login-IsWaiting (e ∷ events) s u h =
      run_login-IsWaiting events (handle_login upper base64 settings e s) u.1
        (handle_login-IsWaiting e s u.0 h)

-- Where the settings hold a name and a password for SASL, no `CAP END` is sent before the server says
-- that SASL succeeded or has been done already, as long as its acknowledgements and refusals of
-- capabilities name `sasl`.
pub run_register-IsWaiting :
    (upper base64 : Text → Text) (settings : Settings) (username : Option Text)
    (realname nickname hostname servername : Text) (events : List LoginEvent)
    → truth settings.sasl_username ≡ true
    → truth settings.sasl_password ≡ true
    → All (IsUnsettled upper) events
    → contains cap_end
        (run_login upper base64 settings events
          (register settings username realname nickname hostname servername)).sent
      ≡ false
run_register-IsWaiting upper base64 settings username realname nickname hostname servername events
      name password unsettled =
    let start = register settings username realname nickname hostname servername in
    let waiting =
      run_login-IsWaiting upper base64 settings events start unsettled
        (unfold register in (rw (name, password) refl, refl)) in
    let counted =
      run_register-IsEnded upper base64 settings username realname nickname hostname servername
        events in
    times-contains cap_end (run_login upper base64 settings events start).sent
      (counted ∙ ap (λ b. if b then 1 else 0) waiting.1)
