-- ===== src/Net/Requests/Next.antt =====
-- util/http.py: what a redirect leaves for the next request, and that `redirected` computes it.
use py_burly_bot.Common.{
  ℕ, true, false, List, [], ◌∷◌, ◌++◌, Text, text_eq, eq_iff, Dict, select, contains, not, codes,
  ◌≡◌, ◌≢◌, refl, sym, arith, inl, inr, Bool-cases, nat_beq_iff, ◌||◌,
}
use py_burly_bot.Net.Requests.{
  Origin, Sent, Web, redirected, same_origin, becomes_get, without_headers, secrets,
  content_headers,
}
use py_burly_bot.Net.Requests.Runs.{BecomesGet, IsNext}

same_origin_refl : (a : Origin) → same_origin a a ≡ true
same_origin_refl a =
    ground
      (arith, eq_iff a.scheme a.scheme, eq_iff a.hostname a.hostname, nat_beq_iff a.port a.port)

same_origin-equal : (a b : Origin) → same_origin a b ≡ true → a ≡ b
same_origin-equal a b h =
    ground
      (arith, eq_iff a.scheme b.scheme, eq_iff a.hostname b.hostname, nat_beq_iff a.port b.port)

same_origin-apart : (a b : Origin) → same_origin a b ≡ false → a ≢ b
same_origin-apart a b h e = absurd (cc (rw (e, same_origin_refl b) at h))

becomes_get-BecomesGet :
    (status : ℕ) (method : Text) → becomes_get status method ≡ true → BecomesGet status method
becomes_get-BecomesGet status method h = ground (arith, h, eq_iff method (codes "POST"))

BecomesGet-becomes_get :
    (status : ℕ) (method : Text) → becomes_get status method ≡ false → BecomesGet status method → ⊥
BecomesGet-becomes_get status method h b = ground (arith, h, b, eq_iff method (codes "POST"))

module _ (web : Web) where
  select-all : (hs : Dict Text Text) → select (λ h. not (contains (web.casefold h.0) [])) hs ≡ hs
  unfolding select contains
  select-all [] = refl
  select-all (h ∷ hs) = ground (arith, select-all hs)

  contains-append :
      (k : Text) (xs ys : List Text) → contains k (xs ++ ys) ≡ (contains k xs || contains k ys)
  unfolding contains
  contains-append k [] ys = refl
  contains-append k (x ∷ xs) ys = ground (arith, contains-append k xs ys)

  without_headers-both :
      (xs ys : List Text) (hs : Dict Text Text)
      → without_headers web ys (without_headers web xs hs) ≡ without_headers web (xs ++ ys) hs
  unfolding select
  without_headers-both xs ys [] = refl
  without_headers-both xs ys (h ∷ hs) =
      ground (arith, contains-append (web.casefold h.0) xs ys, without_headers-both xs ys hs)

  -- `redirected` in the terms of `Runs`.
  pub redirected-IsNext :
      (t : Sent) (o : Origin) (status : ℕ) (url : Text)
      → IsNext web t o status url (redirected web t.origin o status url t)
  unfolding redirected
  redirected-IsNext t o status url = elim (Bool-cases (same_origin o t.origin)) [
    | inl a ↦ elim (Bool-cases (becomes_get status t.method)) [
      | inl b ↦
          rw (a, b)
            record {
              goes_to = refl;
              secret = [];
              of_body = content_headers;
              is_secret = inl (same_origin-equal o t.origin a, refl);
              is_turned = inl (becomes_get-BecomesGet status t.method b, refl, refl, refl);
              keeps = refl;
            }
      | inr b ↦
          rw (a, b)
            record {
              goes_to = refl;
              secret = [];
              of_body = [];
              is_secret = inl (same_origin-equal o t.origin a, refl);
              is_turned = inr (BecomesGet-becomes_get status t.method b, refl, refl, refl);
              keeps = sym (select-all t.headers);
            }
    ]
    | inr a ↦ elim (Bool-cases (becomes_get status t.method)) [
      | inl b ↦
          rw (a, b)
            record {
              goes_to = refl;
              secret = secrets;
              of_body = content_headers;
              is_secret = inr (same_origin-apart o t.origin a, refl);
              is_turned = inl (becomes_get-BecomesGet status t.method b, refl, refl, refl);
              keeps = without_headers-both secrets content_headers t.headers;
            }
      | inr b ↦
          rw (a, b)
            record {
              goes_to = refl;
              secret = secrets;
              of_body = [];
              is_secret = inr (same_origin-apart o t.origin a, refl);
              is_turned = inr (BecomesGet-becomes_get status t.method b, refl, refl, refl);
              keeps = refl;
            }
    ]
  ]
