-- ===== src/Client/Login/Payload.antt =====
-- util/client.py: the SASL payload in lines.
use mathlib.Core.List.{append_assoc}
use py_burly_bot.Common.{
  ℕ, zero, suc, ◌+◌, ◌-◌, ◌/◌, ◌%◌, ◌≤◌, ◌<◌, true, false, List, [], ◌∷◌, ◌++◌, Option, none, some,
  Text, text_eq, ◌==◌, codes, ◌≡◌, refl, sym, ap, ◌∙◌, arith, inl, inr, Bool-cases, if◌then◌else◌,
  nat_beq, text_beq, length, take, drop, take-drop, length-drop, length-take, take_all, eq_iff, leb,
  ◌≢◌,
}
use py_burly_bot.Client.Login.{chunks, payload_parts}

-- How a server reads the parts by the IRCv3 specification: a part of 400 characters has another
-- behind it, a shorter one is the last, and `+` is an empty one. Nothing is a payload that goes on.
unfoldable pub collect : List Text → Option (Text × List Text)
collect [] = none
collect (part ∷ parts) =
    let rest = collect parts in
    if part == codes "+"
    then some ([], parts)
    else if nat_beq (length part) 400
    then elim rest [ none ↦ none | some (text, behind) ↦ some (part ++ text, behind) ]
    else some (part, parts)

plus_short : (part : Text) → (part == codes "+") ≡ true → length part ≡ 1
plus_short part h = ap length ((eq_iff part (codes "+")).0 h)

abbrev end_of : ℕ → List Text
end_of n = if nat_beq (n % 400) 0 then codes "+" ∷ [] else []

collect_last :
    (payload : Text) (behind : List Text)
    → length payload < 400
    → length payload ≢ 1
    → collect (payload ∷ behind) ≡ some (payload, behind)
unfolding collect
collect_last payload behind h n = ground (arith, plus_short payload)

collect_full :
    (part text : Text) (parts behind : List Text)
    → length part ≡ 400
    → collect parts ≡ some (text, behind)
    → collect (part ∷ parts) ≡ some (part ++ text, behind)
unfolding collect
collect_full part text parts behind h e = ground (arith, e, plus_short part)

collect_plus : (behind : List Text) → collect (codes "+" ∷ behind) ≡ some ([], behind)
unfolding collect text_beq
collect_plus behind = refl

abbrev parts_from : ℕ → Text → List Text → List Text
parts_from k payload behind = chunks k payload ++ (end_of (length payload) ++ behind)

collect-parts :
    (k : ℕ) (payload : Text) (behind : List Text)
    → k ≡ (length payload + 399) / 400
    → length payload % 4 ≡ 0
    → collect (parts_from k payload behind) ≡ some (payload, behind)
unfolding chunks
collect-parts zero [] behind e fours = collect_plus behind
collect-parts zero (x ∷ xs) behind e fours = absurd (omega (arith, e))
collect-parts (suc k) payload behind e fours = elim (Bool-cases (leb 400 (length payload))) [
  | inl long ↦
      let more : 400 ≤ length payload = ground (arith, long) in
      let left : length (drop 400 payload) ≡ length payload - 400 = length-drop 400 payload in
      let same : end_of (length (drop 400 payload)) ≡ end_of (length payload) =
        ap (λ n. if nat_beq n 0 then codes "+" ∷ [] else []) (omega (arith, left, more)) in
      let next =
        collect-parts k (drop 400 payload) behind (omega (arith, e, left, more))
          (omega (arith, fours, left, more)) in
      collect_full (take 400 payload) (drop 400 payload) _ behind
        (ground (arith, length-take 400 payload, long))
        (ap (λ l. collect (chunks k (drop 400 payload) ++ (l ++ behind))) (sym same) ∙ next)
      ∙ ap (λ l. some (l, behind)) (take-drop 400 payload)
  | inr short ↦
      let less : length payload < 400 = ground (arith, short) in
      let none_left : k ≡ 0 = omega (arith, e, less) in
      let no_plus : nat_beq (length payload % 400) 0 ≡ false = ground (arith, e, less) in
      rw (take_all 400 payload (omega (arith, less)), none_left, no_plus)
        (collect_last payload behind less (λ one. omega (arith, fours, one)))
]

-- A payload whose length is a multiple of four, as that of every text in base64, is read back by the
-- server from the lines that carry it, whatever stands behind them.
pub collect-payload_parts :
    (payload : Text) (behind : List Text)
    → length payload % 4 ≡ 0
    → collect (payload_parts payload ++ behind) ≡ some (payload, behind)
unfolding payload_parts
collect-payload_parts payload behind fours =
    ap collect (
      append_assoc (chunks ((length payload + 399) / 400) payload) (end_of (length payload)) behind)
    ∙ collect-parts ((length payload + 399) / 400) payload behind refl fours
