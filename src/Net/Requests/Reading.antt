-- ===== src/Net/Requests/Reading.antt =====
-- util/http.py: what `_read_limited` gives.
use mathlib.Core.List.{append_assoc, append-nil}
use py_burly_bot.Common.{
  ℕ, zero, suc, ◌+◌, ◌-◌, ◌*◌, ◌≤◌, ◌<◌, true, List, [], ◌∷◌, ◌++◌, Option, some, leb, length, take,
  drop, ◌≡◌, ap, ◌∙◌, arith, inl, inr, Bool-cases, length-append, take-drop, length-drop,
}
use py_burly_bot.Net.Requests.{
  Answer, Result, ok, err, least, read_loop, read_limited, timeout, too_large,
}

-- What the loop may end with, when it reads the whole of a body.
pub data IsReading (limit : ℕ) (a : Answer) (whole : List ℕ)
    : Option (Result (List ℕ)) → Type 0 where
  fits : length whole ≤ limit → IsReading limit a whole (some (ok whole))
  over : limit < length whole → IsReading limit a whole (some (err too_large))
  ran_out : (i : ℕ) → a.expired i ≡ true → IsReading limit a whole (some (err timeout))

taken :
    (n limit : ℕ) (b : ℕ) (sofar bs : List ℕ)
    → (sofar ++ (b ∷ take n bs)) ++ drop n bs ≡ sofar ++ b ∷ bs
taken n limit b sofar bs =
    append_assoc sofar (b ∷ take n bs) (drop n bs) ∙ ap (λ l. sofar ++ b ∷ l) (take-drop n bs)

read_loop-IsReading :
    (fuel i limit : ℕ) (a : Answer) (sofar rest : List ℕ)
    → length rest < fuel
    → IsReading limit a (sofar ++ rest) (read_loop fuel i limit a sofar rest)
unfolding read_loop
read_loop-IsReading zero i limit a sofar rest enough = absurd (omega arith)
read_loop-IsReading (suc fuel) i limit a sofar [] enough =
    elim (Bool-cases (leb (length sofar) limit)) [
      | inr long ↦ rw (read_loop, long) (over (ground (arith, long, length-append sofar [])))
      | inl short ↦ elim (Bool-cases (a.expired (2 * i))) [
        | inl gone ↦ rw (read_loop, short, gone) (ran_out (2 * i) gone)
        | inr there ↦ rw (append-nil sofar, read_loop, short, there) (fits (ground (arith, short)))
      ]
    ]
read_loop-IsReading (suc fuel) i limit a sofar (b ∷ bs) enough =
    let n = least (least (a.found i) (64 * 1024 - 1)) (limit - length sofar) in
    let next =
      read_loop-IsReading fuel (i + 1) limit a (sofar ++ b ∷ take n bs) (drop n bs)
        (omega (arith, length-drop n bs, enough)) in
    elim (Bool-cases (leb (length sofar) limit)) [
      | inr long ↦ rw (read_loop, long) (over (ground (arith, long, length-append sofar (b ∷ bs))))
      | inl short ↦ elim (Bool-cases (a.expired (2 * i))) [
        | inl gone ↦ rw (read_loop, short, gone) (ran_out (2 * i) gone)
        | inr there ↦ elim (Bool-cases (a.expired (2 * i + 1))) [
          | inl gone ↦ rw (read_loop, short, there, gone) (ran_out (2 * i + 1) gone)
          | inr still ↦ rw (read_loop, short, there, still, ← taken n limit b sofar bs) next
        ]
      ]
    ]

-- A body that is read piece by piece, however large the pieces, ends as the whole body where it is
-- within the limit, as `too_large` where it is longer, or as a timeout where a test of the deadline
-- said so; the loop always ends.
pub read_limited-IsReading :
    (limit : ℕ) (a : Answer) → IsReading limit a a.body (read_limited limit a)
read_limited-IsReading limit a =
    read_loop-IsReading (suc (length a.body)) 0 limit a [] a.body (omega arith)
