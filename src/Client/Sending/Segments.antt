-- ===== src/Client/Sending/Segments.antt =====
-- util/helpers.py: the segments of an encoded text.
use mathlib.Core.Path.{subst}
use py_burly_bot.Common.{
  ℕ, zero, suc, ◌+◌, ◌-◌, ◌≤◌, ◌<◌, true, false, List, [], ◌∷◌, ◌++◌, ◌≡◌, refl, sym, ap, ◌∙◌,
  arith, inl, inr, Bool-cases, if◌then◌else◌, leb, nat_beq, nat_beq_iff, length, take, drop, All,
  take-drop, length-drop, length-take,
}
use py_burly_bot.Client.Sending.{Bytes, is_inner, inner_at, backtrack, skip_inner, segments}

-- The bytes of one character: the first starts it, the others continue it.
abbrev pub IsCharacter : Bytes → Type 0
IsCharacter [] = ⊥
IsCharacter (b ∷ bs) = (is_inner b ≡ false) × All (λ c. is_inner c ≡ true) bs

-- The bytes do not begin inside a character.
abbrev pub IsAligned : Bytes → Type 0
IsAligned [] = Unit
IsAligned (b ∷ bs) = is_inner b ≡ false

-- What a division into at most `n` segments is: all the bytes where they fit, else as many whole
-- characters as fit, at least one, and a character that is too long for any segment is left out,
-- with an empty segment in its place.
pub data Cut (limit : ℕ) : ℕ → Bytes → List Bytes → Type 0 where
  enough : (rest : Bytes) → Cut limit 0 rest []
  at_end : (n : ℕ) → Cut limit n [] []
  rest_fits : (n : ℕ) (rest : Bytes) → length rest ≤ limit → Cut limit (suc n) rest (rest ∷ [])
  divided :
      (n : ℕ) (segment c rest : Bytes) (more : List Bytes)
      → 1 ≤ length segment
      → length segment ≤ limit
      → limit < length segment + length c
      → IsCharacter c
      → IsAligned rest
      → Cut limit n (c ++ rest) more
      → Cut limit (suc n) (segment ++ (c ++ rest)) (segment ∷ more)
  left_out :
      (n : ℕ) (c rest : Bytes) (more : List Bytes)
      → limit < length c
      → IsCharacter c
      → IsAligned rest
      → Cut limit n rest more
      → Cut limit (suc n) (c ++ rest) ([] ∷ more)

-- the bytes that continue a character
take_inner : Bytes → Bytes
take_inner [] = []
take_inner (b ∷ bs) = let rest = take_inner bs in if is_inner b then b ∷ rest else []

take_inner-skip_inner : (bs : Bytes) → take_inner bs ++ skip_inner bs ≡ bs
unfolding take_inner skip_inner
take_inner-skip_inner [] = refl
take_inner-skip_inner (b ∷ bs) = ground (arith, take_inner-skip_inner bs)

take_inner-IsInner : (bs : Bytes) → All (λ c. is_inner c ≡ true) (take_inner bs)
unfolding take_inner
take_inner-IsInner [] = tt
take_inner-IsInner (b ∷ bs) = elim (Bool-cases (is_inner b)) [
  | inl e ↦ rw e (e, take_inner-IsInner bs)
  | inr e ↦ rw e tt
]

skip_inner-IsAligned : (bs : Bytes) → IsAligned (skip_inner bs)
unfolding skip_inner
skip_inner-IsAligned [] = tt
skip_inner-IsAligned (b ∷ bs) = elim (Bool-cases (is_inner b)) [
  | inl e ↦ rw e (skip_inner-IsAligned bs)
  | inr e ↦ rw e e
]

take_inner-long :
    (m : ℕ) (bs : Bytes) → ((j : ℕ) → j < m → inner_at j bs ≡ true) → m ≤ length (take_inner bs)
unfolding take_inner
take_inner-long zero bs h = omega arith
take_inner-long (suc m) [] h = absurd (cc (h 0 (omega arith)))
take_inner-long (suc m) (b ∷ bs) h =
    let first : is_inner b ≡ true = h 0 (omega arith) in
    rw first (omega (arith, take_inner-long m bs (λ j p. h (suc j) (omega (arith, p)))))

inner_at-drop : (k j : ℕ) (bs : Bytes) → inner_at (k + j) bs ≡ inner_at j (drop k bs)
inner_at-drop zero j bs = ap (λ n. inner_at n bs) (omega arith)
inner_at-drop (suc k) j [] = refl
inner_at-drop (suc k) j (b ∷ bs) =
    let e : suc k + j ≡ suc (k + j) = omega arith in
    ap (λ n. inner_at n (b ∷ bs)) e ∙ inner_at-drop k j bs

record IsEndOf (rest : Bytes) (limit k : ℕ) : Type 0 where
  within : k ≤ limit
  starts : inner_at k rest ≡ false
  inside : (j : ℕ) → k < j → j ≤ limit → inner_at j rest ≡ true

backtrack-IsEndOf :
    (rest : Bytes) (limit : ℕ) → inner_at 0 rest ≡ false → IsEndOf rest limit (backtrack rest limit)
unfolding backtrack
backtrack-IsEndOf rest zero h = record {
  within = omega arith;
  starts = h;
  inside = λ j p q. absurd (omega (arith, p, q));
}
backtrack-IsEndOf rest (suc k) h = elim (Bool-cases (inner_at (suc k) rest)) [
  | inr e ↦
      rw e (record {
        within = omega arith;
        starts = e;
        inside = λ j p q. absurd (omega (arith, p, q));
      })
  | inl e ↦
      let before = backtrack-IsEndOf rest k h in
      rw e (record {
        within = omega (arith, before.within);
        starts = before.starts;
        inside = λ j p q. elim (Bool-cases (leb j k)) [
          | inl x ↦ before.inside j p (ground (arith, x))
          | inr x ↦ ap (λ n. inner_at n rest) (ground (arith, x, q)) ∙ e
        ];
      })
]

-- The character that starts the bytes.
character_at : (bs : Bytes) → Bytes
unfolding take_inner
character_at [] = []
character_at (b ∷ bs) = b ∷ take_inner bs

abbrev behind : Bytes → Bytes
behind [] = []
behind (b ∷ bs) = skip_inner bs

character_at-behind : (bs : Bytes) → character_at bs ++ behind bs ≡ bs
unfolding character_at
character_at-behind [] = refl
character_at-behind (b ∷ bs) = ap (λ l. b ∷ l) (take_inner-skip_inner bs)

behind-IsAligned : (bs : Bytes) → IsAligned (behind bs)
behind-IsAligned [] = tt
behind-IsAligned (b ∷ bs) = skip_inner-IsAligned bs

character_at-IsCharacter :
    (bs : Bytes) → 1 ≤ length bs → inner_at 0 bs ≡ false → IsCharacter (character_at bs)
unfolding character_at
character_at-IsCharacter [] p h = absurd (omega (arith, p))
character_at-IsCharacter (b ∷ bs) p h = (h, take_inner-IsInner bs)

character_at-long :
    (m : ℕ) (bs : Bytes)
    → 1 ≤ length bs
    → ((j : ℕ) → 0 < j → j ≤ m → inner_at j bs ≡ true)
    → m < length (character_at bs)
unfolding character_at
character_at-long m [] p h = absurd (omega (arith, p))
character_at-long m (b ∷ bs) p h =
    omega (arith, take_inner-long m bs (λ j q. h (suc j) (omega arith) (omega (arith, q))))

inner_at-aligned : (bs : Bytes) → IsAligned bs → inner_at 0 bs ≡ false
inner_at-aligned [] h = refl
inner_at-aligned (b ∷ bs) h = h

IsAligned-inner_at : (bs : Bytes) → inner_at 0 bs ≡ false → IsAligned bs
IsAligned-inner_at [] h = tt
IsAligned-inner_at (b ∷ bs) h = h

skipped :
    (n limit : ℕ) (rest : Bytes) (more : List Bytes)
    → limit < length rest
    → IsEndOf rest limit 0
    → Cut limit n (behind rest) more
    → Cut limit (suc n) rest ([] ∷ more)
skipped n limit rest more long ends next =
    subst (λ l. Cut limit (suc n) l ([] ∷ more)) (character_at-behind rest)
      (left_out n (character_at rest) (behind rest) more
        (character_at-long limit rest (omega (arith, long)) ends.inside)
        (character_at-IsCharacter rest (omega (arith, long)) ends.starts) (behind-IsAligned rest)
        next)

starts_behind : (k : ℕ) (rest : Bytes) → inner_at k rest ≡ false → inner_at 0 (drop k rest) ≡ false
starts_behind k rest h =
    let e : k ≡ k + 0 = omega arith in
    sym (inner_at-drop k 0 rest) ∙ (ap (λ m. inner_at m rest) (sym e) ∙ h)

-- A segment of `k` bytes, with what is behind it.
taken :
    (n limit k : ℕ) (rest : Bytes) (more : List Bytes)
    → limit < length rest
    → 1 ≤ k
    → IsEndOf rest limit k
    → Cut limit n (drop k rest) more
    → Cut limit (suc n) rest (take k rest ∷ more)
taken n limit k rest more long nonempty ends next =
    let size : length (take k rest) ≡ k = ground (arith, length-take k rest, ends.within, long) in
    let left : length (drop k rest) ≡ length rest - k = length-drop k rest in
    let there : 1 ≤ length (drop k rest) = omega (arith, left, ends.within, long) in
    let inside : (j : ℕ) → 0 < j → j ≤ limit - k → inner_at j (drop k rest) ≡ true = λ j p q.
      sym (inner_at-drop k j rest)
      ∙ ends.inside (k + j) (omega (arith, p)) (omega (arith, q, ends.within)) in
    let c_long = character_at-long (limit - k) (drop k rest) there inside in
    let starts : inner_at 0 (drop k rest) ≡ false = starts_behind k rest ends.starts in
    let parts = character_at-behind (drop k rest) in
    subst (λ l. Cut limit (suc n) l (take k rest ∷ more))
      (ap (λ l. take k rest ++ l) parts ∙ take-drop k rest)
      (divided n (take k rest) (character_at (drop k rest)) (behind (drop k rest)) more
        (omega (arith, size, nonempty)) (omega (arith, size, ends.within))
        (omega (arith, size, c_long, ends.within))
        (character_at-IsCharacter (drop k rest) there starts) (behind-IsAligned (drop k rest))
        (subst (λ l. Cut limit n l more) (sym parts) next))

-- The loop of `splitEncodedUnicode` for UTF-8 divides bytes that begin with a character, or none, into
-- at most `n` segments: each holds as many whole characters as fit, a character that is too long for
-- any is left out, and the rest ends the division once it fits.
pub segments-Cut :
    (n limit : ℕ) (rest : Bytes) → IsAligned rest → Cut limit n rest (segments n limit rest)
unfolding segments
segments-Cut zero limit rest h = enough rest
segments-Cut (suc n) limit [] h = at_end (suc n)
segments-Cut (suc n) limit (b ∷ bs) h =
    let ends = backtrack-IsEndOf (b ∷ bs) limit h in
    let k = backtrack (b ∷ bs) limit in
    elim (Bool-cases (leb (length (b ∷ bs)) limit)) [
      | inl short ↦ rw short (rest_fits n (b ∷ bs) (ground (arith, short)))
      | inr long ↦ elim (Bool-cases (nat_beq k 0)) [
        | inl none_fits ↦
            let z : k ≡ 0 = (nat_beq_iff k 0).0 none_fits in
            rw (long, z)
              (skipped n limit (b ∷ bs) _ (ground (arith, long)) (rw z at ends)
                (segments-Cut n limit (skip_inner bs) (skip_inner-IsAligned bs)))
        | inr some_fit ↦
            rw (long, some_fit)
              (taken n limit k (b ∷ bs) _ (ground (arith, long)) (ground (arith, some_fit)) ends (
                segments-Cut n limit (drop k (b ∷ bs))
                  (IsAligned-inner_at (drop k (b ∷ bs)) (starts_behind k (b ∷ bs) ends.starts))))
      ]
    ]
