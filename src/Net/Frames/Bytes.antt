-- ===== src/Net/Frames/Bytes.antt =====
-- util/ws.py: the bytes of a frame one by one, and what reads them back.
use py_burly_bot.Common.{
  ℕ, zero, suc, ◌^◌, ◌<◌, Bool, true, ◌&&◌, List, [], ◌∷◌, ◌++◌, some, ◌≡◌, refl, arith, nat_beq,
  nat_beq_iff, length, All, bit_xor, ap,
}
use py_burly_bot.Net.Frames.{pack, unpack, MaskKey, rotate, mask_bytes, read_exact}

abbrev pub IsByte : ℕ → Type 0
IsByte b = b < 256

abbrev pub IsMaskKey : MaskKey → Type 0
IsMaskKey k = IsByte k.k0 × IsByte k.k1 × IsByte k.k2 × IsByte k.k3

-- the test holds of every pair below the bounds
column : ℕ → ℕ → (ℕ → ℕ → Bool) → Bool
column zero y t = true
column (suc x) y t = t x y && column x y t

square : ℕ → ℕ → (ℕ → ℕ → Bool) → Bool
unfolding column
square x zero t = true
square x (suc y) t = column x y t && square x y t

column-holds : (n y : ℕ) (t : ℕ → ℕ → Bool) (a : ℕ) → column n y t ≡ true → a < n → t a y ≡ true
unfolding column
column-holds zero y t a h p = absurd (omega arith)
column-holds (suc n) y t a h p = ground (arith, column-holds n y t a)

square-holds :
    (n m : ℕ) (t : ℕ → ℕ → Bool) (a b : ℕ) → square n m t ≡ true → a < n → b < m → t a b ≡ true
unfolding square
square-holds n zero t a b h p q = absurd (omega arith)
square-holds n (suc m) t a b h p q = ground (arith, square-holds n m t a b, column-holds n m t a)

undone : ℕ → ℕ → Bool
undone b k = nat_beq (bit_xor (bit_xor b k) k) b

all_undone : square 256 256 undone ≡ true
unfolding square undone
all_undone = refl

pub bit_xor_twice : (b k : ℕ) → IsByte b → IsByte k → bit_xor (bit_xor b k) k ≡ b
unfolding undone
bit_xor_twice b k hb hk =
    (nat_beq_iff (bit_xor (bit_xor b k) k) b).0 (square-holds 256 256 undone b k all_undone hb hk)

pub mask_bytes_twice :
    (k : MaskKey) (bs : List ℕ) → IsMaskKey k → All IsByte bs → mask_bytes k (mask_bytes k bs) ≡ bs
unfolding mask_bytes
mask_bytes_twice k [] hk hs = refl
mask_bytes_twice k (b ∷ bs) hk hs =
    rw
      (bit_xor_twice b k.k0 hs.0 hk.0, mask_bytes_twice (rotate k) bs (hk.1, hk.2, hk.3, hk.0) hs.1)
      refl

pub length-mask_bytes : (k : MaskKey) (bs : List ℕ) → length (mask_bytes k bs) ≡ length bs
unfolding mask_bytes
length-mask_bytes k [] = refl
length-mask_bytes k (b ∷ bs) = ap suc (length-mask_bytes (rotate k) bs)

pub unpack-pack_two : (n : ℕ) → n < 2 ^ 16 → unpack 0 (pack 2 n) ≡ n
unfolding unpack pack
unpack-pack_two n h = omega arith

pub unpack-pack_eight : (n : ℕ) → n < 2 ^ 64 → unpack 0 (pack 8 n) ≡ n
unfolding unpack pack
unpack-pack_eight n h = omega arith

pub length-pack : (k n : ℕ) → length (pack k n) ≡ k
unfolding pack
length-pack zero n = refl
length-pack (suc k) n = ap suc (length-pack k n)

-- What is there is read, and no more.
pub read_exact-append : (xs rest : List ℕ) → read_exact (length xs) (xs ++ rest) ≡ some (xs, rest)
unfolding read_exact
read_exact-append [] rest = refl
read_exact-append (x ∷ xs) rest = rw (read_exact-append xs rest) refl
