-- ===== src/Net/Frames/Sent.antt =====
-- util/ws.py: frames as the other side writes and reads them.
use mathlib.Core.List.{append_assoc}
use py_burly_bot.Common.{
  ℕ, suc, ◌+◌, ◌^◌, ◌≤◌, ◌<◌, Bool, true, false, List, ◌∷◌, ◌++◌, Option, none, some, ◌≡◌, refl,
  sym, ◌∙◌, ap, arith, if◌then◌else◌, ltb, leb, nat_beq, ◌&&◌, ◌/◌, ◌%◌, length, All, Bool-cases,
  inl, inr,
}
use py_burly_bot.Net.Frames.{
  pack, MaskKey, mask_bytes, mask, length_field, frame, read_exact, read_header, Received, message,
  failure, Turn, go_on, stop, take_frame, is_control, recv_loop,
}
use py_burly_bot.Net.Frames.Bytes.{
  IsByte, IsMaskKey, mask_bytes_twice, length-mask_bytes, unpack-pack_two, unpack-pack_eight,
  length-pack, read_exact-append,
}

abbrev pub top_bit : Bool → ℕ
top_bit fin = if fin then 128 else 0

pack_read : (k n : ℕ) (rest : List ℕ) → read_exact k (pack k n ++ rest) ≡ some (pack k n, rest)
pack_read k n rest =
    ap (λ m. read_exact m (pack k n ++ rest)) (sym (length-pack k n))
    ∙ read_exact-append (pack k n) rest

read_header-length_field :
    (fin : Bool) (opcode n : ℕ) (masked : Bool) (rest : List ℕ)
    → opcode < 16
    → n < 2 ^ 64
    → read_header ((top_bit fin + opcode) ∷ length_field (top_bit masked) n ++ rest)
      ≡ some (record { fin = fin; opcode = opcode; size = n }, rest)
unfolding read_header length_field
read_header-length_field fin opcode n masked rest ho hn =
    ground (arith, pack_read 2 n rest, pack_read 8 n rest, unpack-pack_two n, unpack-pack_eight n)

-- The least length that a length field is for: the short field, two bytes or eight bytes.
abbrev pub least_size : ℕ → ℕ
least_size field = if nat_beq field 126 then 126 else if nat_beq field 127 then 2 ^ 16 else 0

-- The first byte has FIN and no reserved bit, the second one has the mask bit, and the length
-- stands in the shortest field for it.
abbrev pub is_client_start : List ℕ → ℕ → Bool
is_client_start (first ∷ second ∷ _) size =
    nat_beq (first / 16) 8 && nat_beq (second / 128) 1 && leb (least_size (second % 128)) size
is_client_start _ size = false

-- What the server makes of a frame of the client, by RFC 6455: the opcode, the payload, unmasked,
-- and what follows the frame. It refuses a frame that is not final or not masked, that has a
-- reserved bit or whose length is not in the shortest field.
unfoldable pub read_masked : List ℕ → Option (ℕ × List ℕ × List ℕ)
unfolding read_header read_exact mask_bytes
read_masked buffer = elim (read_header buffer) [
  | none ↦ none
  | some (h, k0 ∷ k1 ∷ k2 ∷ k3 ∷ rest) ↦ elim (is_client_start buffer h.size) [
    | false ↦ none
    | true ↦ elim (read_exact h.size rest) [
      | none ↦ none
      | some (payload, after) ↦
          some (h.opcode, mask_bytes (record { k0 = k0; k1 = k1; k2 = k2; k3 = k3 }) payload, after)
    ]
  ]
  | some (h, _) ↦ none
]

is_client_start-length_field :
    (first n : ℕ) (rest : List ℕ)
    → first / 16 ≡ 8
    → is_client_start (first ∷ length_field 128 n ++ rest) n ≡ true
unfolding length_field
is_client_start-length_field first n rest fin = elim (Bool-cases (ltb n 126)) [
  | inl short ↦ ground (arith, fin, short)
  | inr long ↦ elim (Bool-cases (ltb n (2 ^ 16))) [
    | inl two ↦ ground (arith, fin, long, two)
    | inr eight ↦ ground (arith, fin, long, eight)
  ]
]

is_client_start-frame :
    (k : MaskKey) (opcode : ℕ) (payload rest : List ℕ)
    → opcode < 16
    → is_client_start (frame k opcode payload ++ rest) (length payload) ≡ true
unfolding frame
is_client_start-frame k opcode payload rest ho =
    ap (λ l. is_client_start ((128 + opcode) ∷ l) (length payload))
      (append_assoc (length_field 128 (length payload)) (mask k payload) rest)
    ∙ is_client_start-length_field (128 + opcode) (length payload) (mask k payload ++ rest)
        (omega arith)

-- A frame that the client sends, of an opcode below 16 and a payload of bytes shorter than 2 ^ 64,
-- is read by a server that reads only final masked frames as its opcode and its payload, whatever
-- the mask, and nothing more is read.
pub read_masked-frame :
    (k : MaskKey) (opcode : ℕ) (payload rest : List ℕ)
    → IsMaskKey k
    → opcode < 16
    → All IsByte payload
    → length payload < 2 ^ 64
    → read_masked (frame k opcode payload ++ rest) ≡ some (opcode, payload, rest)
unfolding frame mask read_masked
read_masked-frame k opcode payload rest hk ho bytes short =
    rw
      (
        append_assoc (length_field 128 (length payload)) (mask k payload) rest,
        read_masked,
        read_header-length_field true opcode (length payload) true (mask k payload ++ rest) ho
            short,
        is_client_start-frame k opcode payload rest ho,
        masked_read k payload rest,
        mask_bytes_twice k payload hk bytes,
      )
      refl
  where
    masked_read :
        (k : MaskKey) (payload rest : List ℕ)
        → read_exact (length payload) (mask_bytes k payload ++ rest)
          ≡ some (mask_bytes k payload, rest)
    masked_read k payload rest =
        ap (λ m. read_exact m (mask_bytes k payload ++ rest)) (sym (length-mask_bytes k payload))
        ∙ read_exact-append (mask_bytes k payload) rest

-- A frame of the server, which is not masked.
unfoldable pub server_frame : Bool → ℕ → List ℕ → List ℕ
unfolding length_field
server_frame fin opcode payload =
    (top_bit fin + opcode) ∷ length_field 0 (length payload) ++ payload

-- One round of the loop on a frame of the server that is not too large.
unfoldable pub turn :
    (fuel limit : ℕ) (pongs : List (List ℕ)) (t : Turn) (control : Bool) (rest : List ℕ)
    → Option Received
turn fuel limit pongs (stop e) control rest = some (failure e pongs)
turn fuel limit pongs (go_on sofar' expecting' pongs') control rest =
    elim (if control then true else expecting') [
      | true ↦ recv_loop fuel limit sofar' expecting' pongs' rest
      | false ↦ some (message sofar' rest pongs')
    ]

pub recv_loop-server_frame :
    (fuel limit : ℕ) (sofar : List ℕ) (expecting : Bool) (pongs : List (List ℕ)) (fin : Bool)
    (opcode : ℕ) (payload rest : List ℕ)
    → opcode < 16
    → length payload < 2 ^ 64
    → length payload + length sofar ≤ limit
    → recv_loop (suc fuel) limit sofar expecting pongs (server_frame fin opcode payload ++ rest)
      ≡ turn fuel limit pongs
          (take_frame
            (record { fin = fin; opcode = opcode; size = length payload })
            payload
            sofar
            expecting
            pongs)
          (is_control opcode)
          rest
unfolding recv_loop server_frame turn
recv_loop-server_frame fuel limit sofar expecting pongs fin opcode payload rest ho short fits =
    let small : ltb limit (length payload + length sofar) ≡ false = ground arith in
    rw
      (
        append_assoc (length_field 0 (length payload)) payload rest,
        recv_loop,
        read_header-length_field fin opcode (length payload) false (payload ++ rest) ho short,
        small,
        read_exact-append payload rest,
      )
      (go (
        take_frame (record { fin = fin; opcode = opcode; size = length payload }) payload sofar
          expecting pongs))
  where
    go :
        (t : Turn)
        → (elim t as (λ _. Option Received) [
          | stop e ↦ some (failure e pongs)
          | go_on sofar' expecting' pongs' ↦ elim (if is_control opcode then true else expecting') [
            | true ↦ recv_loop fuel limit sofar' expecting' pongs' rest
            | false ↦ some (message sofar' rest pongs')
          ]
        ])
          ≡ turn fuel limit pongs t (is_control opcode) rest
    go (stop e) = refl
    go (go_on a b c) = refl
