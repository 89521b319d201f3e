-- ===== src/Net/Frames.antt =====
-- util/ws.py: the frames of a WebSocket connection. Bytes are numbers, and what the socket still
-- delivers before it closes is one list: every connection here closes after finitely many
-- bytes, and the timeout that a caller may set for one read is left out. `2 ^ 16` and `2 ^ 64` bound the two wide length fields.
pub mod Bytes
pub mod Sent
pub mod Messages
pub mod Limits
use py_burly_bot.Common.{
  ℕ, zero, suc, ◌+◌, ◌*◌, ◌/◌, ◌%◌, ◌^◌, Bool, true, false, not, List, [], ◌∷◌, ◌++◌, Option, none,
  some, if◌then◌else◌, ltb, nat_beq, length, bit_xor,
}

abbrev pub op_continuation : ℕ
op_continuation = 0

abbrev pub op_text : ℕ
op_text = 1

abbrev pub op_binary : ℕ
op_binary = 2

abbrev pub op_close : ℕ
op_close = 8

abbrev pub op_ping : ℕ
op_ping = 9

abbrev pub op_pong : ℕ
op_pong = 10

-- `pack(">H", n)` and `pack(">Q", n)`: `k` bytes, the highest first
unfoldable pub pack : ℕ → ℕ → List ℕ
pack zero n = []
pack (suc k) n = n / 256 ^ k % 256 ∷ pack k n

-- `unpack`, on top of what the higher bytes gave
unfoldable pub unpack : ℕ → List ℕ → ℕ
unpack acc [] = acc
unpack acc (b ∷ bs) = unpack (acc * 256 + b) bs

-- The four bytes of `urandom(4)`.
pub record MaskKey : Type 0 where
  pub k0 : ℕ
  pub k1 : ℕ
  pub k2 : ℕ
  pub k3 : ℕ

-- `key[1:] + key[:1]`: the key for the payload from its second byte on
abbrev pub rotate : MaskKey → MaskKey
rotate k = record { k0 = k.k1; k1 = k.k2; k2 = k.k3; k3 = k.k0 }

-- `bytes(b ^ key[i % 4] for i, b in enumerate(payload))`
unfoldable pub mask_bytes : MaskKey → List ℕ → List ℕ
mask_bytes k [] = []
mask_bytes k (b ∷ bs) = bit_xor b k.k0 ∷ mask_bytes (rotate k) bs

-- `_mask`
unfoldable pub mask : MaskKey → List ℕ → List ℕ
unfolding mask_bytes
mask k payload = k.k0 ∷ k.k1 ∷ k.k2 ∷ k.k3 ∷ mask_bytes k payload

-- The length field behind the first byte; `top` is the mask bit.
unfoldable pub length_field : ℕ → ℕ → List ℕ
unfolding pack
length_field top n =
    if ltb n 126
    then (top + n) ∷ []
    else if ltb n (2 ^ 16)
    then (top + 126) ∷ pack 2 n
    else (top + 127) ∷ pack 8 n

-- `_frame`
unfoldable pub frame : MaskKey → ℕ → List ℕ → List ℕ
unfolding length_field mask
frame k opcode payload = (128 + opcode) ∷ length_field 128 (length payload) ++ mask k payload

-- `_read_exact`: nothing where the connection closes before
unfoldable pub read_exact : ℕ → List ℕ → Option (List ℕ × List ℕ)
read_exact zero buffer = some ([], buffer)
read_exact (suc n) [] = none
read_exact (suc n) (b ∷ bs) = elim (read_exact n bs) [
  | none ↦ none
  | some (bytes, rest) ↦ some (b ∷ bytes, rest)
]

pub record Header : Type 0 where
  pub fin : Bool
  pub opcode : ℕ
  pub size : ℕ

abbrev pub wide : Bool → ℕ → Option (List ℕ × List ℕ) → Option (Header × List ℕ)
wide fin opcode none = none
wide fin opcode (some (bytes, rest)) =
    some (record { fin = fin; opcode = opcode; size = unpack 0 bytes }, rest)

-- The start of a frame: `first & 0x80`, `first & 0x0F`, `second & 0x7F` and the wide length.
unfoldable pub read_header : List ℕ → Option (Header × List ℕ)
unfolding read_exact unpack
read_header (first ∷ second ∷ rest) =
    let fin = not (nat_beq (first / 128 % 2) 0) in
    let opcode = first % 16 in
    let size = second % 128 in
    if nat_beq size 126
    then wide fin opcode (read_exact 2 rest)
    else if nat_beq size 127
    then wide fin opcode (read_exact 8 rest)
    else some (record { fin = fin; opcode = opcode; size = size }, rest)
read_header _ = none

pub data Failure : Type 0 where
  cut : Failure
  closed : Failure
  too_large : Failure
  interleaved : Failure
  unexpected : Failure
  unsupported : ℕ → Failure

-- What `recv_text` ends with, and the payloads of the pongs that it has sent.
pub data Received : Type 0 where
  message : List ℕ → List ℕ → List (List ℕ) → Received
  failure : Failure → List (List ℕ) → Received

-- What one frame does to the message so far.
pub data Turn : Type 0 where
  go_on : List ℕ → Bool → List (List ℕ) → Turn
  stop : Failure → Turn

abbrev pub is_data : ℕ → Bool
is_data opcode = if nat_beq opcode op_text then true else nat_beq opcode op_binary

-- The branches on the opcode, for a frame with its payload.
unfoldable pub take_frame : Header → List ℕ → List ℕ → Bool → List (List ℕ) → Turn
take_frame h payload sofar expecting pongs =
    if nat_beq h.opcode op_ping
    then go_on sofar expecting (pongs ++ payload ∷ [])
    else if nat_beq h.opcode op_pong
    then go_on sofar expecting pongs
    else if nat_beq h.opcode op_close
    then stop closed
    else if is_data h.opcode
    then if expecting then stop interleaved else go_on (sofar ++ payload) (not h.fin) pongs
    else if nat_beq h.opcode op_continuation
    then if expecting then go_on (sofar ++ payload) (not h.fin) pongs else stop unexpected
    else stop (unsupported h.opcode)

-- `continue` of a control frame goes round again, whatever is expected.
abbrev pub is_control : ℕ → Bool
is_control opcode = if nat_beq opcode op_ping then true else nat_beq opcode op_pong

-- The loop of `recv_text`; the fuel bounds the number of frames, which the source does not bound.
unfoldable pub recv_loop : ℕ → ℕ → List ℕ → Bool → List (List ℕ) → List ℕ → Option Received
unfolding read_header take_frame
recv_loop zero limit sofar expecting pongs buffer = none
recv_loop (suc fuel) limit sofar expecting pongs buffer = elim (read_header buffer) [
  | none ↦ some (failure cut pongs)
  | some (h, rest) ↦ elim (ltb limit (h.size + length sofar)) [
    | true ↦ some (failure too_large pongs)
    | false ↦ elim (read_exact h.size rest) [
      | none ↦ some (failure cut pongs)
      | some (payload, rest') ↦ elim (take_frame h payload sofar expecting pongs) [
        | stop e ↦ some (failure e pongs)
        | go_on sofar' expecting' pongs' ↦ elim (if is_control h.opcode then true else expecting') [
          | true ↦ recv_loop fuel limit sofar' expecting' pongs' rest'
          | false ↦ some (message sofar' rest' pongs')
        ]
      ]
    ]
  ]
]

-- `recv_text`, up to the decoding of the message, on a connection that delivers `buffer` and closes.
-- The source waits on for as long as frames arrive, and every frame takes two bytes at least.
unfoldable pub recv : ℕ → List ℕ → Option Received
unfolding recv_loop
recv limit buffer = recv_loop (suc (length buffer)) limit [] false [] buffer
