-- ===== src/Net/Frames/Limits.antt =====
-- util/ws.py: how long a received message is, and where the loop ends.
use py_burly_bot.Common.{
  ℕ, zero, suc, ◌+◌, ◌≤◌, ◌<◌, Bool, true, false, List, [], ◌∷◌, ◌++◌, ◌∙◌, Option, none, some, ◌≡◌,
  refl, arith, inl, inr, Bool-cases, Option-cases, if◌then◌else◌, ltb, length, length-append, ◌⊎◌,
}
use py_burly_bot.Net.Frames.Sent.{server_frame, turn, recv_loop-server_frame}
use py_burly_bot.Net.Frames.{
  op_ping, Header, Received, message, failure, Turn, go_on, stop, take_frame, is_control, recv_loop,
  recv, read_header, read_exact,
}

read_exact-length :
    (n : ℕ) (buffer xs rest : List ℕ)
    → read_exact n buffer ≡ some (xs, rest)
    → (length xs ≡ n) × (length rest + n ≡ length buffer)
unfolding read_exact
read_exact-length zero buffer xs rest h = ground arith
read_exact-length (suc n) [] xs rest h = absurd (cc)
read_exact-length (suc n) (b ∷ bs) xs rest h = elim (Option-cases (read_exact n bs)) [
  | inl e ↦ absurd (cc (rw (e, read_exact) at h))
  | inr ((ys, r), e) ↦ ground (arith, e, read_exact-length n bs ys r e)
]

read_header-length :
    (buffer : List ℕ) (h : Header) (rest : List ℕ)
    → read_header buffer ≡ some (h, rest)
    → length rest < length buffer
unfolding read_header
read_header-length [] h rest e = absurd (cc)
read_header-length (x ∷ []) h rest e = absurd (cc)
read_header-length (x ∷ y ∷ zs) h rest e = elim (Option-cases (read_exact 2 zs)) [
  | inl a ↦ elim (Option-cases (read_exact 8 zs)) [
    | inl b ↦ ground (arith, a, b)
    | inr ((xs, r), b) ↦ ground (arith, a, b, read_exact-length 8 zs xs r b)
  ]
  | inr ((ws, q), a) ↦ elim (Option-cases (read_exact 8 zs)) [
    | inl b ↦ ground (arith, a, b, read_exact-length 2 zs ws q a)
    | inr ((xs, r), b) ↦
        ground (arith, a, b, read_exact-length 2 zs ws q a, read_exact-length 8 zs xs r b)
  ]
]

take_frame-length :
    (h : Header) (payload sofar : List ℕ) (expecting : Bool) (pongs : List (List ℕ))
    (sofar' : List ℕ) (expecting' : Bool) (pongs' : List (List ℕ))
    → take_frame h payload sofar expecting pongs ≡ go_on sofar' expecting' pongs'
    → length sofar' ≤ length payload + length sofar
unfolding take_frame
take_frame-length h payload sofar expecting pongs sofar' expecting' pongs' e =
    ground (arith, length-append sofar payload)

-- An answer, where a message is within the limit.
abbrev IsAnswer : ℕ → Option Received → Type 0
IsAnswer limit none = ⊥
IsAnswer limit (some (message bytes rest pongs)) = length bytes ≤ limit
IsAnswer limit (some (failure e pongs)) = Unit

Turn-cases :
    (t : Turn)
    → ((e : _) × (t ≡ stop e))
      ⊎ ((s : List ℕ) × (b : Bool) × (ps : List (List ℕ)) × (t ≡ go_on s b ps))
Turn-cases (stop e) = inl (e, refl)
Turn-cases (go_on s b ps) = inr (s, b, ps, refl)

recv_loop-IsAnswer :
    (fuel limit : ℕ) (sofar : List ℕ) (expecting : Bool) (pongs : List (List ℕ)) (buffer : List ℕ)
    → length buffer < fuel
    → length sofar ≤ limit
    → IsAnswer limit (recv_loop fuel limit sofar expecting pongs buffer)
unfolding recv_loop
recv_loop-IsAnswer zero limit sofar expecting pongs buffer enough fits = absurd (omega arith)
recv_loop-IsAnswer (suc fuel) limit sofar expecting pongs buffer enough fits =
    elim (Option-cases (read_header buffer)) [
      | inl e ↦ rw (e, recv_loop) tt
      | inr ((h, rest), e) ↦ elim (Bool-cases (ltb limit (h.size + length sofar))) [
        | inl large ↦ rw (e, recv_loop, large) tt
        | inr small ↦ elim (Option-cases (read_exact h.size rest)) [
          | inl d ↦ rw (e, recv_loop, small, d) tt
          | inr ((payload, rest'), d) ↦
              elim (Turn-cases (take_frame h payload sofar expecting pongs)) [
                | inl (x, t) ↦ rw (e, recv_loop, small, d, t) tt
                | inr (s, b, ps, t) ↦
                    let within : length s ≤ limit = ground (
                      arith,
                      read_exact-length h.size rest payload rest' d,
                      take_frame-length h payload sofar expecting pongs s b ps t,
                    ) in
                    elim (Bool-cases (if is_control h.opcode then true else b)) [
                      | inl more ↦
                          rw (e, recv_loop, small, d, t, more)
                            (recv_loop-IsAnswer fuel limit s b ps rest'
                              (omega (
                                arith,
                                read_header-length buffer h rest e,
                                read_exact-length h.size rest payload rest' d,
                              ))
                              within)
                      | inr over ↦ rw (e, recv_loop, small, d, t, over) within
                    ]
              ]
        ]
      ]
    ]

-- `n` empty pings, one after the other, and what comes behind them.
unfoldable pub pings_before : ℕ → List ℕ → List ℕ
unfolding server_frame
pings_before zero rest = rest
pings_before (suc n) rest = server_frame true op_ping [] ++ pings_before n rest

recv_loop-pings :
    (n limit : ℕ) (pongs : List (List ℕ)) (rest : List ℕ)
    → recv_loop n limit [] false pongs (pings_before n rest) ≡ none
unfolding recv_loop pings_before turn take_frame
recv_loop-pings zero limit pongs rest = refl
recv_loop-pings (suc n) limit pongs rest =
    recv_loop-server_frame n limit [] false pongs true op_ping [] (pings_before n rest)
      (omega arith) (omega arith) (omega arith)
    ∙ recv_loop-pings n limit (pongs ++ [] ∷ []) rest

-- On a connection that delivers finitely many bytes and closes, `recv_text` ends, with a failure or
-- with a message that is no longer than the limit. It has no deadline of its own: whatever the number
-- of rounds, it has no answer after them where the connection begins with as many pings.
pub recv_ends :
    (limit : ℕ) (buffer : List ℕ)
    → ((r : Received) × (recv limit buffer ≡ some r)
        × ((bytes rest : List ℕ) (pongs : List (List ℕ))
            → r ≡ message bytes rest pongs
            → length bytes ≤ limit))
      × ((rounds : ℕ) → recv_loop rounds limit [] false [] (pings_before rounds buffer) ≡ none)
unfolding recv
recv_ends limit buffer = (
  named (recv_loop (suc (length buffer)) limit [] false [] buffer) (
      recv_loop-IsAnswer (suc (length buffer)) limit [] false [] buffer (omega arith)
        (omega arith)),
  λ rounds. recv_loop-pings rounds limit [] buffer,
)
  where
    named :
        (o : Option Received)
        → IsAnswer limit o
        → (r : Received) × (o ≡ some r)
          × ((bytes rest : List ℕ) (pongs : List (List ℕ))
              → r ≡ message bytes rest pongs
              → length bytes ≤ limit)
    named none a = absurd a
    named (some (message bytes rest pongs)) a =
        (message bytes rest pongs, refl, λ bs r ps e. ground (arith, e))
    named (some (failure e pongs)) a = (failure e pongs, refl, λ bs r ps h. absurd (cc))
