-- ===== src/Net/Frames/Messages.antt =====
-- util/ws.py: whole messages, in fragments and with control frames between them.
use mathlib.Core.List.{append_assoc, append-nil}
use py_burly_bot.Common.{
  ℕ, suc, ◌+◌, ◌-◌, ◌^◌, ◌≤◌, ◌<◌, Bool, true, false, List, [], ◌∷◌, ◌++◌, some, ◌≡◌, refl, ◌∙◌, ap,
  arith, length, length-append, All, if◌then◌else◌,
}
use py_burly_bot.Net.Frames.{
  op_continuation, op_text, op_ping, op_pong, message, take_frame, recv_loop, recv,
}
use py_burly_bot.Net.Frames.Sent.{server_frame, turn, recv_loop-server_frame}

pub data Control : Type 0 where
  ping pong : List ℕ → Control

-- A fragment of the text, and the control frames before it.
pub record Part : Type 0 where
  pub before : List Control
  pub text : List ℕ

abbrev pub payload_of : Control → List ℕ
payload_of (ping bs) = bs
payload_of (pong bs) = bs

abbrev pub control_opcode : Control → ℕ
control_opcode (ping bs) = op_ping
control_opcode (pong bs) = op_pong

unfoldable pub controls_bytes : List Control → List ℕ
unfolding server_frame
controls_bytes [] = []
controls_bytes (c ∷ cs) = server_frame true (control_opcode c) (payload_of c) ++ controls_bytes cs

-- The payloads that the pings want back.
unfoldable pub answers : List Control → List (List ℕ)
answers [] = []
answers (ping bs ∷ cs) = bs ∷ answers cs
answers (pong bs ∷ cs) = answers cs

abbrev pub part_opcode : Bool → ℕ
part_opcode started = if started then op_continuation else op_text

-- A message of a first part and more of them; only the last frame has the final bit.
unfoldable pub parts_bytes : Bool → Part → List Part → List ℕ
unfolding controls_bytes
parts_bytes started p [] = controls_bytes p.before ++ server_frame true (part_opcode started) p.text
parts_bytes started p (q ∷ ps) =
    controls_bytes p.before
    ++ (server_frame false (part_opcode started) p.text ++ parts_bytes true q ps)

abbrev pub text_of : Part → List Part → List ℕ
text_of p [] = p.text
text_of p (q ∷ ps) = p.text ++ text_of q ps

abbrev pub answers_of : Part → List Part → List (List ℕ)
answers_of p [] = answers p.before
answers_of p (q ∷ ps) = answers p.before ++ answers_of q ps

-- the fuel for the control frames, and `fuel` more
abbrev after_controls : List Control → ℕ → ℕ
after_controls [] fuel = fuel
after_controls (c ∷ cs) fuel = suc (after_controls cs fuel)

abbrev after_parts : Part → List Part → ℕ → ℕ
after_parts p [] fuel = after_controls p.before (suc fuel)
after_parts p (q ∷ ps) fuel = after_controls p.before (suc (after_parts q ps fuel))

-- RFC 6455 bounds the payload of a control frame by 125 bytes.
abbrev pub IsShort : Control → Type 0
IsShort c = length (payload_of c) ≤ 125

abbrev pub AreShort : Part → List Part → Type 0
AreShort p [] = All IsShort p.before
AreShort p (q ∷ ps) = All IsShort p.before × AreShort q ps

append_three : (a b c rest : List ℕ) → (a ++ (b ++ c)) ++ rest ≡ a ++ (b ++ (c ++ rest))
append_three a b c rest = append_assoc a (b ++ c) rest ∙ ap (λ t. a ++ t) (append_assoc b c rest)

three_long :
    (a b c : List ℕ) (x z : ℕ)
    → x ≤ length a + suc z
    → 1 ≤ length b
    → z ≤ length c
    → x ≤ length (a ++ (b ++ c))
three_long a b c x z ha hb hc =
    omega (arith, ha, hb, hc, length-append a (b ++ c), length-append b c)

recv_loop-control :
    (c : Control) (fuel limit : ℕ) (sofar : List ℕ) (expecting : Bool) (pongs : List (List ℕ))
    (rest : List ℕ)
    → length (payload_of c) + length sofar ≤ limit
    → length (payload_of c) < 2 ^ 64
    → recv_loop
        (suc fuel)
        limit
        sofar
        expecting
        pongs
        (server_frame true (control_opcode c) (payload_of c) ++ rest)
      ≡ recv_loop fuel limit sofar expecting (pongs ++ answers (c ∷ [])) rest
unfolding answers turn take_frame
recv_loop-control (ping bs) fuel limit sofar expecting pongs rest fits short =
    recv_loop-server_frame fuel limit sofar expecting pongs true op_ping bs rest (omega arith) short
      fits
recv_loop-control (pong bs) fuel limit sofar expecting pongs rest fits short =
    recv_loop-server_frame fuel limit sofar expecting pongs true op_pong bs rest (omega arith) short
      fits
    ∙ rw (append-nil pongs) refl

answers-cons : (c : Control) (cs : List Control) → answers (c ∷ cs) ≡ answers (c ∷ []) ++ answers cs
unfolding answers
answers-cons (ping bs) cs = refl
answers-cons (pong bs) cs = refl

recv_loop-controls :
    (cs : List Control) (fuel limit : ℕ) (sofar : List ℕ) (expecting : Bool) (pongs : List (List ℕ))
    (rest : List ℕ)
    → All IsShort cs
    → length sofar + 125 ≤ limit
    → recv_loop (after_controls cs fuel) limit sofar expecting pongs (controls_bytes cs ++ rest)
      ≡ recv_loop fuel limit sofar expecting (pongs ++ answers cs) rest
unfolding controls_bytes
recv_loop-controls [] fuel limit sofar expecting pongs rest short fits =
    unfold answers in rw (append-nil pongs) refl
recv_loop-controls (c ∷ cs) fuel limit sofar expecting pongs rest short fits =
    ap (λ b. recv_loop (suc (after_controls cs fuel)) limit sofar expecting pongs b)
      (append_assoc (server_frame true (control_opcode c) (payload_of c)) (controls_bytes cs) rest)
    ∙ recv_loop-control c (after_controls cs fuel) limit sofar expecting pongs
        (controls_bytes cs ++ rest) (omega (arith, short.0)) (omega (arith, short.0))
    ∙ recv_loop-controls cs fuel limit sofar expecting (pongs ++ answers (c ∷ [])) rest short.1 fits
    ∙ rw (answers-cons c cs, append_assoc pongs (answers (c ∷ [])) (answers cs)) refl

part_opcode-lt : (started : Bool) → part_opcode started < 16
part_opcode-lt started = ground arith

recv_loop-part :
    (fin started : Bool) (text : List ℕ) (fuel limit : ℕ) (sofar : List ℕ) (pongs : List (List ℕ))
    (rest : List ℕ)
    → length text + length sofar ≤ limit
    → length text < 2 ^ 64
    → recv_loop
        (suc fuel)
        limit
        sofar
        started
        pongs
        (server_frame fin (part_opcode started) text ++ rest)
      ≡ (if fin
          then some (message (sofar ++ text) rest pongs)
          else recv_loop fuel limit (sofar ++ text) true pongs rest)
unfolding turn take_frame
recv_loop-part true true text fuel limit sofar pongs rest fits short =
    recv_loop-server_frame fuel limit sofar true pongs true 0 text rest (omega arith) short fits
recv_loop-part true false text fuel limit sofar pongs rest fits short =
    recv_loop-server_frame fuel limit sofar false pongs true 1 text rest (omega arith) short fits
recv_loop-part false true text fuel limit sofar pongs rest fits short =
    recv_loop-server_frame fuel limit sofar true pongs false 0 text rest (omega arith) short fits
recv_loop-part false false text fuel limit sofar pongs rest fits short =
    recv_loop-server_frame fuel limit sofar false pongs false 1 text rest (omega arith) short fits

recv_loop-parts :
    (p : Part) (ps : List Part) (fuel limit : ℕ) (sofar : List ℕ) (started : Bool)
    (pongs : List (List ℕ)) (rest : List ℕ)
    → AreShort p ps
    → length sofar + length (text_of p ps) + 125 ≤ limit
    → limit < 2 ^ 64
    → recv_loop (after_parts p ps fuel) limit sofar started pongs (parts_bytes started p ps ++ rest)
      ≡ some (message (sofar ++ text_of p ps) rest (pongs ++ answers_of p ps))
unfolding parts_bytes
recv_loop-parts p [] fuel limit sofar started pongs rest short fits wide =
    ap (λ b. recv_loop (after_controls p.before (suc fuel)) limit sofar started pongs b)
      (append_assoc (controls_bytes p.before) (server_frame true (part_opcode started) p.text) rest)
    ∙ recv_loop-controls p.before (suc fuel) limit sofar started pongs _ short (omega (arith, fits))
    ∙ recv_loop-part true started p.text fuel limit sofar (pongs ++ answers p.before) rest
        (omega (arith, fits)) (omega (arith, fits, wide))
recv_loop-parts p (q ∷ ps) fuel limit sofar started pongs rest short fits wide =
    let total = length-append p.text (text_of q ps) in
    let grown = length-append sofar p.text in
    ap
      (λ b.
        recv_loop (after_controls p.before (suc (after_parts q ps fuel))) limit sofar started pongs
          b)
      (append_three (controls_bytes p.before) (server_frame false (part_opcode started) p.text)
        (parts_bytes true q ps) rest)
    ∙ recv_loop-controls p.before (suc (after_parts q ps fuel)) limit sofar started pongs _ short.0
        (omega (arith, fits))
    ∙ recv_loop-part false started p.text (after_parts q ps fuel) limit sofar
        (pongs ++ answers p.before) (parts_bytes true q ps ++ rest) (omega (arith, fits, total))
        (omega (arith, fits, wide, total))
    ∙ recv_loop-parts q ps fuel limit (sofar ++ p.text) true (pongs ++ answers p.before) rest
        short.1 (omega (arith, fits, total, grown)) wide
    ∙ rw
        (
          append_assoc sofar p.text (text_of q ps),
          append_assoc pongs (answers p.before) (answers_of q ps),
        )
        refl

after_controls-split :
    (cs : List Control) (f g : ℕ) → after_controls cs f + g ≡ after_controls cs (f + g)
after_controls-split [] f g = refl
after_controls-split (c ∷ cs) f g = omega (arith, after_controls-split cs f g)

after_parts-split :
    (p : Part) (ps : List Part) (f g : ℕ) → after_parts p ps f + g ≡ after_parts p ps (f + g)
after_parts-split p [] f g =
    after_controls-split p.before (suc f) g ∙ ap (after_controls p.before) (omega arith)
after_parts-split p (q ∷ ps) f g =
    after_controls-split p.before (suc (after_parts q ps f)) g
    ∙ ap (after_controls p.before) (omega (arith, after_parts-split q ps f g))

server_frame-long :
    (fin : Bool) (opcode : ℕ) (payload : List ℕ) → 1 ≤ length (server_frame fin opcode payload)
unfolding server_frame
server_frame-long fin opcode payload = omega arith

controls_bytes-long :
    (cs : List Control) (f : ℕ) → after_controls cs f ≤ length (controls_bytes cs) + f
unfolding controls_bytes
controls_bytes-long [] f = omega arith
controls_bytes-long (c ∷ cs) f = omega (
  arith,
  controls_bytes-long cs f,
  length-append (server_frame true (control_opcode c) (payload_of c)) (controls_bytes cs),
  server_frame-long true (control_opcode c) (payload_of c),
)

-- There is no more frames than bytes.
parts_bytes-long :
    (started : Bool) (p : Part) (ps : List Part)
    → after_parts p ps 0 ≤ length (parts_bytes started p ps)
unfolding parts_bytes
parts_bytes-long started p [] = omega (
  arith,
  controls_bytes-long p.before 1,
  length-append (controls_bytes p.before) (server_frame true (part_opcode started) p.text),
  server_frame-long true (part_opcode started) p.text,
)
parts_bytes-long started p (q ∷ ps) =
    three_long (controls_bytes p.before) (server_frame false (part_opcode started) p.text)
      (parts_bytes true q ps) _ _ (controls_bytes-long p.before (suc (after_parts q ps 0)))
      (server_frame-long false (part_opcode started) p.text) (parts_bytes-long true q ps)

-- A text that the server sends in fragments, with pings and pongs of at most 125 bytes between them,
-- is received whole, where it is 125 bytes below a limit that is below 2 ^ 64: every ping is
-- answered with its payload, in order, and what follows the text stays unread.
pub recv-parts :
    (limit : ℕ) (p : Part) (ps : List Part) (rest : List ℕ)
    → AreShort p ps
    → length (text_of p ps) + 125 ≤ limit
    → limit < 2 ^ 64
    → recv limit (parts_bytes false p ps ++ rest)
      ≡ some (message (text_of p ps) rest (answers_of p ps))
unfolding recv
recv-parts limit p ps rest short fits wide =
    let total = length-append (parts_bytes false p ps) rest in
    let spare = suc (length (parts_bytes false p ps ++ rest)) - after_parts p ps 0 in
    let enough : suc (length (parts_bytes false p ps ++ rest)) ≡ after_parts p ps spare =
      omega (arith, total, parts_bytes-long false p ps)
      ∙ after_parts-split p ps 0 spare
      ∙ ap (after_parts p ps) (omega arith) in
    ap (λ n. recv_loop n limit [] false [] (parts_bytes false p ps ++ rest)) enough
    ∙ recv_loop-parts p ps spare limit [] false [] rest short (omega (arith, fits)) wide
