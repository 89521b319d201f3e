-- ===== src/Examples/Logins.antt =====
-- util/client.py at work: a login with SASL, messages that are cut, and the tags of a message.
use py_burly_bot.Common.{
  ◌+◌, ◌≤◌, ◌≡◌, refl, false, none, some, List, [], ◌∷◌, ◌++◌, Text, codes, length, length-append,
  text_beq, arith, All, contains, text_eq, if◌then◌else◌, lstrip, merge,
}
use py_burly_bot.Dispatch.Commands.{is_space}
use py_burly_bot.Client.Masks.{split_at}
use py_burly_bot.Client.Status.{split_words}
use py_burly_bot.Client.Login.{
  Settings, LoginEvent, cap, challenge, success, register, run_login, cap_end, items_of,
  payload_parts,
}
use py_burly_bot.Client.Login.Ends.{times, run_register-IsEnded}
use py_burly_bot.Client.Login.Required.{run_register-IsWaiting}
use py_burly_bot.Client.Login.Payload.{collect, collect-payload_parts}
use py_burly_bot.Client.Sending.{
  Bytes, Difference, is_inner, backtrack, skip_inner, segments, split_encoded, trim, available,
  build_split, even, shared, divided, concat_bytes, assemble_list,
}
use py_burly_bot.Client.Sending.Segments.{Cut, segments-Cut}
use py_burly_bot.Client.Sending.Built.{build_split-bounded}
use py_burly_bot.Client.Sending.Fitted.{IsTemplate, length-concat_bytes, assemble_list-bounded}
use py_burly_bot.Client.Tags.{parse_tags}
use py_burly_bot.Client.Tags.RoundTrip.{line_of, parse_tags-line_of}

abbrev same : Text → Text
same t = t

abbrev settings : Settings
settings = record {
  sasl_username = some (codes "bot");
  sasl_password = some (codes "pw");
  sasl_authzid = none;
  password = none;
}

-- The capabilities, their acknowledgement, and the challenge.
abbrev opening : List LoginEvent
opening =
    cap (codes "*" ∷ codes "LS" ∷ codes "account-tag sasl" ∷ [])
    ∷ cap (codes "bot" ∷ codes "ACK" ∷ codes "account-tag sasl" ∷ [])
    ∷ challenge (codes "+" ∷ [])
    ∷ []

run_register-IsEnded_example :
    let s =
      run_login same same settings
        (opening ++ success ∷ success ∷ [])
        (register settings none (codes "Burly") (codes "bot") (codes "foo") (codes "bar")) in
    times cap_end s.sent ≡ (if s.cap_ended then 1 else 0)
run_register-IsEnded_example =
    run_register-IsEnded same same settings none (codes "Burly") (codes "bot") (codes "foo")
      (codes "bar") (opening ++ success ∷ success ∷ [])

run_register-IsWaiting_example :
    contains cap_end
      (run_login same same settings opening
        (register settings none (codes "Burly") (codes "bot") (codes "foo") (codes "bar"))).sent
    ≡ false
unfolding contains text_beq items_of split_words is_space split_at lstrip
run_register-IsWaiting_example =
    run_register-IsWaiting same same settings none (codes "Burly") (codes "bot") (codes "foo")
      (codes "bar") opening refl refl (refl, (refl, (tt, tt)))

collect-payload_parts_example :
    collect (payload_parts (codes "AGJvdABwdw==") ++ codes "next" ∷ [])
    ≡ some (codes "AGJvdABwdw==", codes "next" ∷ [])
collect-payload_parts_example =
    collect-payload_parts (codes "AGJvdABwdw==") (codes "next" ∷ []) (omega arith)

-- `a`, `ñ` in two bytes, `b`, and `€` in three.
abbrev text : Bytes
text = 97 ∷ 195 ∷ 177 ∷ 98 ∷ 226 ∷ 130 ∷ 172 ∷ []

segments-text : segments 2 2 text ≡ (97 ∷ []) ∷ (195 ∷ 177 ∷ []) ∷ []
unfolding segments backtrack skip_inner is_inner
segments-text = refl

segments-Cut_example : Cut 2 2 text (segments 2 2 text)
unfolding is_inner
segments-Cut_example = segments-Cut 2 2 text refl

abbrev safe : Bytes → Difference
safe c = record { have = 400; spent = length c }

-- The replacements go behind the template.
abbrev format : Bytes → List Bytes → Bytes
format s ys = s ++ concat_bytes ys

build_split-bounded_example :
    let ms = build_split same safe format (some 20) (codes "#a") (codes "hi\nyo") in
    (length ms ≤ 4) × All (λ m. length m + 20 ≤ 508) ms
build_split-bounded_example =
    build_split-bounded same safe format 19 (codes "#a") (codes "hi\nyo") (omega arith)
      (omega arith)

abbrev parts : List Bytes
parts = codes "ab" ∷ codes "cdefgh" ∷ []

behind_template : IsTemplate same safe format 19 (codes "x ") none parts
behind_template = record {
  once = λ ys. omega (arith, length-append (codes "x ") (concat_bytes ys), length-concat_bytes ys);
  quoted = omega arith;
}

put_together :
    assemble_list same safe format (some 20) even none (codes "x ") parts
    ≡ some (codes "x abcdefgh")
unfolding assemble_list available shared divided trim split_encoded
put_together = refl

assemble_list-bounded_example : length (codes "x abcdefgh") + 20 ≤ 508
assemble_list-bounded_example =
    assemble_list-bounded same safe format 19 even none (codes "x ") parts (codes "x abcdefgh")
      behind_template (omega arith) (omega arith) put_together

-- Two entries in one byte: the separator alone is longer.
even-overflow : shared even (some (codes ", ")) 1 parts ≡ some (codes ", " ∷ [] ∷ [])
unfolding shared divided trim split_encoded
even-overflow = refl

parse_tags-line_of_example :
    parse_tags (line_of (codes "t", some (codes "a;b c")) ((codes "x", none) ∷ []) (codes "PING"))
    ≡ some (merge ((codes "t", some (codes "a;b c")) ∷ (codes "x", none) ∷ []) [], codes "PING")
parse_tags-line_of_example =
    parse_tags-line_of (codes "t", some (codes "a;b c")) ((codes "x", none) ∷ []) (codes "PING")
      ((refl, tt), (refl, tt), (refl, tt)) (((refl, tt), (refl, tt), (refl, tt)), tt)
