-- ===== src/Client/Masks.antt =====
-- util/helpers.py: `processHostmask` and `irc_casefold`, the two ways in which the client reads who
-- has sent a message. `lower` is `str.lower`.
use py_burly_bot.Common.{ℕ, [], ◌∷◌, Option, none, some, Text, nat_beq, if◌then◌else◌, map}

pub record Hostmask : Type 0 where
  pub nick : Text
  pub ident : Text
  pub host : Text

abbrev pub bang : ℕ
bang = 33

abbrev pub at_sign : ℕ
at_sign = 64

abbrev pub put_before : ℕ → Option (Text × Text) → Option (Text × Text)
put_before c none = none
put_before c (some p) = some (c ∷ p.0, p.1)

abbrev pub equals : ℕ
equals = 61

-- `a, b = s.split(x, 1)`; nothing is the `ValueError`
unfoldable pub split_at : ℕ → Text → Option (Text × Text)
split_at x [] = none
split_at x (c ∷ cs) =
    let rest = split_at x cs in if nat_beq c x then some ([], cs) else put_before c rest

-- `processHostmask`
unfoldable pub process_hostmask : Text → Option Hostmask
unfolding split_at
process_hostmask h = elim (split_at bang h) [
  | none ↦ none
  | some (nick, rest) ↦ elim (split_at at_sign rest) [
    | none ↦ none
    | some (ident, host) ↦ some (record { nick = nick; ident = ident; host = host })
  ]
]

-- `str.maketrans("[]\\^", "{}|~")`
abbrev pub translate : ℕ → ℕ
translate c =
    if nat_beq c 91
    then 123
    else if nat_beq c 93
    then 125
    else if nat_beq c 92
    then 124
    else if nat_beq c 94
    then 126
    else c

-- `irc_casefold` with the mapping rfc1459
unfoldable pub irc_casefold : (Text → Text) → Text → Text
irc_casefold lower value = map translate (lower value)
