-- ===== src/Client/Tags.antt =====
-- util/client.py: the tags in front of a message.
pub mod RoundTrip
use py_burly_bot.Common.{
  ℕ, Bool, true, false, List, [], ◌∷◌, ◌++◌, Option, none, some, Text, text_eq, codes, Dict, insert,
  if◌then◌else◌, nat_beq, split_on,
}
use py_burly_bot.Client.Masks.{split_at, equals, at_sign}

abbrev pub backslash : ℕ
backslash = 92

abbrev pub semicolon : ℕ
semicolon = 59

abbrev pub space : ℕ
space = 32

-- `replacements.get(c, c)`
unfoldable pub replacement : ℕ → ℕ
replacement c =
    if nat_beq c 58
    then semicolon
    else if nat_beq c 115
    then space
    else if nat_beq c 114
    then 13
    else if nat_beq c 110
    then 10
    else c

-- `_unescape_message_tag`
unfoldable pub unescape : Text → Text
unfolding replacement
unescape [] = []
unescape (c ∷ []) = c ∷ []
unescape (c ∷ d ∷ cs) = elim (nat_beq c backslash) [
  | true ↦ replacement d ∷ unescape cs
  | false ↦ c ∷ unescape (d ∷ cs)
]

-- One item, by `item.partition("=")`.
unfoldable pub tag : Text → Text × Option Text
unfolding split_at unescape
tag item = elim (split_at equals item) [
  | none ↦ (item, none)
  | some (key, value) ↦ (key, some (unescape value))
]

abbrev pub store : List Text → Dict Text (Option Text) → Dict Text (Option Text)
store [] tags = tags
store (item ∷ items) tags = let (key, value) = tag item in store items (insert key value tags)

-- `_parse_message_tags`; nothing is the `ValueError` of a line that ends with its tags
unfoldable pub parse_tags : Text → Option (Dict Text (Option Text) × Text)
unfolding tag split_on
parse_tags [] = some ([], [])
parse_tags (c ∷ line) =
    if nat_beq c at_sign
    then elim (split_at space line) as (λ _. Option (Dict Text (Option Text) × Text)) [
      | none ↦ none
      | some (tags, rest) ↦ some (store (split_on semicolon [] tags) [], rest)
    ]
    else some ([], c ∷ line)
