-- ===== src/Client/Tags/RoundTrip.antt =====
-- util/client.py: tags as a server writes them.
use py_burly_bot.Common.{
  ℕ, false, List, [], ◌∷◌, ◌++◌, Option, none, some, Text, text_eq, Dict, insert, merge,
  if◌then◌else◌, nat_beq, join_with, split_on-join_with, IsWithout, map, All, ◌≡◌, refl, ap, ◌∙◌,
  arith,
}
use py_burly_bot.Client.Masks.{split_at, equals, at_sign}
use py_burly_bot.Client.Tags.{
  backslash, semicolon, space, replacement, unescape, tag, store, parse_tags,
}

-- The escapes of IRCv3 message tags.
unfoldable pub escape : Text → Text
escape [] = []
escape (c ∷ cs) =
    let rest = escape cs in
    if nat_beq c semicolon
    then backslash ∷ 58 ∷ rest
    else if nat_beq c space
    then backslash ∷ 115 ∷ rest
    else if nat_beq c backslash
    then backslash ∷ backslash ∷ rest
    else if nat_beq c 13
    then backslash ∷ 114 ∷ rest
    else if nat_beq c 10
    then backslash ∷ 110 ∷ rest
    else c ∷ rest

-- A tag with its key, and `=` and the value where it has one.
abbrev pub item_of : Text × Option Text → Text
item_of (key, none) = key
item_of (key, some value) = key ++ equals ∷ escape value

abbrev pub line_of : Text × Option Text → List (Text × Option Text) → Text → Text
line_of t tags rest =
    at_sign ∷ (join_with (semicolon ∷ []) (map item_of (t ∷ tags)) ++ space ∷ rest)

unescape-other :
    (c : ℕ) (cs : Text) → nat_beq c backslash ≡ false → unescape (c ∷ cs) ≡ c ∷ unescape cs
unfolding unescape
unescape-other c [] h = refl
unescape-other c (d ∷ cs) h = rw (unescape, h) refl

unescape-escaped :
    (d c : ℕ) (cs : Text) → replacement d ≡ c → unescape (backslash ∷ d ∷ cs) ≡ c ∷ unescape cs
unfolding unescape
unescape-escaped d c cs h = ap (λ x. x ∷ unescape cs) h

unescape-escape : (value : Text) → unescape (escape value) ≡ value
unfolding escape replacement
unescape-escape [] = unfold unescape in refl
unescape-escape (c ∷ cs) = ground (
  arith,
  unescape-escape cs,
  unescape-other c (escape cs),
  unescape-escaped 58 semicolon (escape cs) refl,
  unescape-escaped 115 space (escape cs) refl,
  unescape-escaped backslash backslash (escape cs) refl,
  unescape-escaped 114 13 (escape cs) refl,
  unescape-escaped 110 10 (escape cs) refl,
)

escape-IsWithout :
    (value : Text) → IsWithout semicolon (escape value) × IsWithout space (escape value)
unfolding escape
escape-IsWithout [] = (tt, tt)
escape-IsWithout (c ∷ cs) = ground (arith, escape-IsWithout cs)

split_at-first :
    (sep : ℕ) (x rest : Text) → IsWithout sep x → split_at sep (x ++ sep ∷ rest) ≡ some (x, rest)
unfolding split_at
split_at-first sep [] rest h = ground (arith)
split_at-first sep (c ∷ cs) rest h = ground (arith, split_at-first sep cs rest h.1, h.0)

split_at-none : (sep : ℕ) (x : Text) → IsWithout sep x → split_at sep x ≡ none
unfolding split_at
split_at-none sep [] h = refl
split_at-none sep (c ∷ cs) h = ground (arith, split_at-none sep cs h.1, h.0)

-- A key has no `=`, no `;` and no space.
abbrev pub IsKey : Text × Option Text → Type 0
IsKey t = IsWithout equals t.0 × IsWithout semicolon t.0 × IsWithout space t.0

append-IsWithout : (c : ℕ) (x y : Text) → IsWithout c x → IsWithout c y → IsWithout c (x ++ y)
append-IsWithout c [] y h k = k
append-IsWithout c (d ∷ ds) y h k = (h.0, append-IsWithout c ds y h.1 k)

tag-item_of : (t : Text × Option Text) → IsKey t → tag (item_of t) ≡ t
unfolding tag
tag-item_of (key, none) h = rw (tag, split_at-none equals key h.0) refl
tag-item_of (key, some value) h =
    rw (tag, split_at-first equals key (escape value) h.0, unescape-escape value) refl

item_of-IsWithout :
    (t : Text × Option Text)
    → IsKey t
    → IsWithout semicolon (item_of t) × IsWithout space (item_of t)
item_of-IsWithout (key, none) h = (h.1, h.2)
item_of-IsWithout (key, some value) h = (
  append-IsWithout semicolon key (equals ∷ escape value) h.1 (refl, (escape-IsWithout value).0),
  append-IsWithout space key (equals ∷ escape value) h.2 (refl, (escape-IsWithout value).1),
)

items-IsWithout :
    (tags : List (Text × Option Text))
    → All IsKey tags
    → All (IsWithout semicolon) (map item_of tags)
items-IsWithout [] h = tt
items-IsWithout (t ∷ tags) h = ((item_of-IsWithout t h.0).0, items-IsWithout tags h.1)

join_with-IsWithout :
    (x : Text) (xs : List Text)
    → IsWithout space x
    → All (IsWithout space) xs
    → IsWithout space (join_with (semicolon ∷ []) (x ∷ xs))
unfolding join_with
join_with-IsWithout x [] h hs = h
join_with-IsWithout x (y ∷ ys) h hs =
    append-IsWithout space x (semicolon ∷ join_with (semicolon ∷ []) (y ∷ ys)) h
      (refl, join_with-IsWithout y ys hs.0 hs.1)

spaces-IsWithout :
    (tags : List (Text × Option Text)) → All IsKey tags → All (IsWithout space) (map item_of tags)
spaces-IsWithout [] h = tt
spaces-IsWithout (t ∷ tags) h = ((item_of-IsWithout t h.0).1, spaces-IsWithout tags h.1)

store-merge :
    (tags : List (Text × Option Text)) (d : Dict Text (Option Text))
    → All IsKey tags
    → store (map item_of tags) d ≡ merge tags d
unfolding merge
store-merge [] d h = refl
store-merge (t ∷ tags) d h =
    ap (λ p. store (map item_of tags) (insert p.0 p.1 d)) (tag-item_of t h.0)
    ∙ store-merge tags (insert t.0 t.1 d) h.1

-- A line in front of which a server writes one tag or more, with keys that have no `=`, `;` or space
-- and any values, escaped by IRCv3, is parsed as those tags, the last of equal keys counting, and the
-- line behind them.
pub parse_tags-line_of :
    (t : Text × Option Text) (tags : List (Text × Option Text)) (rest : Text)
    → IsKey t
    → All IsKey tags
    → parse_tags (line_of t tags rest) ≡ some (merge (t ∷ tags) [], rest)
unfolding parse_tags
parse_tags-line_of t tags rest h hs =
    let items = join_with (semicolon ∷ []) (map item_of (t ∷ tags)) in
    rw
      (
        parse_tags,
        split_at-first space items rest (
            join_with-IsWithout (item_of t) (map item_of tags) (item_of-IsWithout t h).1
              (spaces-IsWithout tags hs)),
        split_on-join_with semicolon (item_of t) (map item_of tags) (item_of-IsWithout t h).0
            (items-IsWithout tags hs),
      )
      (ap (λ d. some (d, rest)) (store-merge (t ∷ tags) [] (h, hs)))
