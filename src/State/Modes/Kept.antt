-- ===== src/State/Modes/Kept.antt =====
-- util/state.py: the tracked state after modes, masks, topics and NAMES lists.
use py_burly_bot.Common.{
  ℕ, ◌≡◌, refl, Bool, true, false, List, [], ◌∷◌, Option, none, some, Text, nat_eq, text_eq, arith,
  eq_iff, ◌∙◌, sym, lookup, insert, has_key, inl, inr, Option-cases, if◌then◌else◌,
}
use py_burly_bot.State.Prefixes.{PrefixMap}
use py_burly_bot.State.Model.{Channel, Network, Masks, Outcome, ok, raise, key_error}
use py_burly_bot.State.Membership.{userjoin}
use py_burly_bot.State.Views.{seat, seat-insert, seat-some, insert-IsNamed}
use py_burly_bot.State.Invariant.{IsTracked}
use py_burly_bot.State.Tracking.Join.{userjoin-IsTracked}
use py_burly_bot.State.Modes.{
  Mode, reset_mode_is, add_mode, remove_mode, add_modes, remove_modes, change_modes, put_channel,
  modechange, put_outcome, ◌then_do◌, settopic, processlist, set_masks, addinvites, addexcepts,
  addbans, rank_user, bare_nick, add_named, add_all, addusers, ranks_any,
}

-- What an operation leaves, whether it returns or raises.
abbrev pub left_by {ℓ} : {A : Type ℓ} → Outcome A → A
left_by (ok a) = a
left_by (raise e a) = a

-- Two channels with the same name and the same members.
record IsSameRoom (c d : Channel) : Type 0 where
  name : c.name ≡ d.name
  users : c.users ≡ d.users

put-IsTracked :
    (channel : Text) (c d : Channel) (n : Network)
    → lookup channel n.channels ≡ some d
    → IsSameRoom c d
    → IsTracked n
    → IsTracked (put_channel channel n c)
put-IsTracked channel c d n e same v =
    let seats : (k m : Text) → seat (insert channel c n.channels) k m ≡ seat n.channels k m = λ k m.
      ground (
        arith,
        seat-insert channel k m c n.channels,
        seat-some channel m d n.channels e,
        eq_iff channel k,
        same.users,
      ) in
    record {
      fresh = v.fresh;
      keyed = v.keyed;
      named =
          insert-IsNamed channel c n.channels (same.name ∙ v.named.at_name channel d e)
            (rw same.users (v.named.distinct channel d e)) v.named;
      known = λ k m r h. v.known k m r (sym (seats k m) ∙ h);
      listed = λ k m r h. v.listed k m r (sym (seats k m) ∙ h);
      seated = λ k m r h l. seats k m ∙ v.seated k m r h l;
      present = v.present;
    }

add_mode-same :
    (pm : PrefixMap) (nick : Option Text) (now : ℕ) (m : Mode) (c : Channel)
    → IsSameRoom (add_mode pm nick now m c) c
unfolding add_mode
add_mode-same pm nick now m c = record { name = ground arith; users = ground arith }

remove_mode-same : (pm : PrefixMap) (m : Mode) (c : Channel) → IsSameRoom (remove_mode pm m c) c
unfolding remove_mode
remove_mode-same pm m c = record { name = ground arith; users = ground arith }

IsSameRoom-trans : {a b c : Channel} → IsSameRoom a b → IsSameRoom b c → IsSameRoom a c
IsSameRoom-trans h k = record { name = h.name ∙ k.name; users = h.users ∙ k.users }

add_modes-same :
    (pm : PrefixMap) (nick : Option Text) (now : ℕ) (ms : List Mode) (c : Channel)
    → IsSameRoom (add_modes pm nick now ms c) c
unfolding add_modes
add_modes-same pm nick now [] c = record { name = refl; users = refl }
add_modes-same pm nick now (m ∷ ms) c =
    IsSameRoom-trans (add_modes-same pm nick now ms (add_mode pm nick now m c))
      (add_mode-same pm nick now m c)

remove_modes-same :
    (pm : PrefixMap) (ms : List Mode) (c : Channel) → IsSameRoom (remove_modes pm ms c) c
unfolding remove_modes
remove_modes-same pm [] c = record { name = refl; users = refl }
remove_modes-same pm (m ∷ ms) c =
    IsSameRoom-trans (remove_modes-same pm ms (remove_mode pm m c)) (remove_mode-same pm m c)

reset-same : (b : Bool) (c : Channel) → IsSameRoom (if b then reset_mode_is c else c) c
unfolding reset_mode_is
reset-same true c = record { name = refl; users = refl }
reset-same false c = record { name = refl; users = refl }

change_modes-same :
    (pm : Option PrefixMap) (nick : Option Text) (now : ℕ) (added removed : List Mode) (c : Channel)
    → IsSameRoom (left_by (change_modes pm nick now added removed c)) c
unfolding change_modes
change_modes-same none nick now [] [] c = record { name = refl; users = refl }
change_modes-same none nick now (m ∷ ms) removed c = record { name = refl; users = refl }
change_modes-same none nick now [] (m ∷ ms) c = record { name = refl; users = refl }
change_modes-same (some pm) nick now added removed c =
    IsSameRoom-trans (remove_modes-same pm removed (add_modes pm nick now added c))
      (add_modes-same pm nick now added c)

-- A mode change keeps the state well formed, also where it raises for want of a prefix map.
pub modechange-IsTracked :
    (channel : Text) (nick : Option Text) (now : ℕ) (added removed : List Mode) (reset : Bool)
    (n : Network)
    → IsTracked n
    → IsTracked (left_by (modechange channel nick now added removed reset n))
unfolding modechange
modechange-IsTracked channel nick now added removed reset n v =
    elim (Option-cases (lookup channel n.channels)) [
      | inl e ↦ rw (e, modechange) v
      | inr (c, e) ↦
          let c' = if reset then reset_mode_is c else c in
          rw (e, modechange)
            (put (change_modes n.prefixmap nick now added removed c') c e (
              IsSameRoom-trans (change_modes-same n.prefixmap nick now added removed c')
                (reset-same reset c)))
    ]
  where
    put :
        (o : Outcome Channel) (d : Channel)
        → lookup channel n.channels ≡ some d
        → IsSameRoom (left_by o) d
        → IsTracked (left_by (put_outcome channel n o))
    put (ok c) d e same = put-IsTracked channel c d n e same v
    put (raise x c) d e same = put-IsTracked channel c d n e same v

pub settopic-IsTracked :
    (channel topic : Text) (nick ident host hostmask : Option Text) (n : Network)
    → IsTracked n
    → IsTracked (settopic channel topic nick ident host hostmask n)
unfolding settopic
settopic-IsTracked channel topic nick ident host hostmask n v =
    elim (Option-cases (lookup channel n.channels)) [
      | inl e ↦ rw (e, settopic) v
      | inr (c, e) ↦
          rw (e, settopic)
            (put-IsTracked channel
              (record c { topic = topic; topicsetby = (nick, ident, host, hostmask) }) c n e
              (record { name = refl; users = refl }) v)
    ]

module _ {T : Type 0} (to_int : T → Option ℕ) where
  set_masks-IsTracked :
      (field : Masks → Channel → Channel) (channel : Text) (entries : List (Text × T × Option Text))
      (n : Network)
      → ((d : Masks) (c : Channel) → IsSameRoom (field d c) c)
      → IsTracked n
      → IsTracked (left_by (set_masks to_int field channel entries n))
  unfolding set_masks
  set_masks-IsTracked field channel entries n same v =
      elim (Option-cases (lookup channel n.channels)) [
        | inl e ↦ rw (e, set_masks) v
        | inr (c, e) ↦ elim (Option-cases (processlist to_int entries [])) [
          | inl x ↦ rw (e, set_masks, x) v
          | inr (d, x) ↦ rw (e, set_masks, x) (put-IsTracked channel (field d c) c n e (same d c) v)
        ]
      ]

  -- A list of bans, exceptions or invitations keeps the state well formed, also where a time that
  -- is no number raises.
  pub masks-IsTracked :
      (channel : Text) (entries : List (Text × T × Option Text)) (n : Network)
      → IsTracked n
      → IsTracked (left_by (addbans to_int channel entries n))
        × IsTracked (left_by (addexcepts to_int channel entries n))
        × IsTracked (left_by (addinvites to_int channel entries n))
  unfolding addbans addexcepts addinvites
  masks-IsTracked channel entries n v = (
    set_masks-IsTracked _ channel entries n (λ d c. record { name = refl; users = refl }) v,
    set_masks-IsTracked _ channel entries n (λ d c. record { name = refl; users = refl }) v,
    set_masks-IsTracked _ channel entries n (λ d c. record { name = refl; users = refl }) v,
  )

ranked-IsTracked :
    (channel nick : Text) (pm : PrefixMap) (prefix : ℕ) (c : Channel) (n : Network)
    → lookup channel n.channels ≡ some c
    → IsTracked n
    → (b : Bool) → IsTracked (if b then put_channel channel n (rank_user pm prefix nick c) else n)
unfolding rank_user
ranked-IsTracked channel nick pm prefix c n e v true =
    put-IsTracked channel (rank_user pm prefix nick c) c n e (record { name = refl; users = refl })
      v
ranked-IsTracked channel nick pm prefix c n e v false = v

add_named-IsTracked :
    (channel : Text) (pm : PrefixMap) (prefix : ℕ) (nick : Text) (n : Network)
    → IsTracked n
    → IsTracked (left_by (add_named channel pm prefix nick n))
unfolding add_named
add_named-IsTracked channel pm prefix nick n v =
    let m = userjoin channel nick none none none n in
    let w : IsTracked m = userjoin-IsTracked channel nick none none none n v in
    elim (Option-cases (lookup channel m.channels)) [
      | inl e ↦ rw (e, add_named) (unranked (ranks_any pm prefix) m w)
      | inr (c, e) ↦
          rw (e, add_named) (ranked-IsTracked channel nick pm prefix c m e w (ranks_any pm prefix))
    ]
  where
    unranked :
        (b : Bool) (m : Network)
        → IsTracked m
        → IsTracked (left_by (if b then raise key_error m else ok m))
    unranked true m w = w
    unranked false m w = w

add_all-IsTracked :
    (channel : Text) (pm : Option PrefixMap) (users : List Text) (n : Network)
    → IsTracked n
    → IsTracked (left_by (add_all channel pm users n))
unfolding add_all
add_all-IsTracked channel pm [] n v = v
add_all-IsTracked channel pm ([] ∷ users) n v = add_all-IsTracked channel pm users n v
add_all-IsTracked channel none ((prefix ∷ rest) ∷ users) n v = v
add_all-IsTracked channel (some pm) ((prefix ∷ rest) ∷ users) n v =
    chain (add_named channel pm prefix (bare_nick pm (prefix ∷ rest)) n)
      (add_named-IsTracked channel pm prefix (bare_nick pm (prefix ∷ rest)) n v)
      (add_all-IsTracked channel (some pm) users)
  where
    chain :
        (o : Outcome Network)
        → IsTracked (left_by o)
        → ((m : Network) → IsTracked m → IsTracked (left_by (add_all channel (some pm) users m)))
        → IsTracked (left_by (o then_do add_all channel (some pm) users))
    chain (ok m) w next = next m w
    chain (raise e m) w next = w

-- A NAMES list keeps the state well formed, also where it raises for want of a prefix map.
pub addusers-IsTracked :
    (channel : Text) (users : List Text) (n : Network)
    → IsTracked n
    → IsTracked (left_by (addusers channel users n))
unfolding addusers
addusers-IsTracked channel users n v = go (has_key channel n.channels)
  where
    go : (b : Bool) → IsTracked (left_by (if b then add_all channel n.prefixmap users n else ok n))
    go true = add_all-IsTracked channel n.prefixmap users n v
    go false = v
