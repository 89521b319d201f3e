-- ===== src/Client/Lists/Gathered.antt =====
-- util/client.py: what is gathered between the pieces of a list and its end.
use mathlib.Core.Path.{subst}
use mathlib.Core.List.{append-nil, append_assoc}
use py_burly_bot.Common.{
  Bool, true, List, [], ◌∷◌, ◌++◌, Option, none, some, Text, text_eq, ◌==◌, Dict, lookup, erase,
  lookup-insert, lookup-erase, if◌then◌else◌, ◌≡◌, refl, sym, ◌∙◌, arith, inl, inr, Bool-cases,
  Option-cases, eq_iff, ℕ,
}
use py_burly_bot.State.Model.{Network, ok}
use py_burly_bot.Client.Lists.{
  Kind, bans, excepts, invites, Entry, Lists, Told, buffer, put_buffer, or_empty, report,
  process_list_reply, list_reply, add_masks, keep_outcome, close_list, end_list, list_end,
  list_told,
}

-- The entries for a channel among the replies, in order.
unfoldable pub entries_of : Text → List (List Text) → List Entry
entries_of channel [] = []
entries_of channel (ps ∷ replies) =
    let more = entries_of channel replies in
    elim (process_list_reply ps) [
      | none ↦ more
      | some (c, e, w) ↦ if c == channel then e ∷ more else more
    ]

unfoldable pub run_replies : Kind → List (List Text) → Lists → Lists
unfolding list_reply
run_replies kind [] l = l
run_replies kind (ps ∷ replies) l = run_replies kind replies (list_reply kind ps l).0

abbrev pub gathered : Kind → Text → Lists → List Entry
gathered kind channel l = or_empty (lookup channel (buffer kind l))

buffer-put_buffer :
    (kind : Kind) (d : Dict Text (List Entry)) (l : Lists) → buffer kind (put_buffer kind d l) ≡ d
buffer-put_buffer bans d l = refl
buffer-put_buffer excepts d l = refl
buffer-put_buffer invites d l = refl

buffer-report : (kind : Kind) (t : Told) (l : Lists) → buffer kind (report t l) ≡ buffer kind l
buffer-report bans t l = refl
buffer-report excepts t l = refl
buffer-report invites t l = refl

gathered-list_reply :
    (kind : Kind) (ps : List Text) (channel : Text) (l : Lists)
    → gathered kind channel (list_reply kind ps l).0
      ≡ (gathered kind channel l ++ entries_of channel (ps ∷ []))
unfolding list_reply entries_of
gathered-list_reply kind ps channel l = elim (Option-cases (process_list_reply ps)) [
  | inl p ↦ rw (p, list_reply, entries_of) (sym (append-nil (gathered kind channel l)))
  | inr ((c, e, w), p) ↦
      rw (p, list_reply, entries_of, buffer-report, buffer-put_buffer, lookup-insert)
        (elim (Bool-cases (c == channel)) [
          | inl same ↦ let at : c ≡ channel = (eq_iff c channel).0 same in rw (same, at) refl
          | inr other ↦ rw other (sym (append-nil (gathered kind channel l)))
        ])
]

-- What is gathered for a channel is what was there and then the entries that came for it, in order.
pub run_replies-gathered :
    (kind : Kind) (replies : List (List Text)) (channel : Text) (l : Lists)
    → gathered kind channel (run_replies kind replies l)
      ≡ gathered kind channel l ++ entries_of channel replies
unfolding run_replies
run_replies-gathered kind [] channel l =
    unfold entries_of in sym (append-nil (gathered kind channel l))
run_replies-gathered kind (ps ∷ replies) channel l =
    run_replies-gathered kind replies channel (list_reply kind ps l).0
    ∙ rw (gathered-list_reply kind ps channel l) (
        append_assoc (gathered kind channel l) (entries_of channel (ps ∷ []))
          (entries_of channel replies)
        ∙ rw (entries_of-cons channel ps replies) refl)
  where
    entries_of-cons :
        (channel : Text) (ps : List Text) (replies : List (List Text))
        → entries_of channel (ps ∷ []) ++ entries_of channel replies
          ≡ entries_of channel (ps ∷ replies)
    entries_of-cons channel ps replies = unfold entries_of in ground arith

state-put_buffer :
    (kind : Kind) (d : Dict Text (List Entry)) (l : Lists) → (put_buffer kind d l).state ≡ l.state
state-put_buffer bans d l = refl
state-put_buffer excepts d l = refl
state-put_buffer invites d l = refl

pub state-list_reply :
    (kind : Kind) (ps : List Text) (l : Lists) → (list_reply kind ps l).0.state ≡ l.state
unfolding list_reply
state-list_reply kind ps l = elim (Option-cases (process_list_reply ps)) [
  | inl p ↦ rw (p, list_reply) refl
  | inr ((c, e, w), p) ↦ rw (p, list_reply) (state-put_buffer kind _ l)
]

state-run_replies :
    (kind : Kind) (replies : List (List Text)) (l : Lists)
    → (run_replies kind replies l).state ≡ l.state
unfolding run_replies
state-run_replies kind [] l = refl
state-run_replies kind (ps ∷ replies) l =
    state-run_replies kind replies _ ∙ state-list_reply kind ps l

buffer-state :
    (kind : Kind) (s : Option Network) (l : Lists)
    → buffer kind (record l { state = s }) ≡ buffer kind l
buffer-state bans s l = refl
buffer-state excepts s l = refl
buffer-state invites s l = refl

module _ (to_int : Text → Option ℕ) where
  -- The handler returned with the network, and nothing is gathered any more.
  abbrev IsStored : Kind → Text → Network → Lists × Bool → Type 0
  IsStored kind channel n' (l, returned) =
      (returned ≡ true) × (l.state ≡ some n') × (gathered kind channel l ≡ [])

  keep_outcome-IsStored :
      (kind : Kind) (channel : Text) (t : Told) (l : Lists) (n' : Network)
      → IsStored kind channel n'
          (keep_outcome to_int t (put_buffer kind (erase channel (buffer kind l)) l) (ok n'))
  keep_outcome-IsStored kind channel t l n' =
      rw (buffer-report, buffer-state, buffer-put_buffer, lookup-erase)
        (refl, refl, ground (arith, eq_iff channel channel))

  end_list-IsStored :
      (kind : Kind) (channel : Text) (l : Lists) (n n' : Network)
      → l.state ≡ some n
      → add_masks to_int kind channel (gathered kind channel l) n ≡ ok n'
      → IsStored kind channel n' (end_list to_int kind channel l)
  end_list-IsStored kind channel l n n' e stored =
      subst (λ s. IsStored kind channel n' (close_list to_int kind channel l s)) (sym e)
        (subst
          (λ o. IsStored kind channel n' (
            keep_outcome to_int (list_told kind channel (gathered kind channel l))
              (put_buffer kind (erase channel (buffer kind l)) l) o))
          (sym stored)
          (keep_outcome-IsStored kind channel (list_told kind channel (gathered kind channel l)) l
            n'))

  -- Where nothing is gathered for a channel, the replies and the end of the list hand to the network
  -- the entries that came for the channel, in order, and leave nothing gathered for it.
  pub list_end-stored :
      (kind : Kind) (replies : List (List Text)) (x channel : Text) (rest : List Text) (l : Lists)
      (n n' : Network)
      → gathered kind channel l ≡ []
      → l.state ≡ some n
      → add_masks to_int kind channel (entries_of channel replies) n ≡ ok n'
      → ((list_end to_int kind (x ∷ channel ∷ rest) (run_replies kind replies l)).1 ≡ true)
        × ((list_end to_int kind (x ∷ channel ∷ rest) (run_replies kind replies l)).0.state
            ≡ some n')
        × (gathered kind channel
              (list_end to_int kind (x ∷ channel ∷ rest) (run_replies kind replies l)).0
            ≡ [])
  unfolding list_end
  list_end-stored kind replies x channel rest l n n' empty e stored =
      end_list-IsStored kind channel (run_replies kind replies l) n n'
        (state-run_replies kind replies l ∙ e)
        (rw (run_replies-gathered kind replies channel l, empty) stored)
