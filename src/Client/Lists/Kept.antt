-- ===== src/Client/Lists/Kept.antt =====
-- util/client.py: the tracked state after the replies about names, masks and topics.
use py_burly_bot.Common.{
  List, [], ◌∷◌, Option, none, some, Text, text_eq, lookup, erase, map, ◌≡◌, refl, ℕ,
}
use py_burly_bot.State.Model.{Network, Outcome, ok, raise}
use py_burly_bot.State.Modes.{addusers}
use py_burly_bot.State.Modes.Kept.{left_by, masks-IsTracked, addusers-IsTracked, settopic-IsTracked}
use py_burly_bot.State.Invariant.{IsTracked}
use py_burly_bot.Client.Status.{split_words}
use py_burly_bot.Client.Protocol.Kept.{IsSound}
use py_burly_bot.Client.Lists.Gathered.{state-list_reply}
use py_burly_bot.Client.Lists.{
  Kind, bans, excepts, invites, Entry, Lists, Told, buffer, put_buffer, or_empty, triple, add_masks,
  keep_outcome, close_list, list_end, named, names_reply, names_end, topic_reply, no_topic_reply,
  set_topic, Reply, of_list, end_of_list, of_names, end_of_names, topic, no_topic, handle_reply,
  list_told,
}

module _ (to_int : Text → Option ℕ) where
  keep_outcome-IsSound :
      (t : Told) (l : Lists) (o : Outcome Network)
      → IsTracked (left_by o)
      → IsSound (keep_outcome to_int t l o).0.state
  keep_outcome-IsSound t l (ok n) v = v
  keep_outcome-IsSound t l (raise x n) v = v

  add_masks-IsTracked :
      (kind : Kind) (channel : Text) (es : List Entry) (n : Network)
      → IsTracked n
      → IsTracked (left_by (add_masks to_int kind channel es n))
  add_masks-IsTracked bans channel es n v = (masks-IsTracked to_int channel (map triple es) n v).0
  add_masks-IsTracked excepts channel es n v =
      (masks-IsTracked to_int channel (map triple es) n v).1
  add_masks-IsTracked invites channel es n v =
      (masks-IsTracked to_int channel (map triple es) n v).2

  close_list-IsSound :
      (kind : Kind) (channel : Text) (l : Lists) (s : Option Network)
      → l.state ≡ s
      → IsSound s
      → IsSound (close_list to_int kind channel l s).0.state
  close_list-IsSound bans channel l none e v = rw e tt
  close_list-IsSound excepts channel l none e v = rw e tt
  close_list-IsSound invites channel l none e v = rw e tt
  close_list-IsSound kind channel l (some n) e v =
      keep_outcome-IsSound (list_told kind channel (or_empty (lookup channel (buffer kind l))))
        (put_buffer kind (erase channel (buffer kind l)) l)
        (add_masks to_int kind channel (or_empty (lookup channel (buffer kind l))) n)
        (add_masks-IsTracked kind channel (or_empty (lookup channel (buffer kind l))) n v)

  list_end-IsSound :
      (kind : Kind) (params : List Text) (l : Lists)
      → IsSound l.state
      → IsSound (list_end to_int kind params l).0.state
  unfolding list_end
  list_end-IsSound kind [] l v = v
  list_end-IsSound kind (x ∷ []) l v = v
  list_end-IsSound kind (x ∷ channel ∷ rest) l v = close_list-IsSound kind channel l l.state refl v

  named-IsSound :
      (channel : Text) (users : List Text) (l : Lists) (o : Outcome Network)
      → IsTracked (left_by o)
      → IsSound (named to_int channel users l o).0.state
  named-IsSound channel users l (ok n) v = v
  named-IsSound channel users l (raise x n) v = v

  names_reply-IsSound :
      (params : List Text) (l : Lists)
      → IsSound l.state
      → IsSound (names_reply to_int params l).0.state
  unfolding names_reply
  names_reply-IsSound [] l v = v
  names_reply-IsSound (x ∷ []) l v = v
  names_reply-IsSound (x ∷ y ∷ []) l v = v
  names_reply-IsSound (x ∷ y ∷ channel ∷ listed ∷ rest) l v = go l.state refl v
    where
      go :
          (s : Option Network)
          → l.state ≡ s
          → IsSound s
          → IsSound (names_reply to_int (x ∷ y ∷ channel ∷ listed ∷ rest) l).0.state
      go none e u = rw (e, names_reply) v
      go (some n) e v =
          rw (e, names_reply)
            (named-IsSound channel (split_words [] listed) (record l { state = some n })
              (addusers channel (split_words [] listed) n)
              (addusers-IsTracked channel (split_words [] listed) n v))
  names_reply-IsSound (x ∷ y ∷ z ∷ []) l v = v

  set_topic-IsSound :
      (prefix channel newtopic : Text) (l : Lists)
      → IsSound l.state
      → IsSound (set_topic to_int prefix channel newtopic l).0.state
  set_topic-IsSound prefix channel newtopic l v = go l.state refl v
    where
      go :
          (s : Option Network)
          → l.state ≡ s
          → IsSound s
          → IsSound (set_topic to_int prefix channel newtopic l).0.state
      go none e u = rw e v
      go (some n) e v = rw e (settopic-IsTracked channel newtopic _ _ _ none n v)

  -- Whatever reply comes, with whatever parameters, also one that the handler raises on, the tracked
  -- state stays well formed.
  pub handle_reply-IsSound :
      (r : Reply) (prefix : Text) (params : List Text) (l : Lists)
      → IsSound l.state
      → IsSound (handle_reply to_int r prefix params l).0.state
  unfolding handle_reply names_end topic_reply no_topic_reply
  handle_reply-IsSound (of_list kind) prefix params l v = rw (state-list_reply kind params l) v
  handle_reply-IsSound (end_of_list kind) prefix params l v = list_end-IsSound kind params l v
  handle_reply-IsSound of_names prefix params l v = names_reply-IsSound params l v
  handle_reply-IsSound end_of_names prefix [] l v = v
  handle_reply-IsSound end_of_names prefix (x ∷ []) l v = v
  handle_reply-IsSound end_of_names prefix (x ∷ channel ∷ rest) l v = v
  handle_reply-IsSound topic prefix [] l v = v
  handle_reply-IsSound topic prefix (x ∷ []) l v = v
  handle_reply-IsSound topic prefix (x ∷ y ∷ []) l v = v
  handle_reply-IsSound topic prefix (x ∷ channel ∷ newtopic ∷ rest) l v =
      set_topic-IsSound prefix channel newtopic l v
  handle_reply-IsSound no_topic prefix [] l v = v
  handle_reply-IsSound no_topic prefix (x ∷ []) l v = v
  handle_reply-IsSound no_topic prefix (x ∷ channel ∷ rest) l v =
      set_topic-IsSound prefix channel [] l v
