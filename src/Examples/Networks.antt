-- ===== src/Examples/Networks.antt =====
-- util/state.py at work on a small network.
use py_burly_bot.Common.{
  ℕ, ◌≡◌, refl, false, List, [], ◌∷◌, Option, none, some, Text, text_eq, codes, lookup, insert,
  erase, add, discard, text_beq, sort_texts, contains, any, not, ◌&&◌, ◌||◌,
}
use py_burly_bot.State.Prefixes.{PrefixMap, loadfromprefix}
use py_burly_bot.State.Model.{Network, Channel, update, new_network, new_channel, ok}
use py_burly_bot.State.Membership.{
  joinchannel, nukechannel, userjoin, userpart, userquit, userrename,
}
use py_burly_bot.State.Views.{seat}
use py_burly_bot.State.Invariant.{IsTracked, new_network-IsTracked}
use py_burly_bot.State.Tracking.Join.{userjoin-IsTracked}
use py_burly_bot.State.Tracking.Nuke.{joinchannel-IsTracked, seat-nukechannel}
use py_burly_bot.State.Tracking.Rename.{userrename-IsTracked}
use py_burly_bot.State.Modes.{modechange, put_channel}
use py_burly_bot.State.Modes.Ranks.{names_for, ops-modechange}
use py_burly_bot.State.Modes.Snapshot.{
  ChannelView, UserView, channel_view, user_view, snapshot, snapshot-agrees,
}
use py_burly_bot.State.Events.{here, next, join, user_join, user_quit, Reach-IsTracked}

abbrev den : Text
den = codes "#den"

abbrev bob : Text
bob = codes "bob"

abbrev eve : Text
eve = codes "eve"

abbrev carol : Text
carol = codes "carol"

-- Bob and Eve on one channel.
abbrev room : Network
room =
    userjoin den eve none none none
      (userjoin den bob none none none (joinchannel den (new_network (codes "net"))))

room-IsTracked : IsTracked room
room-IsTracked = userjoin-IsTracked den eve none none none _ (
    userjoin-IsTracked den bob none none none _
      (joinchannel-IsTracked den _ (new_network-IsTracked (codes "net"))))

abbrev ranks : PrefixMap
ranks = loadfromprefix (
    record { cmd = codes "v"; prefix = codes "+"; num = 1 }
    ∷ record { cmd = codes "o"; prefix = codes "@"; num = 0 }
    ∷ [])

abbrev ranked_room : Network
ranked_room = record room { prefixmap = some ranks }

-- `User` objects whose time is a number already
abbrev as_number : ℕ → Option ℕ
as_number t = some t

carol_unused : lookup carol room.users ≡ none
unfolding lookup userjoin joinchannel nukechannel new_network new_channel insert text_beq update
carol_unused = refl

bob_seated : seat room.channels den bob ≡ some 0
unfolding seat lookup userjoin joinchannel nukechannel new_network new_channel insert text_beq
    update
bob_seated = refl

bob_seated_alone : seat (userpart den eve none none none room).channels den bob ≡ some 0
unfolding seat lookup userpart userjoin joinchannel nukechannel new_network new_channel insert
    text_beq update discard add erase
bob_seated_alone = refl

eve_gone : lookup eve (userpart den eve none none none room).users ≡ none
unfolding lookup userpart userjoin joinchannel nukechannel new_network new_channel insert text_beq
    update discard add erase
eve_gone = refl

Reach-IsTracked_example :
    IsTracked
      (userquit bob (userjoin den bob none none none (joinchannel den (new_network (codes "net")))))
Reach-IsTracked_example =
    Reach-IsTracked as_number
      (next (next (next here (join den)) (user_join den bob none none none)) (user_quit bob))
      (new_network-IsTracked (codes "net"))

userrename-IsTracked_example :
    (n' : Network) × (userrename bob carol none none none room ≡ ok n')
    × IsTracked n'
    × ((c : Text) → seat n'.channels c carol ≡ seat room.channels c bob)
    × (lookup bob n'.users ≡ none)
userrename-IsTracked_example =
    userrename-IsTracked bob carol none none none room carol_unused room-IsTracked

joinchannel-IsTracked_example : IsTracked (joinchannel den room)
joinchannel-IsTracked_example = joinchannel-IsTracked den room room-IsTracked

seat-nukechannel_example : seat (nukechannel den room).channels den bob ≡ none
seat-nukechannel_example = seat-nukechannel den bob room

abbrev masks : List (Text × ℕ × Option Text)
masks = (codes "*!*@host", 5, some bob) ∷ []

abbrev den_channel : Channel
den_channel = record (new_channel den) { users = (bob, 0) ∷ (eve, 1) ∷ [] }

den_there : lookup den room.channels ≡ some den_channel
unfolding lookup userjoin joinchannel nukechannel new_network new_channel insert text_beq update
den_there = refl

ops-modechange_example :
    (c' : Channel) × (modechange den none 7
        ((codes "o", bob) ∷ [])
        ((codes "o", eve) ∷ [])
        false
        ranked_room
      ≡ ok (put_channel den ranked_room c'))
    × ((x : Text)
        → contains x c'.ops ≡ (
            not (any (names_for ranks.opcmds x) ((codes "o", eve) ∷ []))
            && (any (names_for ranks.opcmds x) ((codes "o", bob) ∷ [])
                || contains x den_channel.ops)))
ops-modechange_example =
    ops-modechange den none 7 ((codes "o", bob) ∷ []) ((codes "o", eve) ∷ []) false ranked_room
      ranks den_channel refl den_there

abbrev den_view : ChannelView
den_view = channel_view den_channel

abbrev bob_view : UserView
bob_view = user_view (room.store 0)

den_viewed : lookup den (snapshot room).channels ≡ some den_view
unfolding snapshot lookup userjoin joinchannel nukechannel new_network new_channel insert text_beq
    update sort_texts
den_viewed = refl

bob_viewed : lookup bob (snapshot room).users ≡ some bob_view
unfolding snapshot lookup userjoin joinchannel nukechannel new_network new_channel insert text_beq
    update sort_texts
bob_viewed = refl

snapshot-agrees_example : contains bob den_view.users ≡ contains den bob_view.channels
snapshot-agrees_example =
    snapshot-agrees room den bob den_view bob_view room-IsTracked den_viewed bob_viewed
