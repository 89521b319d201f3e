-- ===== src/Examples/Lines.antt =====
-- util/client.py and util/webhook.py at work: a burst of lines, and a listener that moves.
use py_burly_bot.Common.{
  ℕ, ◌≤◌, ◌≡◌, refl, true, false, List, [], ◌∷◌, ◌++◌, Text, codes, length, text_beq, arith,
}
use py_burly_bot.Client.Throttle.{
  Throttle, Action, submit, wake, run, ticks, submitted, backlog, run-backlog, ticks-drain,
}
use py_burly_bot.Webhook.Listener.{Address, initial}
use py_burly_bot.Webhook.Settling.{
  Happening, listened, turned, happen_all, IsSettling, settled, happen_all-IsSettling, idle-port,
}

abbrev same : Text → Text
same t = t

abbrev idle : Throttle
idle = record { dqueue = []; lastmsg = 0; lines = 0; armed = false; sent = [] }

-- Five lines at once, and then the timer.
abbrev burst : List Action
burst =
    submit (codes "a") 1
    ∷ submit (codes "b") 1
    ∷ submit (codes "c") 1
    ∷ submit (codes "d") 1
    ∷ submit (codes "e") 1
    ∷ wake 2
    ∷ []

burst-run : (run 1 same same burst idle).dqueue ≡ codes "e" ∷ []
unfolding run
burst-run = refl

run-backlog_example :
    backlog (run 1 same same burst idle) ≡ backlog idle ++ submitted 1 same same burst
run-backlog_example = run-backlog 1 same same burst idle

abbrev full : Throttle
full = record idle { dqueue = codes "d" ∷ codes "e" ∷ []; armed = true }

two_wait : length full.dqueue ≤ 2
two_wait = omega arith

ticks-drain_example :
    ((ticks 2 5 full).sent ≡ full.sent ++ full.dqueue) × ((ticks 2 5 full).dqueue ≡ [])
ticks-drain_example = ticks-drain 2 5 full two_wait

abbrev first_address : Address
first_address = record { host = codes "::"; port = 8080 }

abbrev second_address : Address
second_address = record { host = codes "::"; port = 8081 }

-- The listener moves before its first port is open.
abbrev moves : List (Happening ℕ)
moves =
    listened first_address 1 100
    ∷ turned true
    ∷ listened second_address 2 100
    ∷ turned true
    ∷ turned true
    ∷ turned true
    ∷ []

initial-IsSettling : IsSettling (initial {H = ℕ})
unfolding settled
initial-IsSettling = record { settles = refl; guarded = tt }

happen_all-IsSettling_example : IsSettling (happen_all moves initial)
happen_all-IsSettling_example = happen_all-IsSettling moves initial initial-IsSettling

moves_end : (happen_all moves initial).chain ≡ []
unfolding happen_all text_beq
moves_end = refl

idle-port_example : (happen_all moves initial).port ≡ (happen_all moves initial).address
idle-port_example = idle-port moves moves_end
