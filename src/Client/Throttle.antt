-- ===== src/Client/Throttle.antt =====
-- util/client.py: `sendLine` and `_sendLine`, the throttle of outgoing lines. Times are ticks of a
-- clock with `second` ticks to the second; `encode` and `decode` are those of the server's encoding.
use mathlib.Core.List.{append_assoc, append-nil}
use py_burly_bot.Common.{
  List-cases, ℕ, zero, suc, ◌+◌, ◌*◌, ◌≤◌, Bool, true, false, List, [], ◌∷◌, ◌++◌, Text,
  if◌then◌else◌, ltb, take, length, ◌≡◌, refl, sym, ◌∙◌, arith, inl, inr,
}

-- `armed` says that a call of `_sendLine` is scheduled; `sent` is what was given
-- to `_reallySendLine`, before its quoting.
pub record Throttle : Type 0 where
  pub dqueue : List Text
  pub lastmsg : ℕ
  pub lines : ℕ
  pub armed : Bool
  pub sent : List Text

abbrev pub linethrottle : ℕ
linethrottle = 3

abbrev pub max_line : ℕ
max_line = 510

-- `_reallySendLine`
unfoldable pub really_send : Text → Throttle → Throttle
really_send line s = record s { sent = s.sent ++ line ∷ [] }

-- `self._dqueue.append(line)`, and a call of `_sendLine` if none is scheduled
unfoldable pub put_off : Text → Throttle → Throttle
put_off line s = record s { dqueue = s.dqueue ++ line ∷ []; armed = true }

abbrev pub by_queue : List Text → Throttle → Throttle → Throttle
by_queue [] direct queued = direct
by_queue (_ ∷ _) direct queued = queued

-- `_sendLine` at time `t`
unfoldable pub send_queued : ℕ → Throttle → Throttle
unfolding really_send
send_queued t s = elim s.dqueue [
  | [] ↦ record s { armed = false }
  | line ∷ rest ↦ record (really_send line (record s { dqueue = rest })) {
    lastmsg = t;
    armed = elim rest [ [] ↦ false | _ ∷ _ ↦ true ];
  }
]

-- What happens to the throttle: a line to send, or the scheduled call.
pub data Action : Type 0 where
  submit : Text → ℕ → Action
  wake : ℕ → Action

-- What has been sent, and what waits, in order.
abbrev pub backlog : Throttle → List Text
backlog s = s.sent ++ s.dqueue

-- A line that waits has a call scheduled.
pub record IsArmed (s : Throttle) : Type 0 where
  pub waits : s.armed ≡ false → s.dqueue ≡ []

module _ (second : ℕ) (encode : Text → List ℕ) (decode : List ℕ → Text) where
  -- a line of more than 510 bytes is cut
  unfoldable pub clip : Text → Text
  clip line =
      if ltb max_line (length (encode line)) then decode (take max_line (encode line)) else line

  -- The branches of `sendLine` behind an empty queue.
  unfoldable pub send_unqueued : Text → ℕ → Throttle → Throttle
  unfolding really_send put_off
  send_unqueued line t s =
      if ltb (s.lastmsg + second) t
      then record (really_send line s) {
        lines = if ltb (s.lastmsg + 2 * second) t then 1 else s.lines + 1;
      }
      else if ltb s.lines linethrottle
      then record (really_send line s) { lines = s.lines + 1 }
      else put_off line s

  -- `sendLine` at time `t`
  unfoldable pub send_line : Text → ℕ → Throttle → Throttle
  unfolding clip send_unqueued
  send_line line t s =
      record (by_queue s.dqueue (send_unqueued (clip line) t s) (put_off (clip line) s)) {
        lastmsg = t;
      }

  unfoldable pub act : Action → Throttle → Throttle
  unfolding send_line send_queued
  act (submit text t) s = send_line text t s
  act (wake t) s = send_queued t s

  unfoldable pub run : List Action → Throttle → Throttle
  unfolding act
  run [] s = s
  run (a ∷ actions) s = run actions (act a s)

  -- The lines that were handed over, as they go out.
  abbrev pub submitted : List Action → List Text
  submitted [] = []
  submitted (submit text t ∷ actions) = clip text ∷ submitted actions
  submitted (wake t ∷ actions) = submitted actions

  backlog-send_line :
      (text : Text) (t : ℕ) (s : Throttle)
      → backlog (send_line text t s) ≡ backlog s ++ clip text ∷ []
  unfolding send_line
  backlog-send_line text t s = elim (List-cases s.dqueue) [
    | inl e ↦ ground (arith, append-nil s.sent, append-nil (s.sent ++ clip text ∷ []))
    | inr (x, xs, e) ↦ ground (arith, append_assoc s.sent s.dqueue (clip text ∷ []))
  ]

  backlog-send_queued : (t : ℕ) (s : Throttle) → backlog (send_queued t s) ≡ backlog s
  unfolding send_queued
  backlog-send_queued t s = elim (List-cases s.dqueue) [
    | inl e ↦ ground arith
    | inr (x, xs, e) ↦ ground (arith, append_assoc s.sent (x ∷ []) xs)
  ]

  -- The throttle loses, doubles and reorders no line: at any time what has been sent, followed by
  -- what waits, is what was handed over, in its order.
  pub run-backlog :
      (actions : List Action) (s : Throttle)
      → backlog (run actions s) ≡ backlog s ++ submitted actions
  unfolding run act
  run-backlog [] s = sym (append-nil (backlog s))
  run-backlog (submit text t ∷ actions) s =
      run-backlog actions (send_line text t s)
      ∙ rw (backlog-send_line text t s)
          (append_assoc (backlog s) (clip text ∷ []) (submitted actions))
  run-backlog (wake t ∷ actions) s =
      run-backlog actions (send_queued t s) ∙ rw (backlog-send_queued t s) refl

  act-IsArmed : (a : Action) (s : Throttle) → IsArmed s → IsArmed (act a s)
  unfolding act send_line send_queued
  act-IsArmed (submit text t) s v = elim (List-cases s.dqueue) [
    | inl e ↦ record { waits = λ h. ground (arith, e) }
    | inr (x, xs, e) ↦ record { waits = λ h. ground (arith, e) }
  ]
  act-IsArmed (wake t) s v = elim (List-cases s.dqueue) [
    | inl e ↦ record { waits = λ h. ground (arith, e) }
    | inr (x, xs, e) ↦ record { waits = λ h. ground (arith, e) }
  ]

  -- Whatever is sent and whenever the timer calls, a line that waits has a call scheduled.
  pub run-IsArmed : (actions : List Action) (s : Throttle) → IsArmed s → IsArmed (run actions s)
  unfolding run
  run-IsArmed [] s v = v
  run-IsArmed (a ∷ actions) s v = run-IsArmed actions (act a s) (act-IsArmed a s v)

-- the timer's call, `n` times
unfoldable pub ticks : ℕ → ℕ → Throttle → Throttle
unfolding send_queued
ticks zero t s = s
ticks (suc n) t s = ticks n t (send_queued t s)

-- As many calls of the timer as there are waiting lines send them all, in order.
pub ticks-drain :
    (n t : ℕ) (s : Throttle)
    → length s.dqueue ≤ n
    → ((ticks n t s).sent ≡ s.sent ++ s.dqueue) × ((ticks n t s).dqueue ≡ [])
unfolding ticks send_queued
ticks-drain zero t s h = elim (List-cases s.dqueue) [
  | inl e ↦ (ground (arith, e, append-nil s.sent), e)
  | inr (x, xs, e) ↦ absurd (ground (arith, e))
]
ticks-drain (suc n) t s h = elim (List-cases s.dqueue) [
  | inl e ↦
      let (a, b) = ticks-drain n t (send_queued t s) (ground (arith, e)) in
      (a ∙ ground (arith, e), b)
  | inr (x, xs, e) ↦
      let (a, b) = ticks-drain n t (send_queued t s) (ground (arith, e)) in
      (a ∙ ground (arith, e, append_assoc s.sent (x ∷ []) xs), b)
]
