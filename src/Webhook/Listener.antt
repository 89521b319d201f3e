-- ===== src/Webhook/Listener.antt =====
-- util/webhook.py: `WebhookListener`. `H` is the type of handlers. `_chain` is the list of steps
-- that have not run yet, and the port is the address that it is bound to.
use py_burly_bot.Common.{
  ℕ, Bool, false, List, [], ◌∷◌, ◌++◌, Option, none, some, Text, text_eq, nat_beq, ◌==◌, ◌&&◌,
  if◌then◌else◌,
}

pub record Address : Type 0 where
  pub host : Text
  pub port : ℕ

abbrev pub same_address : Address → Address → Bool
same_address a b = a.host == b.host && nat_beq a.port b.port

abbrev pub is_at : Address → Option Address → Bool
is_at a none = false
is_at a (some b) = same_address b a

pub data Pending : Type 0 where
  stop_port : Pending
  start_port : Address → Pending

pub record Listener (H : Type 0) : Type 0 where
  pub handler : Option H
  pub max_body : ℕ
  pub port : Option Address
  pub address : Option Address
  pub chain : List Pending

abbrev pub default_max_body : ℕ
default_max_body = 65536

module _ {H : Type 0} where
  abbrev pub initial : Listener H
  initial = record {
    handler = none;
    max_body = default_max_body;
    port = none;
    address = none;
    chain = [];
  }

  -- `WebhookListener._enqueue`
  unfoldable pub enqueue : Pending → Listener H → Listener H
  enqueue p s = record s { chain = s.chain ++ p ∷ [] }

  -- `WebhookListener.listen`
  unfoldable pub listen : Address → H → ℕ → Listener H → Listener H
  unfolding enqueue
  listen a handler max_body s =
      let s' = record s { handler = some handler; max_body = max_body } in
      if is_at a s.address
      then s'
      else enqueue (start_port a) (enqueue stop_port (record s' { address = some a }))

  -- `WebhookListener.release`, before the scheduled check
  unfoldable pub release : Listener H → Listener H
  release s = record s { handler = none }

  -- `WebhookListener._stop_if_unclaimed`
  unfoldable pub stop_if_unclaimed : Listener H → Listener H
  unfolding enqueue
  stop_if_unclaimed s = elim s.handler [
    | none ↦ enqueue stop_port (record s { address = none })
    | some _ ↦ s
  ]

  -- One step of the chain: `_stop_port`, or `_start_port` with what `listenTCP` answers.
  unfoldable pub run_pending : Bool → Pending → Listener H → Listener H
  run_pending bound stop_port s = record s { port = none }
  run_pending bound (start_port a) s =
      if is_at a s.address
      then if bound then record s { port = some a } else record s { address = none }
      else s

  unfoldable pub run_next : Bool → Listener H → Listener H
  unfolding run_pending
  run_next bound s = elim s.chain [
    | [] ↦ s
    | p ∷ ps ↦ run_pending bound p (record s { chain = ps })
  ]
