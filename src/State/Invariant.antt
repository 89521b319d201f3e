-- ===== src/State/Invariant.antt =====
-- util/state.py: the well-formedness of the tracked state.
use py_burly_bot.Common.{
  ◌≡◌, true, false, some, Text, text_eq, nat_eq, lookup, contains, ◌<◌, arith, List,
}
use py_burly_bot.State.Model.{Ref, Network, new_network}
use py_burly_bot.State.Membership.{is_empty, resetnetwork}
use py_burly_bot.State.Views.{seat, IsNamed}

-- The tracked state is well formed: users are stored under their own nicks and channels under their
-- own names, a nick sits on a channel exactly when the network knows its user and that user lists
-- the channel, and a known user lists some channel.
pub record IsTracked (n : Network) : Type 0 where
  pub fresh : (nick : Text) (r : Ref) → lookup nick n.users ≡ some r → r < n.next
  pub keyed : (nick : Text) (r : Ref) → lookup nick n.users ≡ some r → (n.store r).nick ≡ nick
  pub named : IsNamed n.channels
  pub known :
      (c nick : Text) (r : Ref) → seat n.channels c nick ≡ some r → lookup nick n.users ≡ some r
  pub listed :
      (c nick : Text) (r : Ref)
      → seat n.channels c nick ≡ some r
      → contains c (n.store r).channels ≡ true
  pub seated :
      (c nick : Text) (r : Ref)
      → lookup nick n.users ≡ some r
      → contains c (n.store r).channels ≡ true
      → seat n.channels c nick ≡ some r
  pub present :
      (nick : Text) (r : Ref) → lookup nick n.users ≡ some r → is_empty (n.store r).channels ≡ false

pub new_network-IsTracked : (name : Text) → IsTracked (new_network name)
unfolding new_network lookup seat
new_network-IsTracked name = record {
  fresh = λ nick r h. cc;
  keyed = λ nick r h. cc;
  named = record { at_name = λ c ch h. cc; distinct = λ c ch h. absurd (cc) };
  known = λ c nick r h. cc;
  listed = λ c nick r h. cc;
  seated = λ c nick r h k. cc;
  present = λ nick r h. cc;
}

pub resetnetwork-IsTracked : (n : Network) → IsTracked (resetnetwork n)
unfolding resetnetwork lookup seat
resetnetwork-IsTracked n = record {
  fresh = λ nick r h. cc;
  keyed = λ nick r h. cc;
  named = record { at_name = λ c ch h. cc; distinct = λ c ch h. absurd (cc) };
  known = λ c nick r h. cc;
  listed = λ c nick r h. cc;
  seated = λ c nick r h k. cc;
  present = λ nick r h. cc;
}

-- A member of a set makes it non-empty.
pub not-is_empty : (c : Text) (xs : List Text) → contains c xs ≡ true → is_empty xs ≡ false
unfolding contains
not-is_empty c xs h = ground arith
