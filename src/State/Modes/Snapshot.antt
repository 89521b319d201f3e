-- ===== src/State/Modes/Snapshot.antt =====
-- util/state.py: `Network.snapshot`, the detached view that worker threads read.
use py_burly_bot.Common.{
  ◌≡◌, refl, Bool, List, [], ◌∷◌, Option, none, some, Text, nat_eq, text_eq, arith, ◌∙◌, sym, Dict,
  lookup, has_key, contains, inl, inr, Option-cases, map, sort_texts, contains-sort_texts,
  if◌then◌else◌, codes,
}
use py_burly_bot.State.Model.{Ref, User, Channel, Network, Store}
use py_burly_bot.State.Views.{seat-some}
use py_burly_bot.State.Invariant.{IsTracked}

pub record ChannelView : Type 0 where
  pub users : List Text
  pub ops : List Text
  pub voices : List Text
  pub modes : List Text
  pub limit : Option Text
  pub topic : Text
  pub bans : List Text
  pub exceptions : List Text
  pub invite_exceptions : List Text

pub record UserView : Type 0 where
  pub ident : Option Text
  pub host : Option Text
  pub hostmask : Option Text
  pub channels : List Text

pub record NetworkView : Type 0 where
  pub name : Text
  pub motd : Option Text
  pub channels : Dict Text ChannelView
  pub users : Dict Text UserView

abbrev pub keys {ℓ} : {V : Type ℓ} → Dict Text V → List Text
keys = map (λ e. e.0)

-- `(mode for enabled, mode in ... if enabled)`
unfoldable pub enabled_modes : List (Bool × Text) → List Text
enabled_modes [] = []
enabled_modes ((enabled, mode) ∷ rest) =
    if enabled then mode ∷ enabled_modes rest else enabled_modes rest

unfoldable pub mode_names : Channel → List Text
unfolding enabled_modes
mode_names c = enabled_modes (
    (c.inviteonly, codes "invite-only")
    ∷ (c.moderated, codes "moderated")
    ∷ (c.noextmsg, codes "no-external-messages")
    ∷ (c.optopic, codes "operator-topic")
    ∷ (c.is_private, codes "private")
    ∷ (c.secret, codes "secret")
    ∷ [])

unfoldable pub channel_view : Channel → ChannelView
unfolding mode_names
channel_view c = record {
  users = sort_texts (keys c.users);
  ops = sort_texts c.ops;
  voices = sort_texts c.voices;
  modes = mode_names c;
  limit = c.limit;
  topic = c.topic;
  bans = sort_texts (keys c.banlist);
  exceptions = sort_texts (keys c.exceptlist);
  invite_exceptions = sort_texts (keys c.invitelist);
}

unfoldable pub user_view : User → UserView
user_view u = record {
  ident = u.ident;
  host = u.host;
  hostmask = u.hostmask;
  channels = sort_texts u.channels;
}

unfoldable pub channel_views : Dict Text Channel → Dict Text ChannelView
unfolding channel_view
channel_views [] = []
channel_views ((name, c) ∷ d) = (name, channel_view c) ∷ channel_views d

unfoldable pub user_views : Store → Dict Text Ref → Dict Text UserView
unfolding user_view
user_views h [] = []
user_views h ((nick, r) ∷ d) = (nick, user_view (h r)) ∷ user_views h d

-- `Network.snapshot`
unfoldable pub snapshot : Network → NetworkView
unfolding channel_views user_views
snapshot n = record {
  name = n.name;
  motd = n.motd;
  channels = channel_views n.channels;
  users = user_views n.store n.users;
}

lookup-channel_views :
    (c : Text) (d : Dict Text Channel)
    → lookup c (channel_views d)
      ≡ elim (lookup c d) [ none ↦ none | some ch ↦ some (channel_view ch) ]
unfolding lookup channel_views
lookup-channel_views c [] = refl
lookup-channel_views c ((k, ch) ∷ d) = ground (arith, lookup-channel_views c d)

lookup-user_views :
    (nick : Text) (h : Store) (d : Dict Text Ref)
    → lookup nick (user_views h d)
      ≡ elim (lookup nick d) [ none ↦ none | some r ↦ some (user_view (h r)) ]
unfolding lookup user_views
lookup-user_views nick h [] = refl
lookup-user_views nick h ((k, r) ∷ d) = ground (arith, lookup-user_views nick h d)

contains-keys {ℓ} : {V : Type ℓ} (k : Text) (d : Dict Text V) → contains k (keys d) ≡ has_key k d
unfolding contains lookup
contains-keys k [] = refl
contains-keys k ((j, v) ∷ d) = ground (arith, contains-keys k d)

-- In the snapshot of a well-formed state the two views agree: the channel's view lists a nick
-- exactly when that nick has a view of its own which lists the channel.
pub snapshot-agrees :
    (n : Network) (c nick : Text) (cv : ChannelView) (uv : UserView)
    → IsTracked n
    → lookup c (snapshot n).channels ≡ some cv
    → lookup nick (snapshot n).users ≡ some uv
    → (contains nick cv.users ≡ contains c uv.channels)
unfolding snapshot channel_view user_view
snapshot-agrees n c nick cv uv v hc hu =
    let (ch, ec) =
      source_channel (lookup c n.channels) (sym (lookup-channel_views c n.channels) ∙ hc) in
    let (r, eu) =
      source_user (lookup nick n.users) (sym (lookup-user_views nick n.store n.users) ∙ hu) in
    ground (
      arith,
      ec.1,
      eu.1,
      contains-sort_texts nick (keys ch.users),
      contains-sort_texts c (n.store r).channels,
      contains-keys nick ch.users,
      agree ch r ec.0 eu.0,
    )
  where
    source_channel :
        (o : Option Channel)
        → (elim o [ none ↦ none | some ch ↦ some (channel_view ch) ]) ≡ some cv
        → (ch : Channel) × ((o ≡ some ch) × (cv ≡ channel_view ch))
    source_channel none h = absurd (cc)
    source_channel (some ch) h = (ch, (refl, ground arith))

    source_user :
        (o : Option Ref)
        → (elim o [ none ↦ none | some r ↦ some (user_view (n.store r)) ]) ≡ some uv
        → (r : Ref) × ((o ≡ some r) × (uv ≡ user_view (n.store r)))
    source_user none h = absurd (cc)
    source_user (some r) h = (r, (refl, ground arith))

    agree :
        (ch : Channel) (r : Ref)
        → lookup c n.channels ≡ some ch
        → lookup nick n.users ≡ some r
        → has_key nick ch.users ≡ contains c (n.store r).channels
    agree ch r ec eu = elim (Option-cases (lookup nick ch.users)) [
      | inl e ↦ ground (arith, e, seat-some c nick ch n.channels ec, v.seated c nick r eu)
      | inr (s, e) ↦
          ground (arith, e, seat-some c nick ch n.channels ec, v.known c nick s, v.listed c nick s)
    ]
