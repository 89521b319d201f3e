-- ===== src/Examples/Messages.antt =====
-- util/client.py at work on messages of the server.
use py_burly_bot.Common.{
  ℕ, ◌<◌, ◌≡◌, refl, Bool, true, List, [], ◌∷◌, ◌++◌, Option, none, some, Text, text_eq, codes,
  lookup, insert, text_beq, contains, any, arith,
}
use py_burly_bot.State.Model.{Network, Outcome, ok, raise, new_network}
use py_burly_bot.State.Membership.{joinchannel, nukechannel}
use py_burly_bot.State.Modes.{addbans}
use py_burly_bot.Dispatch.Commands.{is_space}
use py_burly_bot.State.Invariant.{new_network-IsTracked}
use py_burly_bot.Client.Masks.{Hostmask, process_hostmask}
use py_burly_bot.Client.Protocol.{Message, Client, after, handle, join_verb, irc_nick}
use py_burly_bot.Client.Protocol.Kept.{IsSound, handle-IsSound}
use py_burly_bot.Client.Protocol.Accounts.{moved, irc_nick-accounts}
use py_burly_bot.Client.Status.{
  Status, no_status, resolve_legacy_account, handle_legacy_status_reply, abandon_legacy_status,
}
use py_burly_bot.Client.Status.Answers.{
  IsAnswering, answered, resolve-IsAnswering, abandon-answered,
}
use py_burly_bot.Client.Lists.{
  Lists, bans, of_list, handle_reply, list_end, add_masks, process_list_reply,
}
use py_burly_bot.Client.Lists.Gathered.{
  entries_of, run_replies, gathered, run_replies-gathered, list_end-stored,
}
use py_burly_bot.Client.Lists.Kept.{handle_reply-IsSound}

abbrev same : Text → Text
same t = t

abbrev always : Text → Bool
always t = true

abbrev three : Text → Option ℕ
three t = some 3

abbrev net : Network
net = new_network (codes "net")

abbrev bot : Client
bot = record {
  nickname = codes "bot";
  prefixlen = none;
  state = some net;
  accounts = (codes "bob", codes "robert") ∷ [];
  status_cache = [];
  sent = [];
  notices = [];
}

abbrev from_bob : List Text → Message
from_bob params = record { prefix = codes "bob!b@host"; params = params; tags = [] }

abbrev bob_mask : Hostmask
bob_mask = record { nick = codes "bob"; ident = codes "b"; host = codes "host" }

bob_read : process_hostmask (codes "bob!b@host") ≡ some bob_mask
unfolding process_hostmask
bob_read = refl

handle-IsSound_example :
    IsSound (after (handle same same same join_verb (from_bob (codes "#den" ∷ [])) bot)).state
handle-IsSound_example =
    handle-IsSound same same same join_verb (from_bob (codes "#den" ∷ [])) bot tt
      (new_network-IsTracked (codes "net"))

irc_nick-accounts_example :
    lookup
      (codes "rob")
      (after (irc_nick same same same (from_bob (codes "rob" ∷ [])) bot)).accounts
    ≡ moved same same same (codes "bob") (codes "rob") bot (codes "rob")
irc_nick-accounts_example =
    irc_nick-accounts same same same (from_bob (codes "rob" ∷ [])) bot bob_mask (codes "rob") []
      (codes "rob") bob_read refl

no_status-IsAnswering : IsAnswering no_status
unfolding lookup
no_status-IsAnswering = record {
  timed = λ k. unfold contains in refl;
  known = λ d h. unfold any in absurd (cc);
  counted = λ k d h. unfold contains in absurd (cc);
  kept = λ d h. absurd (omega arith);
  apart = λ k d h. unfold contains in absurd (cc);
  alone = λ j k d h h'. unfold contains in absurd (cc);
}

abbrev asked : Status
asked = resolve_legacy_account 1 same same same always three (codes "bob") 0 no_status

asked-IsAnswering : IsAnswering asked
asked-IsAnswering =
    resolve-IsAnswering 1 same same same always three (codes "bob") 0 no_status
      no_status-IsAnswering

resolve-IsAnswering_example : IsAnswering asked
resolve-IsAnswering_example =
    resolve-IsAnswering 1 same same same always three (codes "bob") 0 no_status
      no_status-IsAnswering

abandon-answered_example :
    IsAnswering (abandon_legacy_status 1 same same same always three 3 asked)
    × ((d : ℕ)
        → d < asked.created
        → answered d (abandon_legacy_status 1 same same same always three 3 asked).fired ≡ true)
abandon-answered_example = abandon-answered 1 same same same always three 3 asked asked-IsAnswering

abbrev status_or : Status → Option Status → Status
status_or s none = s
status_or s (some t) = t

abbrev replied : Status
replied = status_or asked (
    handle_legacy_status_reply 1 same same same always three (codes "nickserv!s@services")
      (codes "STATUS bob 3") 2 asked)

reply_read :
    handle_legacy_status_reply 1 same same same always three
      (codes "nickserv!s@services")
      (codes "STATUS bob 3")
      2
      asked
    ≡ some replied
unfolding handle_legacy_status_reply text_beq is_space
reply_read = refl

abbrev den_net : Network
den_net = joinchannel (codes "#den") net

abbrev empty_lists : Lists
empty_lists = record {
  state = some den_net;
  names = [];
  banlist = [];
  exceptlist = [];
  invitelist = [];
  told = [];
}

abbrev ban : List Text
ban = codes "bot" ∷ codes "#den" ∷ codes "*!*@spam" ∷ codes "bob!b@host" ∷ codes "3" ∷ []

run_replies-gathered_example :
    gathered bans (codes "#den") (run_replies bans (ban ∷ []) empty_lists)
    ≡ gathered bans (codes "#den") empty_lists ++ entries_of (codes "#den") (ban ∷ [])
run_replies-gathered_example = run_replies-gathered bans (ban ∷ []) (codes "#den") empty_lists

handle_reply-IsSound_example :
    IsSound
      (handle_reply three (of_list bans) [] ban (record empty_lists { state = some net })).0.state
handle_reply-IsSound_example =
    handle_reply-IsSound three (of_list bans) [] ban (record empty_lists { state = some net })
      (new_network-IsTracked (codes "net"))

abbrev network_of : Network → Outcome Network → Network
network_of n (ok m) = m
network_of n (raise x m) = m

abbrev banned : Network
banned =
    network_of net
      (add_masks three bans (codes "#den") (entries_of (codes "#den") (ban ∷ [])) den_net)

ban_added :
    add_masks three bans (codes "#den") (entries_of (codes "#den") (ban ∷ [])) den_net ≡ ok banned
unfolding addbans entries_of process_list_reply text_beq lookup insert joinchannel nukechannel
    new_network
ban_added = refl

nothing_gathered : gathered bans (codes "#den") empty_lists ≡ []
unfolding lookup
nothing_gathered = refl

list_end-stored_example :
    ((list_end three bans
        (codes "bot" ∷ codes "#den" ∷ [])
        (run_replies bans (ban ∷ []) empty_lists)).1
      ≡ true)
    × ((list_end three bans
          (codes "bot" ∷ codes "#den" ∷ [])
          (run_replies bans (ban ∷ []) empty_lists)).0.state
        ≡ some banned)
    × (gathered bans
          (codes "#den")
          (list_end three bans
            (codes "bot" ∷ codes "#den" ∷ [])
            (run_replies bans (ban ∷ []) empty_lists)).0
        ≡ [])
list_end-stored_example =
    list_end-stored three bans (ban ∷ []) (codes "bot") (codes "#den") [] empty_lists den_net banned
      nothing_gathered refl ban_added
