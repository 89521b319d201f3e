-- ===== src/Examples/Services.antt =====
-- util/http.py, util/ws.py, util/settings.py and util/timer.py at work: a redirect to another host, a
-- message in fragments, an option of a channel and a timer.
use py_burly_bot.Common.{
  ℕ, zero, suc, ◌≤◌, ◌≡◌, refl, true, false, none, some, List, [], ◌∷◌, ◌++◌, Text, codes, length,
  text_beq, arith, Dict, All, lookup, insert, contains, select, any, starts_with, inl, text_eq,
  merge,
}
use py_burly_bot.Net.Requests.{
  Url, Address, Sent, Answer, answered, Response, Result, ok, Web, Limits, size, request,
  request_loop, distinct_addresses, without_zone, validated_addresses, check_url, redirect_origin,
  read_loop, read_limited, read_response, is_redirect, redirected, prepare, follow, round,
}
use py_burly_bot.Net.Requests.Safety.{AreGlobal, IsShort, request-global, request-bounded}
use py_burly_bot.Net.Requests.Secrets.{AreGuarded, request-guarded}
use py_burly_bot.Net.Requests.Reading.{IsReading, read_limited-IsReading}
use py_burly_bot.Net.Frames.{MaskKey, frame, Received, message, recv, recv_loop}
use py_burly_bot.Net.Frames.Sent.{read_masked, read_masked-frame}
use py_burly_bot.Net.Frames.Messages.{Part, ping, pong, parts_bytes, answers_of, recv-parts}
use py_burly_bot.Net.Frames.Limits.{pings_before, recv_ends}
use py_burly_bot.Settings.Options.{
  Store, plain, table, here, done, set_option, get_option, set_in, set_module, set_module_option,
}
use py_burly_bot.Settings.Options.RoundTrip.{get_option-set_option}
use py_burly_bot.Timers
use py_burly_bot.Timers.{Timer, Timers, add_timer, add_internal, start, run_timer, tick_times}
use py_burly_bot.Timers.Ticks.{IsSpent, add_timer-IsSpent}
use py_burly_bot.Timers.Internal.{kept-IsInternal}

-- Hosts are their own URLs; the address of a host is its name.
abbrev url_of : Text → Url
url_of h = record {
  scheme = codes "http";
  credentials = false;
  hostname = some h;
  port = some none;
}

abbrev address_of : Text → Address
address_of h = record { family = 2; socket_type = 1; protocol = 6; ip = h; sockaddr_rest = [] }

abbrev moved_to : Text → Answer
moved_to h = record {
  status = 302;
  headers = (codes "location", h) ∷ [];
  body = [];
  found = λ i. 1;
  expired = λ i. false;
}

abbrev page : Answer
page = record {
  status = 200;
  headers = [];
  body = codes "hi";
  found = λ i. 1;
  expired = λ i. false;
}

abbrev reply_of : ℕ → Answer
reply_of zero = page
reply_of (suc n) = moved_to (codes "b")

abbrev web : Web
web = record {
  urlsplit = url_of;
  urljoin = λ base url. url;
  idna = λ h. some h;
  casefold = λ t. t;
  getaddrinfo = λ h p. some (address_of h ∷ address_of h ∷ []);
  is_global = λ a. true;
  content_length = λ t. size 0;
  upper = λ t. t;
  exchange = λ left sent. answered (reply_of left);
}

abbrev limits : Limits
limits = record { max_bytes = 4; max_redirects = 1; allow_private = false }

abbrev credentials : Dict Text Text
credentials = (codes "authorization", codes "secret") ∷ []

abbrev asked : Result Response × List Sent
asked =
    request web limits (codes "bot") true (λ i. false) (codes "GET") (codes "a") credentials none

asked-body :
    asked.0 ≡ ok (record { url = codes "b"; status = 200; headers = []; body = codes "hi" })
unfolding request request_loop round prepare check_url validated_addresses distinct_addresses
    without_zone read_response read_loop follow is_redirect redirect_origin redirected lookup insert
    merge text_beq contains select any
asked-body = refl

request-global_example : All (AreGlobal web limits) asked.1
request-global_example =
    request-global web limits (codes "bot") true (λ i. false) (codes "GET") (codes "a") credentials
      none refl

request-bounded_example : (length asked.1 ≤ 2) × IsShort web limits asked.0
request-bounded_example =
    request-bounded web limits (codes "bot") true (λ i. false) (codes "GET") (codes "a") credentials
      none

request-guarded_example : AreGuarded web limits asked.1
request-guarded_example =
    request-guarded web limits (codes "bot") true (λ i. false) (codes "GET") (codes "a") credentials
      none

read_limited-IsReading_example : IsReading 4 page (codes "hi") (read_limited 4 page)
read_limited-IsReading_example = read_limited-IsReading 4 page

abbrev key : MaskKey
key = record { k0 = 1; k1 = 20; k2 = 255; k3 = 77 }

read_masked-frame_example :
    read_masked (frame key 1 (codes "hello") ++ codes "more")
    ≡ some (1, codes "hello", codes "more")
read_masked-frame_example =
    read_masked-frame key 1 (codes "hello") (codes "more")
      (omega arith, omega arith, omega arith, omega arith) (omega arith)
      (omega arith, (omega arith, (omega arith, (omega arith, (omega arith, tt))))) (omega arith)

abbrev start_part : Part
start_part = record { before = ping (codes "p") ∷ []; text = codes "he" }

abbrev end_part : Part
end_part = record { before = pong [] ∷ ping (codes "q") ∷ []; text = codes "y" }

recv-parts_example :
    recv 200 (parts_bytes false start_part (end_part ∷ []) ++ codes "x")
    ≡ some (message (codes "hey") (codes "x") (answers_of start_part (end_part ∷ [])))
recv-parts_example =
    recv-parts 200 start_part (end_part ∷ []) (codes "x")
      ((omega arith, tt), (omega arith, (omega arith, tt))) (omega arith) (omega arith)

recv_ends_example :
    ((r : Received) × (recv 5 (frame key 1 (codes "hello")) ≡ some r)
      × ((bytes rest : List ℕ) (pongs : List (List ℕ))
          → r ≡ message bytes rest pongs
          → length bytes ≤ 5))
    × ((rounds : ℕ)
        → recv_loop rounds 5 [] false [] (pings_before rounds (frame key 1 (codes "hello"))) ≡ none)
recv_ends_example = recv_ends 5 (frame key 1 (codes "hello"))

abbrev no_options : Store ℕ
no_options = record { servers = (codes "net", []) ∷ []; self = codes "net"; main = [] }

abbrev with_size : Store ℕ
with_size = record no_options {
  servers =
      (
        codes "net",
        (codes "tell", (codes "_channels", table ((codes "#a", (codes "size", 5) ∷ []) ∷ [])) ∷ [])
            ∷ [],
      )
      ∷ [];
}

set_size :
    set_option (codes "size") 5 (codes "tell") (some (codes "#a")) here no_options ≡ done with_size
unfolding set_option set_module_option set_module set_in lookup insert contains text_beq
set_size = refl

get_option-set_option_example :
    (get_option (codes "size") (codes "tell") (some (codes "#a")) here none true with_size).0
    ≡ done (plain 5)
get_option-set_option_example =
    get_option-set_option (codes "size") (codes "tell") 5 (some (codes "#a")) here no_options
      with_size none true set_size

abbrev no_timers : Timers
no_timers = record { timers = (codes "_db", record { reps = 0; running = true }) ∷ []; runs = [] }

abbrev one_left : Timers
one_left = record {
  timers =
      (codes "_db", record { reps = 0; running = true })
      ∷ (codes "egg", record { reps = 1; running = true })
      ∷ [];
  runs = codes "egg" ∷ [];
}

add_egg : add_timer (codes "egg") 2 true no_timers ≡ Timers.done one_left
unfolding add_timer add_internal start run_timer lookup insert starts_with text_beq
add_egg = refl

add_timer-IsSpent_example : IsSpent (codes "egg") 2 [] (tick_times 3 (codes "egg") one_left)
add_timer-IsSpent_example =
    add_timer-IsSpent 3 1 (codes "egg") true no_timers one_left (omega arith) add_egg

kept-IsInternal_example :
    lookup (codes "_db") one_left.timers ≡ lookup (codes "_db") no_timers.timers
unfolding starts_with
kept-IsInternal_example =
    kept-IsInternal (codes "egg") (codes "_db") 2 true no_timers one_left refl (inl add_egg)
