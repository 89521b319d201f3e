-- ===== src/Lib.antt =====
-- pyBurlyBot is an IRC bot: a client keeps one connection for each server, tells a dispatcher
-- what happens on it, and the dispatcher starts the handlers that the loaded modules map to the
-- event. This library models the core that lies between the wire and the modules.
--
--   State: util/state.py and PrefixMap of util/helpers.py. Model holds the records User, Channel
--     and Network; Membership the methods that move users (_userjoin, _userpart, _userquit,
--     _userrename, _nukechannel, _joinchannel, _leavechannel, _resetnetwork); Modes the methods
--     _modechange, _settopic, _addusers, _addbans, _addexcepts and _addinvites; Modes.Snapshot
--     the method snapshot. A User object is shared by the network and its channels, so it lives
--     in a store and is named by a reference. Invariant says when a state is well formed,
--     Tracking and Modes.Kept take it through the methods, and Events composes them as steps.
--   Dispatch: util/dispatcher.py with util/mapping.py, util/event.py, WaitData of
--     util/container.py and commandSplit of util/helpers.py. Mappings is Mapping, Commands is
--     commandSplit, EventMap is _build_event_map and _add_mappings, Fire is dispatchEvent up to
--     the waiting generators, and Wait is the rest of it with addWaitData and delWaitData.
--   Modules: util/moduleloader.py (Registry) and load_module, _load_requirements and reload of
--     util/dispatcher.py (Load).
--   Client: util/client.py. Throttle is sendLine and _sendLine; Masks is processHostmask and
--     irc_casefold of util/helpers.py; Protocol is irc_JOIN, irc_PART, irc_QUIT, irc_NICK,
--     irc_ACCOUNT and irc_KICK with the accounts; Status is resolveLegacyAccount and what answers
--     it; Lists is the replies about names, masks and topics.
--   Client.Login: register, _end_cap, _fail_sasl, irc_CAP, irc_AUTHENTICATE and the replies about
--     SASL. Client.Tags: _parse_message_tags and _unescape_message_tag. Client.Sending:
--     splitEncodedUnicode of util/helpers.py for UTF-8, calcAvailableMsgLength, _buildmsg without
--     strins, and assembleMsgWLen for a text or a list.
--   Net.Requests: util/http.py. request is HTTPClient.request, and Runs says without the loop
--     what its redirects may do; check_url, redirect_origin, redirected, follow and round are
--     parts of its loop, validated_addresses is _validated_addresses and read_limited is
--     _read_limited. Net.Frames: util/ws.py, where frame is _frame and recv is recv_text up to
--     the decoding.
--   Settings.Options: getOption, setOption, _lookupModuleOpt and _resolveServerModuleOpts of
--     util/settings.py for the options of modules. Without a module both go on to the core
--     options, which the outcome says and the model leaves out.
--   Timers: util/timer.py, the class Timers with runTimer.
--   Webhook: util/webhook.py. Listener is WebhookListener, whose chain of Deferreds is the list
--     of steps that have not run.
--   Common: what the components share: Python dictionaries and sets as lists in insertion order,
--     the stable sort, prefixes and substrings of texts.
--   Examples: the definitions run, and the theorems applied, at concrete inputs.
--
-- The client calls the methods of Network, and the dispatcher for each event. The dispatcher
-- builds its event map from the modules that the registry has active, and a reload starts from an
-- empty one.
--
-- Text is a list of code points. Lower case and case folding, the search of a regex, the admin
-- test, the identifier test, the import system, the stages of a module, the encoding of the
-- server, the nickname that Twisted keeps and the reading of an integer are arguments of the
-- definitions that use them, since their code is not in the repository or runs modules. The same
-- goes for base64, the formatting of a template, the quoting of a line, the URL library, IDNA,
-- DNS, the test for a global address and the servers that answer a request. The clocks count
-- ticks, with any number of ticks to the second. Exceptions of the state methods are values that
-- carry what was written before them.
--
-- load_module follows the requirements of a module on fuel. The parents of a module differ from
-- one another and are allowed, so one level more than the number of allowed modules is enough.
-- recv reads a connection that delivers a list of bytes and closes, and has one unit of fuel more
-- than there are bytes, since every frame takes two bytes at least: on a connection that never
-- closes recv_text may wait for ever, and its loop over a number of rounds has no answer then;
-- read_limited has one more than the body has bytes, since every read but the last finds one; a
-- request has one round more than the redirects that are allowed.
--
-- Not modelled: private messages, mode messages and CTCP, the configuration file with its core
-- options, the database, the handshake of a WebSocket, encodings other than UTF-8, templates with
-- a dictionary, the threads in which handlers and timers run, the container that modules talk to,
-- and the modules of the bot. Much of these is SQL, Twisted or the services of others; the rest
-- is left for an extension of this library.
pub mod Common
pub mod State
pub mod Dispatch
pub mod Modules
pub mod Client
pub mod Webhook
pub mod Examples
pub mod Net
pub mod Settings
pub mod Timers
