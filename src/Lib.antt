-- ===== src/Lib.antt =====
-- The OSCAR server: models of its core, written in this language, and the theorems about them.
--
-- The program is a chat server for AIM and ICQ clients. Its `wire` package turns bytes into messages:
-- a codec that walks Go structs by reflection and follows their `oscar` tags (wire/encode.go,
-- wire/decode.go), TLVs and lists of them (wire/tlv.go), FLAP frames that carry SNAC messages with
-- sequence numbers (wire/frames.go), and rate limits for SNACs (wire/rate_limit.go). The servers
-- (server/oscar, server/toc, server/icq_legacy, server/webapi) read messages by it, call the services
-- (foodgroup) and keep users and sessions (state): a Session has the instances by which one user is
-- signed on, and the states of the five rate classes (state/session.go), which CheckRateLimit moves.
--
-- Which file models what. The names are the code's names in this language's spelling; the comment
-- above a definition names the function where the two differ.
--   Prelude       shared names, Boolean tests, lists over the native numbers, signed integers and
--                 the conversion to int32
--   Wire/Reader   errors and results, and a reader over what is left of a finite input
--   Wire/Words    fixed-width integers in both byte orders (encoding/binary)
--   Wire/Tag      parseOSCARTag; Tag/Parsed: what it can return
--   Wire/Types    the Go types of messages, and their values: unsigned integers, arrays, slices,
--                 strings, structs with tagged fields, pointers
--   Wire/Encode   marshal with its helpers
--   Wire/Decode   unmarshal with its helpers and the quirks of single clients
--   Wire/RoundTrip  the two against one another: Shape says which values fit; Rules, Prefixes,
--                 Strings, Eof, Kinds, Elements and Agree go through the kinds
--   Wire/Overflow   a string that is too long for its prefix
--   Wire/Quirks     the decoders for single clients beside the usual one
--   Wire/Totality   decoding ends: Progress, Loops and Quirks go through the readers
--   Wire/Tlv      TLV and TLVList; Tlv/Lists and Tlv/Values
--   Wire/Flap     FlapClient; Frames, Header and Delivery: one frame, Sequence: many
--   Wire/RateLimit  CheckRateLimit; Classes and Limits: the default tables; Average, Decision and
--                 Pace: what is decided; Lookup: the tables against one another
--   State/RateState  the rate limits of a Session (state/session.go); Subscriptions, Sane,
--                 Lifted and Settled: what a session keeps, what stays bounded, observing twice
--   State/Instances  the instances of a Session (state/session.go) over a heap of pointers; Numbers,
--                 Linked, Adding, Closing and Emptying: their numbers, the agreement of the map and
--                 the ordered slice, one instance more, fewer, and none
--   State/ScreenNames  DisplayScreenName and IdentScreenName (state/user.go); Letters and Cases: what
--                 unicode knows; Lowering and Normal: what the normal form of a name is
--   State/SessionManager  InMemorySessionManager (state/session_manager.go) over a memory of sessions
--                 and channels; Calls: calls of AddSession in their atomic parts, with RemoveSession
--                 and the instances, as a step relation; Invariant, Release and Orphan: what holds of
--                 the pool in between, how a waiting call is released, and a schedule that loses an
--                 instance
--   State/Presence  what the instances say of their user, and what the session makes of it
--                 (state/session.go); Newest (with Search, Loops): idle time, away message, profile;
--                 Capabilities: the union of the capabilities
--   State/NotifyTxn  the notify transaction of an instance (state/session.go); Collected
--   State/Relay   the queues of the instances and the relays to them; Delivery and Rounds: one
--                 instance, and all of a session
--   State/ChatSessions  InMemoryChatSessionManager, the rooms over session managers
--   State/UserLocks  lockUser and unlockUser of the session manager, as a step relation; Exclusion
--   State/Feedbag  FeedbagList (state/feedbag_list.go) with FeedbagItem (wire/snacs.go) over a heap
--                 of items; Groups: groups, buddies and pending changes; Ids: genID; Keys, Views,
--                 Upsert, GroupIds, Orders and Refine: the list as a set of entries
--   Wire/Roast    the roasted passwords of the clients (wire/user.go)
--   Icq/Crypt     packets of the old ICQ protocols (server/icq_legacy/wire_legacy_crypt.go); Table,
--                 Toggles, Places and Involution
--   Tests         modules of this name apply the theorems to concrete messages
--
-- Bounds and fuel. A byte is a number; what must be below 256 says so. Integers keep their width:
-- `modulus w` bounds what a prefix or a field can hold, sequence numbers are reduced modulo 2^16 and
-- 2^32, and rate limits compute in int32 by `int32`. The loop over a buffer has the length of the
-- buffer as fuel, and the loop to the end of the input one more than what is left: an element takes
-- a byte at least, so that neither runs out. A Go panic is the error `go_panic`. The loop of genID has
-- the number of 16-bit integers as fuel, and it stops before it comes round; the loops over a packet of
-- the old protocols go by 4 and have its length. A random number is an argument.
--
-- What is not modelled: fields of interface type and the kinds that no message uses, writers that
-- fail, and the texts of errors. Of a Session the fields with plain setters and the TLVs of
-- userInfo are not modelled; ScaleWarningAndRateLimit computes in float32 and is left out. In the
-- FLAP client each sender is one step, since it holds a lock; closing an instance takes three
-- steps, between which another goroutine may run. In the session manager CloseSession is one step,
-- the locks of the map and of the users are held for the steps that they guard, and the callbacks
-- of AddSession, which set fields that the model does not have, are left out. AddSession of a chat
-- room is in three parts, functions that no step relation orders, and a message is a number.
-- Sorting is by insertion, since the order of the code's sort is strict. A screen name is valid
-- UTF-8, as the list of its code points, and Unicode is that of version 15.0. A context that ends
-- is a choice of the step. The codec is stated for types of any shape, so that every message type
-- of wire/snacs.go that `Fits` describes (those with a tag for the quirk of a client are not among
-- them) is covered without being written out.
mod Prelude
pub mod Wire
pub mod State
pub mod Icq
