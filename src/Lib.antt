-- ===== src/Lib.antt =====
-- Verification of stice, a C++ implementation of ICE, STUN and TURN.
--
-- The modelled parts, from the bottom up:
--   * include/stice/types.hpp: alignment and big-endian access (Bytes).
--   * src/crypto/crypto.cpp: MD5, SHA-1, SHA-256, HMAC and CRC-32 (Crypto). Crypto.Digest holds what
--     the three digests share, over the block function of each; `update` and `finish` are md5Update
--     and md5Final and their SHA twins.
--   * include/stice/stun/message.hpp and src/stun/message.cpp (Stun.TypeField, Stun.Message,
--     Stun.ErrorReason): the codec, its demultiplexer and the two integrity checks. A message object
--     is a record; `encode` and `decode` return the object after the call.
--   * include/stice/stun/attributes.hpp and src/stun/attributes.cpp (Stun.Attributes): the typed
--     attributes, on top of the message and of socket addresses.
--   * include/stice/net/addr.hpp and src/net/addr.cpp (Net.Addr): comparing, hashing and mapping
--     socket addresses.
--   * src/turn/channeldata.cpp and src/turn/stunconn.cpp (Turn): ChannelData frames and the parser
--     of the TURN byte stream, which takes STUN messages and ChannelData frames apart.
--   * include/stice/ice/candidate.hpp, candidatepair.hpp and addr_rewrite.hpp with their sources in
--     src/ice (Ice): the priorities of candidates and of pairs, and the rules that rewrite the
--     addresses of candidates (`inet_pton` is a parameter).
--   * include/stice/ice/agent.hpp and src/ice/agent.cpp (Ice.Agent): the state of an agent in one
--     record, and the operations that act on pairs, checks, roles and the agent's state, one module
--     for each group of functions: Pairs (formPairs, findOrCreatePair), Schedule (armNextFrozenPair),
--     Checks (sendStunBinding), Requests and Responses (the handlers of Binding messages), Progress
--     (updateState), Gathering (its completion, addLocalCandidate), Bookkeeping (the loop of
--     onBookkeeping over the entries, nomination, nextTimestampMs) and Descriptions. A pointer to a
--     pair is its index, a time a number of milliseconds, 0 for a time that is not set; an operation
--     takes the time at which it runs. Parameters stand for getnameinfo, for the creation of RFC 6062
--     relays and for the ticks of TURN clients. Ice.Agent.Runs puts the operations together as steps,
--     and Ice.Agent.Checks.Accepted and Roles put the checks of one agent to the handlers of another.
--   * src/stserver/turn_server.cpp (Stserver): relay ports, the authentication of requests, and the
--     permissions and channels of an allocation; Stun reads the attributes of a request and checks
--     its integrity. The server's own state is split into a record for each; the clock and random
--     values are arguments.
--
-- Function names are the source's, in snake case. A byte buffer is the list of its bytes, a pointer
-- into it the suffix that it points at, and an out parameter a part of the result. Machine words are
-- natural numbers with the wrap-around written out. Texts are lists of bytes.
--
-- Loops that advance through a buffer recurse on fuel. The attribute loop of `decode` takes the
-- number of bytes, and each round moves on by at least four of them; the loop over whole blocks takes
-- the number of bytes and uses 64 a round; the padding loop of the digests takes 64 rounds, the size
-- of the block buffer. Where fuel could run out the model says so (`none`), and it is proved that it
-- does not.
--
-- Not modelled: random numbers, sockets, event loops, TLS back ends, name resolution and logging,
-- which are calls of the system or of third-party libraries; src/wepoll, a copy of another project;
-- and, as yet, the gathering of candidates, the TURN and TCP connections and the sending of data of the
-- ICE agent, the text of
-- session descriptions, the TURN client and, of the TURN server, the table of allocations with its
-- handlers.
pub mod Base
pub mod Bytes
pub mod Crypto
pub mod Net
pub mod Stun
pub mod Turn
pub mod Ice
pub mod Stserver
