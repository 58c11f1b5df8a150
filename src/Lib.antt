-- ===== src/Lib.antt =====
-- A model of the SMKEX messenger: end-to-end key exchange over SIP messages.
--
-- The program has these parts. smkex/ runs a key exchange with each buddy: a state machine over
-- records that are serialised into messages. auto_resend/ keeps the unsent messages of each user and
-- picks the next one to send. data_msg/ sends a single message, again until it arrives, and reports
-- its end to the resend engine. buddy/ keeps the buddies, and tells the engine and others when one
-- comes online. sip_stack/ starts PJSUA, asks it for everything and is called back by it;
-- call_manager/ holds at most one call; user_account/ logs in and out. utils/ has the buffers, the
-- status codes and the pools of callbacks that all use.
-- The key exchange hands its messages to `MpAutoResendEngine::addMessage`; the engine hands one at a
-- time to `MpMsgTransport::sendMessage`, which calls back `messageStatus`; a received message comes
-- to `Smkex::onMsgReceived`, whose first byte is the type that `MpMsgPayload::setPayload` put there.
--
-- Files:
--   Base and below: native numbers, lists, byte strings, `std::map` as a list in the order of its
--     keys, and `Outcome`, the end of a call: it returns, it calls `exit`, or it does what C++ leaves
--     undefined (a read or a write out of range, an unset pointer).
--   Record: smkex/src/smkexrecord.cpp. Record/Layout, RoundTrip and Made are about the wire
--     format, Raw about the variant that takes blocks.
--   Smkex/Env: what the key exchange calls of the C library and OpenSSL, as parameters.
--   Smkex/Session, Hash, Send, Init, Handlers, Process: smkex/src/Smkex.cpp,
--     smkex/src/SmkexSessionInfo.cpp and the key pair and key derivation of smkex/src/crypto.cpp.
--     `World` holds the static members of `Smkex`; an operation takes a world and returns one. The
--     cases of the `switch` in `processSmkexMessageSip` are `handle_key`, `handle_nonce` and
--     `handle_nonce_h`, by the session's status.
--   Smkex/Cipher, Sealed: the ciphers of smkex/src/crypto.cpp, which the key exchange does not call.
--   Smkex/Release: the destructor of smkex/src/SmkexSessionInfo.cpp.
--   Smkex/Transition, Step, Received: the protocol's table `Next` and what a message does to the
--     sessions. Smkex/Verify, Agreement, Wire, Journey, Start, Early, Faults: the other
--     properties.
--   AutoResend/Payload, Pool, Engine, Engine/Run: auto_resend/src/MpMsgPayload.cpp, MpMsgPool.cpp
--     and MpAutoResendEngine.cpp. The engine's calls of the transport and of the database connectors
--     are logged in order.
--   AutoResend/Engine/Sift, Sort, Stable, Offers, Indexed, Fair, Tending, Commands, Removal: the
--     engine's properties.
--   DataMsg/Transport, Retries, Manager: data_msg/src/MpMsgTransport.cpp, MpMsgManager.cpp.
--   Buddy/BuddyList, Subscriptions: buddy/src/MpBuddyList.cpp.
--   Buddy/Directory, Filed: the buddy list as a function, and where its buddies stand.
--   Service/Pjsua, State, Addresses: PJSUA as a parameter, and the state of the services: the members
--     of `MpSIPStack`, `MpCallManager` and `MpUserAccount`, and the singletons as one record.
--   Sip/Config, Stack, Requests, Callbacks: sip_stack/src/MpSIPStack.cpp: its configuration, its start
--     and stop, what it asks of PJSUA, and the members `on_...` that PJSUA calls. Sip/Lifecycle, Codecs,
--     Delivery: its properties.
--   Calls/Manager: call_manager/src/MpCallManager.cpp, and the answering callback of
--     call_manager/src/MpCall.cpp. Calls/Notices, Second, Answers, Frame: its properties.
--   Account/User, Registration: user_account/src/MpUserAccount.cpp and MpAccSettings.cpp.
--   Service/Commands, Sound, Frame, Runs: sequences of calls of all the services. Service/Sample: a
--     PJSUA for tests.
--   Messaging: the engine, the transport, the SIP stack and the buddy list, joined as in
--     base_service/src/MpBaseService.cpp; a call that a component logs is carried out there. It is the
--     last thing its caller does under its locks, so that it comes after the change of the caller's
--     state. Messaging/Start: the constructors. Messaging/Life: the account and the buddies along
--     with the messages. Messaging/Marks, Pools, Stores, Tells, Transfer, Silent, Acts: what the
--     operations of the engine do and call. Messaging/Sending, Chain, Runs, Single, Stalled, Stranded,
--     Totals, Drain: the joined services.
--   Locks/Threads, Programs: utils/src/MpLock.cpp and the write side of utils/src/MpRWLock.cpp between
--     threads, and what the operations of the engine, of the transport and of the buddy list lock and
--     unlock. Locks/Order, Closed, Lawful, Families, Starts, Reports, Deadlock: which of them can wait
--     for each other. Locks/PoolUse, Nested: utils/include/MpPool.h under both sides of
--     utils/src/MpRWLock.cpp, with threads that call the callbacks and threads that add or remove one.
--   Utils, Utils/Buffer, Callbacks, Addresses: utils/include/MpStatus.h, utils/src/MpBuffer.cpp,
--     utils/include/MpPool.h, utils/src/MpUtils.cpp.
--   The modules Tests and Cases hold concrete inputs.
--
-- Choices. A block of memory is the list of its bytes, so that reads and writes have their bounds; a
-- null or unset pointer is `none`. Sessions are held by the keychain alone, by value, and a handler's
-- session is written back at its end. The loop of `sortMessages` runs on fuel, the square of the
-- list's length and one more: each run that swaps removes an inversion, and there are no more
-- inversions than that. `MpMsgPool::setWeight` keeps the wrap-around of its `int`. Hosts are
-- little-endian. `malloc` succeeds where the parameter `can_alloc` says so.
--
-- PJSUA and the objects of the application are a record of functions over a state `W`, so that the
-- order of the calls counts and every error can happen at every call. A port is the text that is
-- printed for it. Strings hold no zero byte.
--
-- In Locks a step is one lock that is taken or given back, of any thread; a lock is taken only when no
-- other thread holds it, as POSIX says of a mutex and of the write side of a read-write lock. What an
-- operation's data decides (which branch it takes, how often its loop runs) is left open there; so the
-- flag `started_` is not seen, and the two families of operations that are proved free of standstills
-- do not mix starts of the engine with reports of PJSUA. In Locks/PoolUse a step is one of a pool: a user
-- takes a copy of the callbacks and calls them one by one. Everywhere else an operation runs whole.
-- `pjsua_im_send` does not call back before it returns.
--
-- Not modelled: the destructors of the services and the template of the singletons (a singleton is a
-- member of the record of services), output (nor the null pointer of `ctime` for a time out of its
-- range, which `printRecord` would stream), logging, the fixed fields of the PJSUA configurations, the
-- members of the callbacks that only print (data_msg/src/MpMsg.cpp, most of call_manager/src/MpCall.cpp,
-- user_account/src/MpRegistration.cpp), and the manual tests.
pub mod Base
pub mod Utils
pub mod AutoResend
pub mod Record
pub mod Smkex
pub mod Service
pub mod Sip
pub mod Calls
pub mod Messaging
pub mod Locks
pub mod Account
pub mod Buddy
pub mod DataMsg
