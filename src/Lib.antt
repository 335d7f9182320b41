-- ===== src/Lib.antt =====
-- The BBPS publish/subscribe system: a server that keeps topics and their subscribers, and a client
-- that subscribes, unsubscribes and publishes over TCP, with JSON for commands and responses, and
-- is sent the topics' messages as UDP datagrams.
--
-- Parts, and the files that model them (paths from the repository's root):
-- - src/shared/commandIdentifiers.h, statuscode.h, communicationParameters.h: the enumerations and
--   the tables of names, in Protocol/Identifiers. A value that is cast to an enumeration and has no
--   name there is kept as `unnamed`.
-- - src/shared/command.cpp, response.cpp, message.cpp: what goes over the wire, in
--   Protocol/Command, Protocol/Response (with Response/Codec for `serialize` and `deserialize`) and
--   Protocol/Message.
-- - src/server/topic.cpp: Server/Topic, without `publishMessage`, which is in Server/Sending
--   together with `ClientConnection::SendMessage` of src/server/clientconnection.cpp.
-- - src/server/server.cpp: the handlers of the five requests in Server/Requests,
--   `checkTopicTimeouts` in Server/Heartbeat, `handleApproachingClient` in Server/Dispatch. The
--   state that they share is the record `Server` of Server/State. Server/Threads lets requests and
--   rounds of the heartbeat take turns in any order, as the mutex does: each handler holds it from
--   its first read to its last write.
-- - src/server/main.cpp: the loop over the arguments in Server/CommandLine. Server/Program is the
--   whole program, with the constructor of `Server` and `startServer`: what `socket`, `bind` and
--   `listen` come to is a `Listener`, and what `accept` brings and the turns of the threads are a
--   list of `Event`. The turn of a connection is a whole `handleApproachingClient`. Server/Schedule
--   runs turns that are given as a list.
-- - src/shared/arrayStringToVectorString.h: Protocol/ArrayStrings; the C++ library's `getline` with
--   a delimiter is Std/Getline.
-- - src/client/client.cpp: the operations, `sendMessage` and the destructor's loop in Client,
--   `logResponse` in Client/Log, `handleMessages` and `printMessage` in Client/Messages. What
--   becomes of a connection is the type `Exchange`, and what `recvfrom` delivers a list of
--   `Reception`. The destructor's loop has fuel, one for each topic that is left, which is enough
--   as each round takes one away at least.
-- - src/client/main.cpp: the loop over the arguments in Client/Arguments, `getPortNumber` and
--   `isValidIPv4Address` in Client/Address, and what `main` does then in Client/Program, where the
--   client's constructor is left to `Opening`, what its system calls come to. The thread for
--   messages, which the constructor starts and the destructor joins, is given what it receives, and
--   what it throws ends the program. The loop has the number of the arguments for fuel, which is
--   enough as each round takes one.
-- - Conversation puts the client's operations and the server's handler together: a single request
--   in Conversation/Operations and Unsubscribing; the client's whole program, from its arguments
--   on, in Programs, Sessions, Listing and Asking; the way of a message from one client to another
--   in Delivery.
--
-- How the state corresponds. Topics and connections are objects made by `new` and held by pointers;
-- the server's two vectors own them. Server/Memory models such a vector as the list of its objects
-- with their addresses, so that following a pointer is a lookup that fails when the object is gone.
-- A null or dangling pointer that is followed, and an uninitialised value that is used, is the
-- outcome `undefined`; a C++ exception is the outcome `throws`. Server/Directory is the view
-- without pointers, with a specification of each request; a topic's timeout is no part of it.
-- Server/Directory/Service is the same for a whole request, from its bytes to its response.
--
-- Integers. `int` and `time_t` are integers without bound, except where the code converts: `htons`
-- keeps 16 bits, the cast of a `time_t` to `uint64_t` is taken modulo 2 ^ 64, and `stoi` and
-- `stoll` throw outside 31 and 63 bits. Std/Decimal models them and `to_string` of the C++ library;
-- its `digits` has the number itself for fuel, which is enough as each round divides by ten.
--
-- Parameters. JsonCpp is the record `Json` of Protocol/Json, with what its documentation says in
-- `IsLawful`: what is written is read back, members are found by their keys, and keys come in
-- order. Tests/Documents is an instance. Protocol/Command/Defined asks only that its calls return
-- or throw; `parse` throws for a document that is nested too deep. `time(nullptr)` and the number
-- of descriptors that the process may open are arguments, and so is `format_time`, the text that
-- `strftime` makes of a time by `localtime`, or nothing where that is null; the buffer of 21 bytes
-- is Client/Log's.
--
-- Not modelled: the insertion of a missing key into the tables of names, which the server's threads
-- do without the mutex; what the system calls do, but for their outcomes; `printUsageInformation`
-- of both programs, which writes a fixed text; the level of the log. Logging by spdlog is left out,
-- but for the lines that the client writes for a response and for a message. src/include holds
-- spdlog and JsonCpp, which are not the repository's own.
pub mod Prelude
pub mod Std
pub mod Protocol
pub mod Server
pub mod Client
pub mod Conversation
pub mod Tests
