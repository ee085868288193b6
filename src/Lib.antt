-- ===== src/Lib.antt =====
-- A verification of the core of mgl-realtime-server, the Go server of this repository: the calls,
-- the presence of users, the rate limits, the signaling over WebSockets, the authentication, and
-- the push messages. All paths below are under
-- mgl-realtime-server/internal.
--
-- How the program is put together. A client opens a call through the call service, which keeps the
-- calls in a store, starts a ring timer for each, and publishes what happens on an event bus. The
-- presence store keeps which devices of a user are online. A rate limiter counts the requests of a
-- key in fixed windows. The hub keeps the WebSocket connections: a connection authenticates with a
-- token, is listed under its user, and sends messages, which the hub hands to the orchestrator of
-- calls, whose answers it sends to the connections of the participants; other messages it relays
-- among the participants of a call. The orchestrator adds an authorizer, rooms of the SFU and
-- tokens to the call service. A middleware finds out who sends an HTTP request, and the
-- handlers of the API call the services. The message service turns a push, also one about a call, into a message and
-- a delivery for each device, in the tables of the database; a worker claims deliveries that are
-- due, hands them to the providers, and marks them as accepted, failed or to be retried with the
-- delays of the retry policy.
--
-- Which file models which code:
--   Base             what all parts share: tests, lists, maps as association lists (Base/Maps),
--                    results, contexts and the errors of domain/errors.go (Base/Results)
--   Call/Types       call/types.go
--   Call/Store       call/memory_store.go: Put, Get, Update, ActiveCallIDsForUser
--   Call/Creation    the checks of Create in call/service.go, and the call that it builds
--   Call/Edits       the closures that the methods of call/service.go hand to Update
--   Call/Service     those methods and the ring timer, as steps on the runtime: the store, the
--                    published events, the running timers and the calls handed to the handler
--   Call/...         the other files of Call are proofs: Roster, Users (FindParticipant and the
--                    users of a call), Lifecycle (the diagram of the states), Validity, Effects
--                    and Atomic (what a method does to the runtime), Actions and Reach (the steps
--                    and their sequences), Index and Sound (the invariants), Answers, Outcome and
--                    Created (what the methods return)
--   Call/Orchestrator  call/orchestrator.go and the service of sfu/service.go; proofs in
--                    Call/Orchestrator/Outcome
--   Auth             auth/auth.go and the checks of auth/jwt.go; proofs in Auth/Identities
--   Signal/Protocol  signaling/protocol/message.go
--   Signal/Connection  signaling/connection/conn.go; proofs in Signal/Connection/Buffer
--   Signal/Hub       the state, the tables and the delivery of signaling/websocket/hub.go; proofs
--                    in Signal/Hub/Delivered, Bindings, Wired and Changes
--   Signal/Replies, Login, CallHandlers, Relay  the handlers of the same file; proofs in
--                    Signal/CallHandlers/Sends and Signal/Relay/Receivers
--   Signal/Handlers  readPump, handle and handleAuthed of the same file; proofs in
--                    Signal/Handlers/Messages and Sessions
--   Signal/Reach     the runs of the hub; Signal/Scan, Delivery, Guards and Leaving are proofs about
--                    who gets a message, what a connection may do and what its end leaves
--   Api              what the handlers of api/server.go and api/calls.go share; the handlers in
--                    Api/Devices, Api/Messages and Api/Calls, the routes in Api/Routes; proofs in
--                    Api/Errors, Served, Responses and OwnUser
--   Presence         presence/store.go and presence/memory_store.go; proofs in Presence/Aggregate
--                    (the status of a user) and Presence/Devices (the writes)
--   Ratelimit        ratelimit/limiter.go; proofs in Ratelimit/Window, Agreement
--                    and Cleanup
--   Retry            retry/retry.go
--   Push/Types       domain/device.go, domain/message.go, domain/delivery.go
--   Push/Select      filterDevicesForMessage and its neighbours, service/message.go
--   Push/Validate    validateSend and the input of Send, service/message.go
--   Push/Tables      the statements of repository/delivery.go and message.go
--   Push/Devices     the statements of repository/device.go
--   Push/Registration  service/device.go; proofs in Push/Registration/Retired
--   Push/Send        Send and enqueueDeliveries, service/message.go; proofs in Push/Send/Dispatch,
--                    Stranding, Outcome and Queueing
--   Push/Calls       SendIncomingCall and SendCallSignal, service/message.go; proofs in
--                    Push/Calls/Repeats
--   Incoming         incomingcall/service.go; proofs in Incoming/Repeats
--   Push/Worker      queue/worker.go, with what it takes of provider/provider.go; proofs in
--                    Push/Worker/Settle, Completion, Progress and Budget
--   .../Tests        the code and the theorems at concrete inputs
--
-- Conventions. Each method is one step: the locks of the source make it so. Times are numbers of
-- nanoseconds and arguments, and the clock stands still within a method; ids are arguments, or
-- drawn from a numbered supply that stands for ULIDs. A cancelled context is a value. Counters are
-- natural numbers without a bound: they count attempts, requests of a window and rows, which stay
-- far below the 63 bits of the source. No function needs fuel: all loops run over lists.
-- The Go maps of the source are read in any order; where the order matters, the statement says so.
-- The providers, the ULIDs, the formatting of numbers, JSON, the library for tokens, the
-- authorizer, the SFU and the log of relayed messages are parameters. In the hub a Go map of
-- pointers is a heap of connections and lists of their ids, and a handler is one step: what a
-- handler does between two of its locks is not interleaved with other handlers.
--
-- The statements of a Send and of the worker may fail, each by itself, which is an argument:
-- `Tools.fails` for a Send, `Worker.fails` and `Worker.claims` for a tick. A statement that fails has
-- changed nothing. A cancelled request or a Stop in the middle of a tick are such failures from some
-- statement on.
--
-- Not modelled: failures of the statements of the device service, each of whose methods writes at
-- most once, and transactions that overlap; the stores and the bus over Redis, and with them a hub
-- on several nodes; the vendors' HTTP clients; the health routes; sockets, deadlines and the ids and
-- times of messages; LiveKit; configuration, metrics and logs.
mod Base
pub mod Ratelimit
pub mod Retry
pub mod Call
pub mod Presence
pub mod Push
pub mod Auth
pub mod Signal
pub mod Api
pub mod Incoming
