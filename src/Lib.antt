-- ===== src/Lib.antt =====
-- Verification of the call control, of the transaction layer and of the call controller of
-- go-b2bua, a SIP back-to-back user agent in Go.
--
-- A user agent (`Ua`, sippy/ua.go) is one leg of a call. Messages come to it from the SIP transaction
-- manager, events from its call controller, which passes them on to the user agent of the other leg.
-- It hands each to its current state (sippy/uac_state_*.go for a call that it places,
-- sippy/uas_state_*.go for one that it receives, sippy/ua_state_*.go for both); the state answers with
-- messages and with events for the controller, and may name the next state.
--
-- The transaction manager (sippy/sip_transaction_manager.go) takes every datagram, answers one that
-- came before from its cache, finds the transaction that a message belongs to or makes a new one, and
-- offers new requests to the user agents. A transaction (sippy/client_transaction.go,
-- sippy/server_transaction.go) retransmits, times out, and tells the code above it.
--
-- The call controller of the RADIUS B2BUA (cmd/b2bua_radius/call_controller.go) joins two user
-- agents: `uaA` for the call that comes in and `uaO` for the leg that goes out. It has the caller
-- authorised, gets a list of routes (cmd/b2bua_radius/b2broute.go), makes a leg for the first one, and
-- for the next one when a leg fails.
--
-- Files, and the code that they are about:
--   Prelude                 names of the libraries, Boolean tests and lists; Integers for signed times
--   Utils/UrlEncode         sippy/utils/urlencode.go, RoundTrip for its theorems
--   Sip                     the parts of messages that the call logic reads (sippy/headers, sippy/sip_msg.go)
--   Event                   sippy/cc_events.go and sippy/cc_event_redirect.go
--   Ua/State                the fields of `Ua` in groups, the states with their own fields, and effects
--   Ua/Timers               timers, time stamps and `GetAcct`
--   Ua/Routing              `UpdateRouting`, `GenRequest`, `SendUasResponse`
--   Ua/Exec                 the statements of a handler, as a monad that ends with a `return`
--   Ua/Steps                statements that several states share
--   Ua/Uac, Ua/Uas          one module for each state: Idle, Trying, Ringing (on the server side with
--                           the reliable one), Cancelling, PreConnect, Updating
--   Ua/Connected            the connected and the disconnected state
--   Ua/Core                 the methods of `Ua` that its surroundings call: State has `ChangeState`,
--                           `EmitEvent` and `OnDead`; Events `RecvEvent`, `Disconnect` and the timers;
--                           Messages requests, responses, ACK, PRACK and cancel
--   Ua/Keepalive            sippy/keepalive_controller.go, one controller; OneByOne for its theorem
--   Ua/Graph                the diagram of the states
--   Ua/Exec/Keeps, Ua/Frame what no handler changes, proved handler by handler
--   Ua/Reach                the same for the methods, with the ways that they take in the diagram
--   Ua/Trace                sequences of calls; Laws has what holds of every life of a user agent
--   Ua/Laws                 what single parts promise; Ending, Hangup, Failing and Tagless are
--                           about whole methods
--   Transaction/Message     what the transactions read of a message, and their identifiers
--   Transaction/Cache       the retransmission cache; CacheLaws for its theorems
--   Transaction/Base        sippy/base_transaction.go, and what a transaction asks of the manager
--   Transaction/Server      sippy/server_transaction.go: Sending and Handlers are the code, Steps its
--                           lives, the other modules theorems
--   Transaction/Client      sippy/client_transaction.go: Final and Handlers are the code, the other
--                           modules theorems
--   Transaction/Manager     sippy/sip_transaction_manager.go: Nat has the addresses, Outgoing what the
--                           code above calls, Env its surroundings, Requests and Incoming the handling
--                           of datagrams; Known, Stuck, Creating, Consumers and Matching are theorems
--   B2bua/Duration          `time.Duration` of cmd/b2bua_radius, an int64 of nanoseconds
--   B2bua/Route             `B2BRoute`: `customize` and `getNHAddr`
--   B2bua/State             `callController`, its states, and the callbacks of its user agents
--   B2bua/Placing           `placeOriginate`
--   B2bua/Authorising       `rDone`
--   B2bua/Beginning         `RecvEvent` for the first event of `uaA`
--   B2bua/Controller        `RecvEvent`, `group_expires`, `disconnect`, and what happens to a call
--   B2bua/Hunting           the order of the legs: Routing, Beginning and Steps go through the code
--   B2bua/Credit, NextHop   theorems on the credit time and on the address of a leg
--   Tests                   concrete calls; Transactions and Calls for the other two parts
--
-- How the code is modelled. A method is a function of the user agent and its arguments. A handler
-- writes to the user agent and ends with a `return` of a state and a callback, so that what it wrote
-- before an early return stays. Responses, requests, callbacks, timers that start and events that the
-- controller gets are effects, recorded in `out` with the latest first. What the surroundings answer
-- during a call (the clock, the random first CSeq, a fresh Call-ID, a refusal of the transaction
-- manager, the errors of the SDP hooks) is the record `World`; each call of a method gets its own.
-- Times are nanoseconds in the natural numbers, and a duration below 0 counts as 0, but for the
-- durations of `GetAcct`, which are signed. A header that cannot be parsed is `none`. A nil dereference or an index out of range ends the handler, as the
-- recovery around the callbacks makes it do. `RecvEvent` within the REFER of a connected call is a
-- parameter of that handler. Every loop of the code is a recursion on a list, so no fuel is used.
--
-- A transaction writes down what it asks of the manager and which callbacks it runs; the manager does
-- the former when the handler is done. The transactions stand in a store, and the maps of the manager
-- hold their references. A datagram comes with what the parsers make of it. The sockets, `net.ParseIP`
-- and what the code above does with a new request are parameters; of the callbacks of a transaction
-- the model keeps that they run. Times of transactions are milliseconds.
--
-- The call controller sees its user agents through the interface `sippy_types.UA`: their states are
-- fields of its own state, what it tells them is an order, and what they do meanwhile is a list of
-- callbacks, a parameter, that run before the order returns. The events that they emit are later
-- steps. The configuration, `net.ParseIP`, `strconv.Atoi`, `strings.SplitN`, the hash of the Call-ID,
-- SDP bodies, `re_replace`, `NewB2BRoute` and the start of an RTP proxy session are fields of the
-- parameter `Host`. A duration wraps around as an int64 does. The authorisation answers once.
--
-- What the theorems on lives assume of the surroundings: a transaction is cancelled only while its
-- call can still be dropped, and `goDead` runs on the timer of a failed, disconnected or cancelling
-- call. Callbacks do not call the same user agent while one of its methods runs. The callbacks of a
-- server transaction for a PRACK are set only before it is cleaned up. A keepalive controller is seen
-- until it is stopped: `Stop` leaves the next timeout running, so that a user agent that comes to the
-- connected state again can have two controllers at work.
--
-- Not modelled: parsing and printing of messages, headers, routes and SDP; RTP proxies,
-- registration, redirection, RADIUS requests, the map of calls, the other commands, configuration,
-- logging and sockets; the locks, under which each call of a method is one step, but for the lock of
-- the server transactions while requests come in; what a callback of a client transaction does to the
-- manager; and user agents that override the methods of `Ua`.
mod Prelude
pub mod Utils
pub mod Sip
pub mod B2bua
pub mod Event
pub mod Ua
pub mod Transaction
pub mod Tests
