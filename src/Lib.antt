-- ===== src/Lib.antt =====
-- NIMNear (backend/): the payment core of the Go server.
--
-- The server sells seats of events and settles shareable payment requests, both in NIM on the Nimiq
-- chain. A client submits the hash of a transaction; the server reserves the hash for one object, asks
-- a Nimiq node whether the transaction pays for it, and moves the object along its lifecycle. Workers
-- repeat the question for objects that are still open, and a deadline expires them. Free events are
-- joined without a payment, and share the seats of an event with the purchases.
--
-- Parts, with the code that each models (paths below backend/internal):
--   Store           the tables: domain/paymentrequest/model, domain/eventpurchase/model,
--                   domain/event/model with the constraints of migrations/00014_create_events.sql, and
--                   infrastructure/postgres/nimiqtx (the consumed hashes)
--   Requests        infrastructure/postgres/paymentrequest/request_repository.go, one function per
--                   method of RequestRepo: Rows (Create and the reads), Cancel, Submit, Settle (claim,
--                   list, settle, expire, recover); Calls are sequences of them; Cases splits each by
--                   the updates that it makes; Lifecycle, Claim and Candidates have the theorems
--   Requests.UseCase   application/paymentrequest/usecase: request.go (Setup, Commands) and
--                   reconciliation.go (Reconcile), with Create and ListOwned in Creation; Verified has
--                   the lemmas on new payments, and Created those on new requests
--   Purchases       infrastructure/postgres/eventpurchase/purchase_repository.go, in the same way;
--                   Capacity has the theorem on Create
--   Purchases.UseCase  application/eventpurchase/usecase/purchase.go, in the same way
--   UseCases        what the two use cases have in common: policy, hash pattern, verified identity
--   Money           the parsers and printers of amounts: parsePriceLunas and formatPriceNIM of
--                   application/event/usecase/events.go, parseAmountLunas and formatNIM of request.go;
--                   Amounts has the code, Decimal the numerals of strconv, fmt and big.Int
--   Nimiq           infrastructure/nimiq/rpc: client.go (Verifier has NimiqVerifier, Client doCall, Calls
--                   the calls of the client, Wire what it decodes), health.go (Health) and
--                   wallet_reader.go (Wallet); shared/nimiq/network.go, and shared/nimiq/address.go
--                   (Address); the theorems are in Confirmed, Heard, Uint64 and Normal, on the lemmas of
--                   Read (what a call has read) and Outcomes (what an outcome needs)
--   Events          infrastructure/postgres/event/event_repository.go (View, Lifecycle, Reads) and
--                   infrastructure/postgres/eventparticipation/participation_repository.go
--                   (Participation); Calls are sequences of their operations and of those on
--                   purchases, and Cases splits each by its writes; Distinct, Seats, Lookup, Capped,
--                   Sold, Joined and Within prove the bound on seats, Kept the lifecycle, and Rsvp,
--                   Updated and Publishable what single operations do
--   Events.UseCase  application/event/usecase/events.go (Build, Commands),
--                   application/eventparticipation/usecase (Commands) and
--                   shared/validator/media_url.go (Media)
--   Limits          shared/ratelimit/limiter.go (Rate, with the theorems in Window) and
--                   shared/pagination/pagination.go (Pages)
--   SignIn          application/iam/usecase/nimiq_auth.go (Keys, Verify) and
--                   infrastructure/postgres/iam/nimiq_auth_repository.go (Tables, Consume); Closed and
--                   Once have the theorems
--   Realtime        domain/realtime/event/events.go
--   Hub             the WebSocket hub: domain/realtime/model/room.go (Rooms), infrastructure/websocket/
--                   hub.go and client.go (State, Operations), session.go with its end of a session
--                   (Ending), the end of Handler.Connect (Sessions) and its handleClientAction
--                   (Actions), event_bridge.go and fanout.go (Bridge); Calls are sequences of the
--                   hub's methods, the write pumps, and the ends of sessions whose client is in no
--                   room, while Sessions has the ends of the others; Views, Distinct and Clients have
--                   the lemmas on the two indexes of rooms, Sound, Safe and Reached the invariant,
--                   Owned, Unchanged and Private who is in a user's room, Delivered, Addressed and
--                   Relayed what a message reaches, Names the room names
--   Gateway         gateway/sqlident.go (Ident), gateway/dynamic_handler.go (Statements, Handler, and
--                   Dispatch with backend_handler.go and resolver.go), gateway/pipeline.go (Pipeline),
--                   infrastructure/postgres/apimanagement (Endpoints), application/apimanagement/usecase
--                   (Management), and infrastructure/gateway/interceptors/pii_masker.go with
--                   domain/gateway/interceptor.go (Masking); Columns, Safe, Scoped, Routed,
--                   Governed, Retired (on Preserved) and Masked have the theorems
--   Http            shared/errors and shared/response (Status), shared/httpx/client_ip.go (ClientIp,
--                   with the theorems in Trust), and shared/middleware with the origin check of
--                   infrastructure/websocket/upgrader.go (Headers, Guards, Origins)
--   Payments        both repositories over one database, and the use cases with the Nimiq verifier
--   Prelude         shared helpers; Prelude.Results is shared/errors
--   Tests           the theorems at concrete inputs, and runs of the code
--
-- How the code is read. A table is a list of rows, and a repository method is a function from the
-- tables to a result and the tables after it. One SQL statement is one step: an UPDATE with a WHERE is
-- `update_where` of the predicate and the assignment, with RETURNING as `returning`; the unique indexes
-- of the migrations are tests before the write. A transaction is `transact`: its writes are kept on
-- Commit and dropped by the deferred Rollback. Methods run one after another, in any order: the row
-- locks and the single statements of the code make them atomic, and a sequence of calls is any
-- interleaving of whole methods. Every database call of a method can fail, as `Answers` says, and a
-- failed Commit counts as rolled back. Readings of the clock and of NOW() are arguments. An operation
-- of a use case passes through its repository calls in the order of its text.
--
-- Conventions. Times are microseconds since the epoch and durations microseconds, both natural numbers
-- (the use cases pass positive durations; normalize_policy takes signed ones). An identifier is a
-- number, with 0 for uuid.Nil. Amounts in the tables are natural numbers (CHECK constraints keep them
-- positive), and the verifier takes a signed one, with the conversion to uint64 written out. Texts are
-- lists of bytes; upper and lower case and white space are those of ASCII. Error messages are left
-- out, and kinds and codes kept. The recursion is on lists only, so no fuel is needed.
--
-- Parameters: the Nimiq node (record Rpc; behind the client of Nimiq, record Http and its Json), the
-- verified addresses of a user (Resolver), the event bus (Bus), and the failures of the database
-- (Answers). The use cases take any verifier; Payments.OnChain gives them the one of Nimiq.Verifier.
-- The use case of events takes the lookups of places and calendars, url.Parse, and the type of
-- coordinates with its two range tests. The Redis of the limiter is a record of the two commands,
-- with their documented behaviour as the hypothesis IsRedis. The sign-in takes its hash functions,
-- the check of a signature, tokens, base64 and RFC 3339.
--
-- In Hub a Go panic is a value, `panics`: a send on a closed channel, or a second close. The methods
-- of the hub hold its lock, so a sequence of calls is any interleaving of them; a client and its
-- channel are found by the client's id, which uuid.New makes fresh. In Gateway a statement is its
-- text with its arguments, and executing it is left out, and a call of Management is one step, so
-- that two that overlap are not modelled; in Http a guard answers a status or passes. Further
-- parameters: UUID texts (Uuids), the quoting of pgx (Sanitizer), json.Marshal, the repositories and
-- permissions of the pipeline (Policies), the maps of encoding/json (JsonMaps), the parsers of
-- package net and net/url, and token checks.
--
-- The events table of the model has no columns for coordinates, and the response of an event is its
-- row with what MapEvent computes. A limiter is modelled for one key. The bound on seats counts a
-- pending purchase until its status changes, whether or not its hold has lapsed; so a call of
-- ConfirmExpiredRecovery and an update that sets a capacity are not covered by it. A note of a payment
-- request is a list of code points.
--
-- Not modelled: users and most foreign keys, metrics, response objects, logs; a nil repository and a nil
-- use case; sockets, brokers, the exchange of the HTTP proxy, the schema validator and the
-- transformers of the gateway; the rest of the backend (password accounts and roles, tenants,
-- profiles, places, calendars, the use case of the wallet), its HTTP handlers, configuration and
-- workers, and the frontend.
pub mod Prelude
pub mod Store
pub mod Realtime
pub mod UseCases
pub mod Money
pub mod Requests
pub mod Purchases
pub mod Nimiq
pub mod Payments
pub mod Events
pub mod Hub
pub mod Gateway
pub mod Http
pub mod Limits
pub mod SignIn
pub mod Tests
