-- ===== src/Lib.antt =====
-- line-go is a client of the LINE service in Go. Its messages are Thrift structs in one of two
-- encodings (protocol/), its sessions are files (storage/), it registers accounts
-- (registration/), a client syncs with the service and refreshes its token (client/, service/),
-- and a bot guards groups (guard/): the guard keeps its members, roles and settings in a store
-- that is saved to a file after each change, and asks the store what a member may do.
--
-- Protocol models protocol/. Protocol/Value has the data: Kind, Field (Spec and Fields), the
-- values that a writer accepts and a reader returns (Value), Message. Protocol/Varint has varint,
-- signed and binary of protocol/compact.go, Protocol/Compact its writer.structValue and
-- writer.value (struct_value, value), reader.structValue and reader.value (read_struct,
-- read_value), EncodeCall, DecodeStruct and DecodeMessage; Protocol/Binary has the same of
-- protocol/binary.go. Compact/Types and Binary/Types have the type codes, Protocol/Containers the
-- loops of the readers over lists and maps, Protocol/Outcome the errors of both, and Ends,
-- RoundTrip and Faults what is proved of them. Decoded says what the decoders make of a value,
-- integers that are too wide included, and which values they accept (IsReadable); Kept which
-- values are plain and what is then kept of them, in Protocol/Kept for both encodings.
--
-- Guard models guard/. Guard/Lists has the string lists of guard/store.go, Guard/Store its state,
-- roles and normalizeLocked, Guard/Store/Persist saveLocked, OpenStore, Backup and Restore,
-- Guard/Store/Roles, Blacklist and Settings the methods that change the state, Guard/War the
-- store's methods and decisions of guard/war.go. Guard/Store/Steps puts these methods together as
-- steps of a store; Normal, Invariant and Authority hold the proofs. Guard/Health models
-- guard/health.go, and Guard/Commands the parser of text commands in guard/engine.go.
--
-- Guard/Engine models guard/engine.go and the runtime of a war in guard/war.go. Memory and
-- WarRecords have what the engine remembers, Actions the calls that handlers share (kick,
-- protectorFor, ejectAndBlacklist, parkReserves), Invitation handleInvitation with
-- admitPrimaryFleetByGroupTicket, Kick handleKick, Handlers the other handlers of events and
-- Handle. Messages has handleMessage with the protections against floods and @All, Commands its
-- execute with MemberCommands, WarCommands executeWar with WarReports, KickAll kickAll, Reserves
-- configureReserves, launchRecovery and leaveBotFleet, Fleet reconcilePrimaryFleet. Leads is a
-- calculus of what an action of the engine keeps; Calm says that roles and bots stay as they
-- were, Fair who may be kicked, Refused what the store refuses a member without a role,
-- CalmStores what its methods keep, and the modules whose names begin with Fair, with HandleFair
-- last, follow the handlers.
--
-- A handler is a state monad over Engine; each call of the network and each reading of the clock
-- is a moment of Env, a function of a counter, so that every outcome and every order of outcomes
-- is covered; the calls made are the trace of the engine. A handler runs without others in
-- between. Of the goroutines that it starts, the fleet's reconcile and the recovery are entries
-- of the trace, AutoBlacklist beside a kick runs before the kick, and the jobs of a round of
-- kickAll run in the order in which they are made. The shuffle of kickAll is a list of swaps that
-- the moment gives. A report to the group that asks for profiles and formats a text is one call
-- with its heading and its members; an error of the store or of time.ParseDuration that a command
-- passes on is one fixed text, and a text about the speed, the roles or the help is what the
-- moment gives. Fleet has at most four passes; whether another run asked for one more is an
-- outcome of its moment.
--
-- Client models client/client.go with the services that it calls. Client has its state and the
-- monad of its methods; Client/Models has the readers of client/models.go and service/fields.go;
-- Client/Replies reads a reply and makes the session with new tokens; Client/Requests has
-- Service.call of service/service.go (call, attempt, refreshed_attempt), the refresh of
-- service/token_refresh.go and refreshAccessToken; Client/Sync has EnsureAccessToken,
-- BootstrapLatestRevision and SyncOnce; Client/Listen has the loop of Listen with its queues.
-- Revisions has the bounds of the revisions, Saved what a sync saves, Posts how often it posts
-- (Calls a call, Syncs a sync), Rotation what a second refresh does, Listen/Order which queue
-- gets what, Listen/Waits how long the loop waits.
--
-- A method of the client is a state monad over Client with errors and panics; a post, a save and
-- a reading of the clock are moments of its Env, and the posts are its trace. What another
-- goroutine does between two moments is not modelled: refreshMu and syncMu order the refreshes
-- and the syncs. The workers of Listen take the operations from the queues elsewhere. Listen has
-- no end of its own, so passes says what is so after n passes of its loop. Bytes that the decoder
-- returns as text become strings by a parameter. Durations are nanoseconds; the delays are below
-- half of what an int64 holds, so that retry *= 2 does not wrap around, and a time in seconds is
-- in the range of time.Time.
--
-- Storage models storage/session.go, Registration/Password models registration/password.go,
-- Registration/Legy the envelope of registration/legy.go (Headers its inner headers, Hash its
-- checksum, Envelope how it is opened again), Pkcs7 the padding there and in e2ee/manager.go,
-- E2ee the encryption of e2ee/manager.go with a shared secret (Payload how it is decrypted
-- again), and Files has the system calls of both savers. Common has the shared names.
--
-- An integer of the protocols is a natural number: a uint64 as it is, an int64 as its two's
-- complement pattern below 2 ^ 64, a byte below 256. Shifts and masks are products, quotients and
-- remainders by powers of two. A writer method is the bytes that it appends; a reader is the
-- bytes from its position on. A float64 is its pattern. The fields of a decoded struct and the
-- entries of a decoded map are the list of the writes to the Go map, the later ones over the
-- earlier; the entries that an encoder ranges over are a list in the order that range takes. Text
-- is its bytes.
--
-- The recursion of a reader runs on fuel: twice the number of bytes and one. It is enough because
-- every struct, and every value with the loop around it, takes at least one byte, so two calls
-- stand for each byte at most; Ends has the proof. A panic of the Go runtime is a result of its
-- own. Runtime is a parameter: which bytes are valid UTF-8, and the largest capacity that make
-- accepts.
--
-- A lock of the guard's store makes every method one step, so a method is a function from the
-- store to the store and its result, and a history is a list of steps. A map of groups is an
-- association list. The outcome of each system call is chosen freely by Calls. The store's JSON
-- (Json), strings.ToLower and the like (Strings, TextSearch), the session's JSON (SessionJson),
-- the sort of clients, the classes of runes (Unicode), base64, HMAC and strconv (Crypto), scrypt,
-- SHA-256 and AES (Ciphers, Primitives) are parameters. Times are milliseconds, and the time now
-- is an argument. The type and the time of an operation that the guard handles are natural
-- numbers: a negative type would be none of those it tests for.
--
-- Not modelled are the network, the browser and the terminal (transport/, auth/, registration/'s
-- dialogues, qrdisplay/, cmd/, examples/), the other calls of service/talk.go and its neighbours,
-- of client/ Open, SyncE2EESelfKey and the wrappers for chats, contacts and tickets, the keys of
-- e2ee/, config/, multi/, and of guard/ the start (RegisterClient, ReconcileStartup), the insides
-- of the reports about profiles, friends, history and health, the help texts, and the migration
-- of the old creator field, which works on raw JSON.
pub mod Client
pub mod Common
pub mod E2ee
pub mod Files
pub mod Protocol
pub mod Guard
pub mod Pkcs7
pub mod Registration
pub mod Storage
