-- ===== src/Lib.antt =====
-- A model of mygosh, a remote shell, with the theorems that make it correct: the binary coder and
-- the encrypted frames of a connection (lib/bincoder, lib/transport, lib/wire), the multiplexer of
-- channels and requests that runs on it (lib/session), the protocol of one remote command
-- (lib/command), and what the server authorizes (lib/trust, app/server/authz).
--
-- The parts and their files:
--   Base: the names, numbers, lists, maps and results that everything shares. Text: Go's strings as
--     lists of bytes, with what the program uses of the packages strings and slices.
--   Bincoder (lib/bincoder): Encoder, Decoder and Stream are encoder.go, decoder.go and rw.go.
--     Bincoder/RoundTrip and Bincoder/Bounds are about the first two, Cursor is what is left to
--     read; Writing and Framing are about the third, over any writer.
--   Transport (lib/transport/transport.go): frames over noise's cipher states. Transport/Handshake
--     is the handshake's loop, Transport/Agreement how it ends, Transport/Frames what a peer gets.
--   Wire (lib/wire): `SendProto` and `ReceiveProto`; Wire/Delivery joins them over two transports.
--   Command (lib/command, proto/command): the frames. Command/Chunks, Starting and Events are
--     codec.go; Search, Carried and Started are about them. Command/Input, Server and Select are
--     `receiveInput`, the start and the end of `serve`, and its two `select` loops; Delivered,
--     Answered, Faults, Clean, Ending and Ended are about them.
--   Keys, Trust (lib/keys/keys.go, lib/account/user.go, lib/trust/authorized_keys_ssh.go): public
--     keys, accounts, and the options of an authorized key; Trust/Constraints is what they guarantee.
--   Authz (app/server/authz): Permissions, KeyConstraints, Credentials and Launch are the files of
--     that name, Match and Connection are authz.go. Authz/Canonical is about the permissions'
--     snapshot, Search about the search for a key, Permitted about a launch, and Admitted about a
--     connection and all that runs on it.
--   Session/Config (lib/session/config.go): `Config`, `Limits`, their defaults and `Validate`;
--     Config/Valid is what `Validate` accepts.
--   Session/Message (proto/session/session.proto, lib/session/handler.go): the messages, and
--     `World`, the application's callbacks and `proto.Size`, which are parameters.
--   Session/Error, Session/Channel, Session/State: the errors, the state of a channel
--     (lib/session/channel.go) and of the session (lib/session/session.go), and the monad of a
--     method, which leaves a state behind on success and on error. State/Keep has rules for what
--     a method keeps, State/Invert for what its success or failure says.
--   Session/Budget, Session/Registry, Session/Validate, Session/Outbound: the queue budget
--     (`reserveQueueBudget` and the per-channel shares), the channel table, the bounds on texts,
--     and the three queues (`enqueueWrite`, `enqueueDispatch`).
--   Session/Flow: `Send`, `Recv`, `handleChannelData`, `handleChannelWindowAdjust`. Flow/Delivery is
--     about a message that arrives, Flow/Link about the two ends of a channel and the wire between
--     them, Flow/Window about what its flow control promises, Flow/Sending, Flow/Releasing, Flow/Ends
--     and Flow/Reading about the calls of the two sessions as steps of such a link, Flow/EndOfFile
--     about the end of the data, Flow/Failure about sends that fail and messages that are refused.
--   Session/Lifecycle, Session/Requests, Session/Globals, Session/Opening, Session/Shutdown: the end
--     of a channel and its directions, the requests on both sides, the opening of channels, and the
--     end of the session. Lifecycle/Closed is about the peer's close, Requests/Answers about the
--     replies to channel requests, Opening/Accepted about the peer's acceptance of an open.
--   Session/Loops, Session/System: the receiver's, the dispatcher's, the writer's and a channel
--     worker's loops one round at a time, and `run`, a session under any schedule of such rounds,
--     calls, messages and timers.
--   Session/Preserve: what a predicate on the session needs so that every method and every step
--     keeps it. Session/Accounts: the accounting of the queues and their capacity; Session/Table: the
--     counters of the channel table. Both are such predicates. Shutdown/Stages, Shutdown/Ended and
--     Shutdown/Closing are about what the end of a session leaves behind.
--
-- How code and model correspond: a function `fooBar` of the source is `foo_bar` here. What a method
-- does between two waits (for the writer, a reply, a context) is one step, also where it unlocks and
-- locks a mutex on the way; what follows a wait is an action of its own in Session/System. A channel
-- is named by its local id, which `reserveLocalChannelID` counts up, and stands in `heap` for as
-- long as anything can hold it; `channels` are the ids in the table. Machine integers are natural
-- numbers with their wrap-around written out (`u32`, `u64`, `sub32`, `sub64`). The loops
-- of `Send`, `Recv`, the goroutines and `select` are taken one round at a time. Three loops run on
-- fuel: `writeFull` and `chunkedFrames` on the length of what is left, since each round takes a byte
-- or more; the binary search in `chunkedFrames` on its first upper end, which is at least the number
-- of sizes to try; and the handshake on any number, which has to exceed the messages that noise has
-- left.
--
-- Parameters, each with its documented contract where a theorem needs one: the application's
-- callbacks, `proto.Size`, the protobuf codec and protovalidate (`Codes`), io.Writer (`Honest`),
-- noise's cipher and handshake states (`Opens`, `Bounded`), utf8.Valid, strconv.Unquote, the key's
-- hash, path/filepath, and the server's account resolver, policies and file reader. A reader is the
-- bytes that it has yet to deliver. White space in Text is ASCII's.
--
-- Not modelled: in lib/session, `finalize`, which closes the connection and waits for the
-- goroutines, and the wake-up of callers that wait; the callbacks `OnOpen`, `OnEOF` and `OnClose`
-- return nothing and are left out. In lib/transport, the cipher suite's constants and the methods
-- that pass a call on to the connection. In lib/command, the loop of `copyOutput` around the frames
-- of one read. In lib/trust, known hosts, and the parsing of a line, which golang.org/x/crypto/ssh
-- does. Mutexes, logging and timers that only bound a wait are left out everywhere. lib/auth,
-- lib/establish, the key files of lib/keys, lib/tty, lib/strictfiles and the rest of app are not part
-- of the development.
pub mod Base
pub mod Text
pub mod Session
pub mod Bincoder
pub mod Transport
pub mod Wire
pub mod Keys
pub mod Trust
pub mod Authz
pub mod Command
