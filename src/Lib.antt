-- ===== src/Lib.antt =====
-- A model of synctang, which unlocks the LUKS volumes of a machine with the help of a phone or of
-- another key holder, and proofs of what its parts promise.
--
-- The parts and how they interact. A volume's secret is never stored: enrolment (mrcore/mr1.go)
-- encrypts it under a key that the machine can only derive again together with the key holder, by a
-- blinded exchange over P-256 (mrcore/group.go). What enrolment produces is kept in a LUKS2 token
-- (mrcore/token.go), one entry for each key holder, parallel to the list of keyslots.
-- cmd/synctang-unlocker/enrol.go writes keyslots and token by runs of cryptsetup, whose header text
-- cmd/synctang-unlocker/luksdump.go reads. At boot cmd/synctang-unlocker/agent.go admits the enrolled
-- key holders, exchanges framed messages (mrcore/wire.go) with one of them, verifies the secret and
-- answers systemd's password request. The phone (mobile/mobile.go) dials, over several transports that
-- mrcore/transport/multi.go races against each other, checks the challenge and answers it. A phone is
-- enrolled by a pairing (mrcore/pair.go, cmd/synctang-unlocker/pair.go), in which it proves the code
-- that the machine shows.
--
-- Which file models what:
--   Prelude, Io, Text, Assoc, Action    lists of bytes, readers and writers, strings, maps, and calls
--                                       that change a state and may fail, with Hoare triples for them
--   Scalar                              mrcore/group.go: scalarInRange, ValidatePrivateScalar,
--                                       randomScalarFrom
--   Group                               mrcore/group.go: the interface Group and p256Group
--   Mr1                                 mrcore/mr1.go: Enrol, ChallengeStart, FinishFullPoint, FinishXOnly,
--                                       ValidateChallengePoint
--   Token                               mrcore/token.go: MarshalJSON, UnmarshalJSON
--   Wire                                mrcore/wire.go: WriteMessage, ReadMessage
--   Pair                                mrcore/pair.go, cmd/synctang-unlocker/pair.go: PairProof,
--                                       runPairOnce, the operator's questions
--   Label                               mrcore/label.go: SafeLabel
--   Race                                mrcore/transport/multi.go: race, closeLateArrivals
--   Session                             mobile/mobile.go and failure.go: Connect, AnswerWithScalar,
--                                       Decline, Cancel, Close; mobile/pair.go: Pairer.Pair
--   Network                             mrcore/transport/network_config.go, parseDiscoveryURL, and
--                                       network.go of both commands: loadNetworkConfig
--   LuksDump                            cmd/synctang-unlocker/luksdump.go
--   Enrol                               cmd/synctang-unlocker/enrol.go and transportid.go,
--                                       mrcore/recipient.go: enrolOnce, removeRecipient,
--                                       replaceRecipient and what they call
--   Agent                               cmd/synctang-unlocker/agent.go and discover.go: serveOneExchange,
--                                       runExchange, the password requests, chooseMr1Device
--   Status                              mrcore/transport/machine_status.go and discovery_backoff.go,
--                                       mobile/status.go
--   Progress                            mobile/progress.go
--   Journal                             internal/journal/journal.go: Encode, FieldName, Handle
--   Resolver                            cmd/synctang-unlocker/resolver.go: ensureResolverAt
--
-- How code becomes a definition. A byte slice and a string are lists of numbers; a Go (value, error)
-- pair is a Result; a function that changes a state takes and returns it (Action). The state of an
-- operation on a volume is Enrol.Host.Host: the world that cryptsetup changes, the source of
-- randomness, and the log of the runs. The state of an exchange is Agent.Exchange.Session, with a log
-- of what was sent, tested and delivered. The state of a pairing is Pair.Machine.Window, with what the
-- conversation has shown so far. A phone's session is Session.Phone.Session, beside the world that the
-- network and the clock change. Goroutines are a step relation: Race.Step has one constructor for each
-- thing that a leg, the loop of the race or the closing of late connections can do next.
--
-- Parameters are the code that is not in the repository: the curve (crypto/internal nistec), SHA-256,
-- HKDF and AES-GCM, encoding/json at each type, cryptsetup, the socket, the file system, Syncthing's
-- Device IDs, net/url, net.ParseIP and http.ParseTime, base 32 and package unicode. Laws of theirs that a theorem needs are named
-- hypotheses (Group.P256.NistecLaws, Mr1.Facts.CryptoLaws, Token.Laws.JsonLaws,
-- Session.Waits.Clock, Session.Recovers.EncodesX), each with an
-- instance that satisfies them: a group of three points, a cipher that stores its key, a plain codec.
--
-- Bounds and fuel. randomScalarFrom loops until a block is a scalar: random_scalar_from takes fuel,
-- one for a round; a round takes 32 bytes, so that more fuel than the source has bytes is enough. itoa takes one round more than the
-- number. Connect and Pair dial until they
-- succeed, are cancelled or run out of time: connect_loop and pair_attempts take fuel, one for an attempt, and more fuel
-- than the context allows waits is enough. All other loops are recursion on a list, or on the number of attempts or of slots. Integers
-- are natural numbers, with the wrap-around written out in the borrow loop and in the lengths; int and
-- uint64 values that are parsed are range-checked as strconv does. Times are natural numbers of
-- nanoseconds.
--
-- Not modelled: relays, local discovery and the lookups themselves; the Android app; command lines, QR codes, logs and packaging. In the modelled parts: time limits other
-- than that they may close a connection, the wiping of buffers other than what a call returns, the texts
-- of error messages, the jitter of the dial's retry delay, the Unicode parts of TrimSpace, Fields and
-- ToUpper. Calls on one phone's session do not interleave. AnswerWithScalar and dialHook give the lock
-- up and take it again; here each of them is one step, so nothing comes between RequestPoint and the
-- answer, or between the note of the route and the stage. What Cancel on another thread does to a
-- Connect is a parameter of it.
pub mod Action
pub mod Agent
pub mod Assoc
pub mod Enrol
pub mod Group
pub mod Io
pub mod Journal
pub mod Label
pub mod LuksDump
pub mod Mr1
pub mod Network
pub mod Pair
pub mod Prelude
pub mod Progress
pub mod Race
pub mod Resolver
pub mod Scalar
pub mod Session
pub mod Status
pub mod Text
pub mod Token
pub mod Wire
