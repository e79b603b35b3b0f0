-- ===== src/Lib.antt =====
-- A model of the secure access relay's core, with theorems that make it correct.
--
-- An operator reaches a service behind an agent through a relay. The agent and the operators hold
-- one connection each to the relay. A connection carries frames (internal/proto), a session
-- (internal/mux) multiplexes streams over them with credit-based flow control, and a stream to an
-- agent is opened with a signed grant, which the control plane issues under a policy
-- (internal/control/policy) and the agent verifies offline. The control plane keeps who is enrolled,
-- which grants it issued and which of them it took back in a database (internal/storage), which the
-- relay asks before it joins a stream.
--
-- Files, by the code they model:
--   Proto/Reason     internal/proto/reason.go: reason codes; an unknown code is `other`.
--   Proto/Frame      internal/proto/frame.go, limits.go: frame types, `encodeHeader`,
--                    `decodeHeader`, `ReasonFor`.
--   Proto/Codec      internal/proto/codec.go: `Reader` over the bytes that will arrive and the
--                    error after them, `Writer` over the outcomes of the connection's writes.
--   Proto/Handshake  internal/proto/handshake.go: payloads of the handshake and STREAM_WINDOW.
--   Proto/Grant      internal/proto/grant.go: `canonical`, `Sign`, `Verify`, `Encode`,
--                    `DecodeGrant`. crypto/ed25519 is the record `Ed25519`, a parameter.
--   Mux/Stream       internal/mux/stream.go: one end of a stream. A `Read` or `Write` that waits
--                    in the code answers that it is blocked, with what it has done until then.
--   Mux/Flow         the two ends of a stream and the frames between them, as a step relation:
--                    data, credit, the ends of the stream by either side, and the loss of the
--                    session. A call that sends a frame is one step with the frame, so that a
--                    `Write` and a `Close` of one end that overlap are not ordered otherwise.
--   Mux/Session      internal/mux/session.go: a session's state, `Open`, `AcceptStream`,
--                    `readLoop`, `dispatch`, `Close`, `shutdown`, keep-alive, and the methods of
--                    a stream with the frames they send (Ops, Dispatch, Streams); Run puts them
--                    into one function of events.
--   Mux/Handshake    internal/mux/session.go: `Dial`, `Accept`, `Admit`, `Refuse`, as actions on a
--                    connection whose bytes to come and whose outcomes of writes are given.
--   Bridge           internal/bridge/bridge.go: `JoinWithBudget`, whose two goroutines are events
--                    in any order, one read or write each.
--   Control/Policy   internal/control/policy: `Evaluate`, the checks of `LoadRules`.
--   Control/Grants   internal/control/grants: `Issue`, `StateOf`.
--   Control/Login    internal/control/login: `New`, `Begin`, `Resolve`, `End`, `EndAllForUser`.
--   Control/Enrollment
--                    internal/control/enrollment, internal/ca: `Enroll`, `VerifyEnrolled`, `Renew`,
--                    `IdentityOf` and the checks of `Sign`; what crypto/x509 answers is given.
--   Control/Audit    internal/control/audit: `Record` and the events that it is called with.
--   Control/Http     internal/control/httpapi: the handlers, from a request whose body has been
--                    decoded to its answer: Granting (`handleGrant`), Logins (`handleLogin`,
--                    `handleLogout`), Enrolling (`handleEnroll`, `handleRenew`). Callers says whom
--                    they take for the caller. An answer holds what the code puts in base 64 and
--                    in text.
--   Credentials      internal/identity: `Load`, `DueForRenewal`, `Renew`, `RenewIfDue`, over a
--                    state directory whose files may be absent and whose writes may fail; PEM and
--                    x509 are the record `Pki`, a parameter.
--   E2ee             internal/e2ee: `verifyPeer`, `finish`, `Client`, `Server`, over a handshake of
--                    crypto/tls whose outcome is given.
--   Backoff          internal/backoff: `withDefaults`, `Next`, `Reset`; the random number and
--                    float64, with the functions of package math on it, are parameters.
--   Operator         internal/operator, cmd/sarctl: Sessions (the session that is kept, and the
--                    commands that use it), Grants (`grant`, `requestGrant`), Forwarding (`New`,
--                    `session`, `handle` up to the join). What an HTTP client, the relay and the
--                    other end answer is given.
--   Storage          internal/storage: enrollment tokens, identities, and the ledger of grants,
--                    sessions and audit events. A statement of SQL is a function of its table; each
--                    call is told whether the database answers it and whether it commits.
--   Agent            internal/agent: `handleStream` up to the join of its two ends, as the list of
--                    its actions, `Lookup` and `LoadAllowlist`. Package net is the
--                    record `Net`, a parameter; the clock's readings and the outcomes of the
--                    inner session and the dial are a record as well.
--   Relay/Live       internal/relay/authorization: `LiveStreams`, by grant.
--   Relay/Joining    internal/relay/relay.go: `joinStream`, as the list of its actions; what the
--                    control plane and the agent answer is given.
--   Relay/Serving    internal/relay/relay.go: `serve`, `serveAgent`, `serveOperator`, from the
--                    certificate of a connection to what it is served as.
--   Relay/Registry   internal/relay/sessions: `Registry`, by device; whether a session has ended
--                    is a parameter.
--   Common           names and lemmas that the parts share.
--   Tests            concrete runs.
--
-- Numbers are natural, with the wrap-around of `uint32` and `uint64` written out. A time is the
-- nanoseconds since the least time of `time.Time`, in whole numbers. A stream is an object of a
-- session's store, which a caller keeps when the session's table has lost it. The goroutines of a
-- session are events in any order; each holds the session's lock where the code does. The loop of
-- `Write` runs on fuel, the number of bytes, which is enough as each round sends one or more.
--
-- Not modelled: the listening and accept loops of internal/relay, internal/operator and
-- internal/control/httpapi, what internal/agent does after the join and to keep its connection,
-- listings for administrators, the schema's migrations, TLS, the sealing of key files, the enrollment
-- code, flags, services, network watching and logging. The order in which a handler's log lines and
-- audit events are written is that of the code, the log lines themselves are left out.
pub mod Common
pub mod Proto
pub mod Mux
pub mod Backoff
pub mod Bridge
pub mod Agent
pub mod Control
pub mod Credentials
pub mod E2ee
pub mod Operator
pub mod Relay
pub mod Storage
pub mod Tests
