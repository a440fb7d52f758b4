-- ===== src/Lib.antt =====
-- Verification of the payment protocol library (Rust, src/ of the repository): the "402 Payment
-- Required" handshake of the Movement network, with single charges and with payment channels.
--
-- How the parts interact. A server issues a `PaymentChallenge`, whose id is an HMAC of its fields
-- under the server's key (src/protocol/core/challenge.rs). A client echoes the challenge in a
-- credential with a payload. For the intent `session` the payload is an action on a payment channel
-- (open, top up, voucher, close), which `SessionMethod::verify_session` dispatches to its handler
-- (src/protocol/methods/movement/session_method.rs). The handlers read the chain through the REST
-- API, check ed25519 signatures on vouchers (src/protocol/methods/movement/voucher.rs) and change
-- the channel in a store; the server charges a channel by `deduct_from_channel`. Prices in dollars
-- become base units in src/server/amount.rs and src/protocol/intents/mod.rs.
--
-- Which file models which part:
--   Prelude    shared names, lists, results, order and bits
--   Text       what the code uses of `str` and `char`: a text is its list of code points;
--              Text/Number has the decimal numbers (`parse`, `to_string`), Text/Splitting the
--              lines and pieces of a text
--   Map, Json  `HashMap` as an association list; `serde_json::Value`
--   Errors     src/protocol/traits/mod.rs: `ErrorCode`, `VerificationError` without messages
--   Voucher    src/protocol/methods/movement/voucher.rs: the BCS bytes, `sign_voucher`,
--              `verify_voucher`, `compute_channel_id`; the proofs are in Encoding and Signing
--   Challenge  src/protocol/core/challenge.rs and types.rs: the data (Types), `compute_challenge_id`,
--              `PaymentChallenge::verify`, expiry and validation; the proofs are in Binding
--   Amount     src/server/amount.rs (`parse_dollar_amount`), src/protocol/intents/mod.rs
--              (`parse_units`); the proofs are in Exact and Units
--   Charge     src/protocol/intents/charge.rs and the payloads of core/challenge.rs (Request),
--              src/protocol/methods/movement/method.rs: the checks on a transaction (Charge), the
--              lookup (Method), what they establish (Evidence, Currency, Sound, Lookup) and accept
--              (Accepting)
--   Headers    src/protocol/core/headers.rs: the WWW-Authenticate header (Headers, proofs in
--              Params, Fields, RoundTrip, Scheme and Fuel), the Authorization and Payment-Receipt
--              headers (Tokens)
--   Server     src/server/mpp.rs: the gate and the verification of credentials (Server, proofs in
--              Gate and Agreement), the issue of charge challenges with
--              src/protocol/methods/movement/mod.rs (Issue, proofs in Issued) and of session challenges
--              (Sessions, proofs in Terms); src/server/mod.rs: the builder of a server (Building,
--              proofs in Created), over an environment that is a parameter
--   Session    src/protocol/methods/movement/session_method.rs: the store (State), handlers as
--              programs whose steps are the calls of the store and of the REST API (Effects), the
--              reads of the chain (Chain), the data (Payload, of movement/session.rs), the request
--              of src/protocol/intents/session.rs (Request), the updaters (Updating) and the
--              handlers (Handlers); the invariant (Validity), one rule for each kind of step
--              (Rules), the actions (Reading, Updaters, Actions, Opening), a server that runs
--              histories of requests (Service), what a second `open` does (Replay), the growth of
--              channels (Growth, Progress), honest vouchers (Honest) and failed requests (Failure).
--              Requests that run at once: a pool of handlers of which each event lets one take its
--              next step (Schedule), an invariant and the assertions of handlers under way (Settling,
--              Logic, Stepping, Interleaving), a close against other requests (Race)
--   Client     src/client/movement/session.rs: the provider of vouchers, its channels, deposits and
--              credentials (Client, Closing), a client and a server that exchange requests (Exchange,
--              Lockstep, Exhausted); src/client/movement/mod.rs: the payment of a charge (Charging),
--              before the server's checks (Charged)
--   Proxy      src/proxy/service.rs: services and their builders (Builder), patterns (Proxy), the
--              match of a request (Config) and the catalogue (Discovery); the proofs are in
--              Segments, Routing and Secrecy
--   KeyValue   src/store.rs: the memory store and the file store; Model is the map that they stand for
--   Events     src/server/sse.rs: the events of the metered stream
--   Problems   src/error.rs: `MppError` (Types), its texts (Texts) and its problem details
--   Gateway    both ends of a paid HTTP request: the tower layer of src/server/middleware.rs (Layer),
--              the extractor of src/server/axum.rs (Extractor), src/client/fetch.rs,
--              src/client/middleware.rs and src/client/provider.rs (Fetch); the proofs are in Guarded,
--              Frugal, Pricing and Lost, and of the two ends together in Paying, Carrying, Served and,
--              with the client's transfer and the server's lookup, EndToEnd
--
-- How it is modelled. The state of a channel is the record `ChannelState`; a store maps channel
-- ids to them, as `InMemoryChannelStore` does. A handler is a value of `Prog`: `run` carries it
-- out alone, against a `Rest` that answers each HTTP request; `react` lets one of several take a
-- step, where the event brings the chain's answer. Every call of the store is atomic, as under
-- its lock. The order in which a `HashMap` lists its entries is that of the association list.
-- Amounts are natural numbers; u64 additions wrap around (`% 2 ^ 64`), `saturating_sub` is the
-- subtraction of natural numbers, `checked_mul` and `checked_add` of u128 give an error at 2 ^
-- 128.
--
-- Bounds and fuel. The loop of `serialize_uleb128` runs on fuel of the value plus one: each round
-- divides the value by 128. The loop of `parse_auth_params` runs on fuel of the length plus one
-- and gives `none` where it runs out: each round takes a character. `to_string` runs on the
-- number plus one: each digit divides it by ten.
--
-- Parameters. The crates for ed25519, SHA3, HMAC, base64, hex, RFC 3339, serde, random numbers
-- and the clock are fields of the records `Crypto`, `Codec`, `Crates`, `ChargeCrates`, `Formats`,
-- `Tokens` and others or arguments of a section; so are the HTTP types (`HttpTypes`, with what
-- their crate documents in `IsHeaderMap`), what becomes of a request that is sent, the case of
-- Unicode letters and the submission of a transaction. `IsCorrect` states what the signature
-- crate documents. The disk of the file store is a map from names to contents, where each
-- operation is told how it ends.
--
-- Not modelled: the texts of most error messages, logging and headers of HTTP calls; the futures
-- runtime; what axum, tower and reqwest do of their own, the MCP transport, the forwarding of a
-- routed request, the presets of the proxy and the example programs.
pub mod Prelude
pub mod Text
pub mod Map
pub mod Json
pub mod Errors
pub mod Problems
pub mod Voucher
pub mod Challenge
pub mod Amount
pub mod Session
pub mod Client
pub mod KeyValue
pub mod Events
pub mod Gateway
pub mod Proxy
pub mod Charge
pub mod Server
pub mod Headers
