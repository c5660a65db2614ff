-- ===== src/Lib.antt =====
-- A verification library for clavenar-sdk, the Rust client of the Clavenar services.
--
-- The program. An application hands a tool call to the SDK (src/execution.rs). The SDK asks Proxy
-- for a decision on the exact JSON-RPC payload, has the application's durable store admit the
-- attempt, runs the registered executor, signs a receipt of the effect, commits both to the store,
-- delivers the receipt to Proxy and marks it as delivered. Human review suspends this with a
-- pending handle, and a crash or an unclear result with an uncertain handle, which is reconciled
-- by looking the effect up and never by executing again.
--
-- Prelude holds names of the libraries, Boolean tests and equality as an interface, and lists.
-- Effects is the monad of the `async fn`s: a run takes the state and returns a `Result` and the
-- new state, and what was done before an error stays done. Effects/Plain is the `?` of functions
-- that only compute; Effects/Triples has the rules for pre- and postconditions and their ruleset;
-- Effects/Inversion takes successful runs apart; Effects/Answers has the rules for runs that
-- succeed as long as the world responds; Effects/Failures is about runs that change nothing.
--
-- Json is `serde_json::Value`; Json/Canonical has `canonical_json_value` and `sha256` of
-- src/execution.rs; Json/Ordering, Json/Sorted and Json/Reordered are about the order of its keys.
-- Records has the structs and enums of src/execution.rs, Records/Equality the derived `PartialEq`.
-- Error is src/error.rs. Client has the fields of `ClavenarClient` (src/client.rs) and the traits
-- of the application. Proxy is the client's own calls: `call_tool`, `send_jsonrpc` and `send_raw`
-- of src/client.rs; Proxy/Numbered runs them one after the other on the shared counter. Http is
-- src/http.rs: the bounded readers and `decode_response`, with `percent_encode` in Http/Percent,
-- `parse_base_url` in Http/BaseUrl, and the process-wide provider in Http/Provider, whose state is
-- what the constructors of the service clients work on. Transport is src/secure_transport.rs: the
-- files and the token callback are an `Environment` that changes between reloads, and reqwest's
-- types and builder are the parameter `TlsApi`. Pack is src/pack.rs: the manifest and
-- `verify_pack`, with `verifying_key_from_jwks` and `verifying_key_from_pem` in Pack/Jwks;
-- Pack/Found is about the key that is found. Execution has src/execution.rs by parts: Contracts
-- (constants and envelopes), Prepared (the constructors of prepared requests), Validation (the
-- `validate_*` functions), Authorize and Decision (`authorize_payload_state` and its callers),
-- Execute (`execution_dependencies`, `execute_authorization`), Complete (`complete_known_effect`,
-- `deliver_outbox_entry`, `record_receipt`), Operations (the public operations that may execute),
-- Reconcile (`reconcile_uncertain_effect`) and Outbox (`flush_execution_receipt_outbox`). A large
-- `async fn` is split where it branches on an answer: `execute_authorization` goes on in
-- `after_claim`, `after_execution`, `complete_effect` and `after_completion`. Execution/Session
-- runs the public operations in any order, each by a client of its own. Execution/Responsive says
-- what a completion needs of the store and of Proxy, and Execution/Recovery is about executions
-- and reconciliations that then succeed.
--
-- The clients of the other services share Service: a request as reqwest's builder collects it, the
-- call of the provider, `percent_encode` of texts (Service/Text), `Display` of integers
-- (Service/Decimal) and serde's derived objects (Service/Body). Service/Exchange has the
-- statements about operations that make at most one exchange, and their rules;
-- Service/Authorization is about bearers and `decode_response`, Service/Members reads objects back
-- by name, and Service/Codes is about the characters of encoded texts. Agents is src/agents.rs:
-- Agents itself has the states and the comparison of a creation with a registered agent,
-- Agents/Records the other records, Agents/Bodies the JSON of requests, Agents/Client and
-- Agents/Tenants the calls, and Agents/Operations all of them as one type; Agents/Requests and
-- Agents/Calls are about what they send. Hil is src/hil.rs: Hil/Answers the reading of answers,
-- Hil/Client and Hil/Lookups the calls, Hil/Decide the decision with its credential, Hil/Bodies
-- its body read back. Ledger is src/ledger.rs: Ledger/Records, Ledger/Reports and Ledger/Meters
-- the records, Ledger/Query the query of an `AuditFilterParams`, Ledger/Client the exchange, and
-- Ledger/Audit, Ledger/Analysis and Ledger/Cases the calls; Ledger/Split, Ledger/Reading,
-- Ledger/Values and Ledger/Filters are about how a server reads the query. Policies is
-- src/policies.rs, with the records in Policies/Records and Policies/Lab and the calls in
-- Policies/Client and Policies/Changes, and Policies/Operations all of them as one type. Simulator
-- is src/sim.rs and Brain src/brain.rs.
--
-- State. A run works on a `Machine`: the world outside the crate, of any type, and the list of the
-- calls made to it, the newest first, which only statements read. The store, the executor, the
-- lookup and `reqwest`'s send are functions of the world. A service client's operation works on
-- any world, through its provider. Operations are sequential: concurrent tasks of one process
-- interleave their calls in ways that no session shows, and what protects those is the atomicity
-- of the store's own operations.
--
-- Parameters. `Platform` has the functions of other crates: the printing of UUIDs and JSON
-- scalars, SHA-256, ECDSA, base64, URL joining, UTF-8 and serde's parsers, `UrlApi` the URL
-- library's, and `PackApi` and `KeyApi` those of policy packs; the records `...Codec` beside each
-- client are serde's parsers of its answers and, where a body is a large record, its printers.
-- Nothing is assumed of any of them. The store is assumed to do what its documentation says in one
-- place, `IsLawful`: it answers `Started` for an authorization at most once, and no other call
-- takes an admission back. What Execution/Recovery needs of the store, the lookup and Proxy is
-- what its theorems name: that each call is answered as it should be.
--
-- Numbers. Natural numbers without a bound, since the code adds lengths only under `checked_add`,
-- whose failure is written out with the largest 64-bit `usize`; an `i64` is an integer of
-- Prelude/Int, and a double is its printed text. String lengths are in UTF-8 bytes. The loops run
-- over lists, but for the printing of a number, whose fuel is the number itself, which has no more
-- digits than that.
--
-- Not modelled: the builder of src/client.rs, which stores its arguments, `base_url`, which
-- returns a field, and `with_http_client`, since a client of reqwest is its provider here.
-- Printing for debugging is left out, and what TLS does belongs to other crates.
mod Prelude
pub mod Effects
pub mod Json
pub mod Records
pub mod Error
pub mod Platform
pub mod Client
pub mod Http
pub mod Execution
pub mod Proxy
pub mod Agents
pub mod Transport
pub mod Pack
pub mod Service
pub mod Hil
pub mod Ledger
pub mod Policies
pub mod Simulator
pub mod Brain
pub mod Tests
