-- ===== src/Lib.antt =====
-- nono-cedar-pdp: a daemon that answers nono's approval webhook from Cedar policies. A request
-- passes the header gate, is adapted to a vendor-neutral query, is checked for an ambiguous path,
-- and is evaluated against the current policy set; the decision goes to the wire and to the audit
-- log. A watch thread reloads the set when the policy directory changes.
--
-- Files, and the code they model:
--   Base               the shared names, lists, texts and results
--   Utf8               the encoding of a text, as the standard library does it
--   Sanitize           src/sanitize.rs: `control_escape`
--   EndpointPath       src/endpoint_path.rs: `ambiguity` (`scan` is its loop, `routing` the part in
--                      front of the query), `dot_segment` as `find_dot_segment`, `percent_decode`;
--                      EndpointPath/Segments says what a dot segment is by its place in the path
--   Wire, Query        src/wire.rs and src/query.rs: the data of a request
--   Config             src/config.rs: `Config::load`, `expand_tilde`, `agent_for`
--   Decision           src/decision.rs: `deny` as `deny_with`, `from_response`, `to_wire`
--   Cedar              the operations of the `cedar-policy` crate, a parameter of what uses them
--   Json               the accessors of `serde_json`, a parameter too
--   Entities           src/cedar/entities.rs: `build`
--   Adapter            src/adapter/nono_webhook.rs: `parse`, `scrape_context`
--   ContentDigest      src/cedar/engine.rs: `ContentDigest`
--   Loader             src/cedar/engine.rs: `load_dir`, `load_entries`, `checked`
--   Lint               src/cedar/engine.rs: `lint_arg_matching` and its walks over a policy's JSON
--                      form (`unpinned` is the walk of `unpinned_argv_tail_reads`)
--   FilePaths          src/isolation.rs: `absolutize` (`resolve` is its loop) and the calls on paths
--   Isolation          src/isolation.rs: `check`, `check_private_key`, `refuse_untrusted_policy_dir`;
--                      Isolation/Display, Loader/Display and Config/Display are what the errors and
--                      the warnings say
--   Engine             src/cedar/engine.rs: `Engine`, with `evaluate` and `reload`
--   Audit              src/audit.rs: the records; Audit/Fields their keys and values; Audit/LogFile
--                      and Audit/Sink the file and `append`
--   Server             src/server.rs: `header_gate`, `approve`, `healthz`; Server/Tls `load_pair` and
--                      `verify_our_own_certificate`, Server/Listen `serve`
--   Watcher            src/watcher.rs: the debounce (`drain`), the loop of the watch thread in time
--                      (`rounds`) and what one round of it does (`on_burst`)
--   Run                what a program did outside, in order, and how it ended
--   Process, Main      src/main.rs: what the process meets, and `run_serve` (`prepare` up to the
--                      engine, `start` behind it), `run_check`, `run_validate` and `main`
--   Daemon             src/server.rs and src/watcher.rs: requests in flight and the watch thread on
--                      the state they share, as steps that interleave
--   Tests              the theorems at concrete inputs; Tests/Source is the program's own unit tests,
--                      run on the model
--
-- State is explicit: a handler takes `AppState` and gives it back with its reply, a round of the
-- watch thread takes `Watch`, an append takes `Sink`. In the handlers and the rounds the audit log
-- is the list of the records handed to it, and Audit/Sink says what becomes of the bytes of one;
-- Daemon/OnDisk and Daemon/ReadBack bring the two together. Daemon cuts both into what one thread
-- does between two looks at that state, and Daemon/Atomic relates them; Daemon/InOrder pairs the
-- answers with the lines of the trail, Daemon/Grounds says why each reply was sent and
-- Daemon/Provenance which sets are on record. A request whose body never comes stays in flight. The
-- atomic swap of the policy set is a field that is replaced whole. Text is a list of code points and
-- bytes are a list of numbers; a path of the policy directory is the name of a file.
--
-- Bounds: `scan` has one round of fuel more than `MAX_DECODE_PASSES`, which is the source's own
-- bound, and an empty fuel is its refusal of a path that is nested too deep. The walks of the
-- lints are on fuel, of which more than a value's size is enough. Every other loop is
-- structural, but `rounds`, whose fuel is the number of the arrivals. The generation wraps at 64
-- bits, and so do the length prefixes of the digest.
--
-- Parameters: the Cedar crate and its reader of literals, serde's readers, serde's JSON writer, the TOML reader, SHA-256, the
-- clock, the quoting of `{:?}`, lossy decoding, and what the operating system answers to each call
-- on a file.
--
-- Not modelled: the router and the accept loop of src/server.rs, which are axum's, the argument parser
-- and the runtime of src/main.rs, the texts that its `Display` of a failure prints, and the log
-- messages, of which only the two that tell of the transport are events.
pub mod Base
pub mod Run
pub mod Utf8
pub mod Sanitize
pub mod EndpointPath
pub mod Wire
pub mod Query
pub mod Json
pub mod Config
pub mod Decision
pub mod Cedar
pub mod Entities
pub mod Adapter
pub mod ContentDigest
pub mod Audit
pub mod Loader
pub mod FilePaths
pub mod Isolation
pub mod Lint
pub mod Engine
pub mod Server
pub mod Watcher
pub mod Process
pub mod Main
pub mod Daemon
pub mod Tests
