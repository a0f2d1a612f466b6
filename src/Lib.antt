-- ===== src/Lib.antt =====
-- A verification library for ShinyProxy in Rust: a server that starts apps in containers for the
-- users who open them.
--
-- The parts and how they interact. An app of a user is a proxy with containers and runtime values
-- (crates/containerproxy/src/model). An app definition may share its containers: the scaler
-- starts delegate proxies whose seats are offered in the seat store, the dispatcher claims a seat
-- for each user who starts the app and releases it when the app stops, and the scaler is told of
-- released seats (crates/containerproxy/src/service/sharing). Backends publish containers on host
-- ports that the port allocator hands out (crates/containerproxy/src/backend/ports.rs). Apps are
-- released when they are silent, too old or their user logs out, by the server that is the leader
-- of the realm (crates/containerproxy/src/service/release.rs and leader.rs), which stops them through the proxy
-- service (crates/containerproxy/src/service/proxy_service.rs). App definitions contain expressions of a small language (crates/spel), and may ask
-- the user for parameters (crates/containerproxy/src/service/parameters.rs).
--
-- The files:
--   Base             Boolean tests, lists, integers, dictionaries, results
--   Model, Model/Labels
--                    crates/containerproxy/src/model/runtime_value.rs and proxy.rs
--   Sharing/Seats, Sharing/Dispatcher
--                    crates/containerproxy/src/service/sharing/mod.rs
--   Sharing/SeatStore, Sharing/Delegates
--                    crates/containerproxy/src/service/sharing/store.rs
--   Sharing/Scaler   crates/containerproxy/src/service/sharing/scaler.rs
--   Backend/Ports    crates/containerproxy/src/backend/ports.rs
--   Service/Leader   crates/containerproxy/src/service/leader.rs, and the lock of
--                    crates/containerproxy/src/store/redis.rs
--   Service/Proxies, Service/Starting
--                    crates/containerproxy/src/service/proxy_service.rs
--   Service/Release  crates/containerproxy/src/service/release.rs
--   Service/Stores   crates/containerproxy/src/store/memory.rs
--   Service/Parameters, Model/Parameters
--                    crates/containerproxy/src/service/parameters.rs and model/spec.rs
--   Spel/Lexer       crates/spel/src/lexer.rs
--   Spel/Ast, Spel/Parser, Spel/Expressions, Spel/Parse
--                    crates/spel/src/ast.rs and parser.rs
--   Spel/Values, Spel/Conversions
--                    crates/spel/src/value.rs
--   Spel/Text, Spel/Methods, Spel/Collections, Spel/Helpers, Spel/Operators, Spel/Eval
--                    crates/spel/src/eval.rs
--   Spel/Template, Spel/Templates
--                    crates/spel/src/template.rs and lib.rs
--
-- How the code is modelled. A struct is a record, an enum a data type, a map an association list
-- (Base/Dict), and an operation a function from the state to the state and the answer. An i64 is
-- an integer without bounds, but in the evaluator of expressions, whose operators wrap around at
-- 64 bits as the code's do; a u16 port is a natural number up to 65535, and the search for a
-- free port stops there as `checked_add` does. Operations run from their start to their end:
-- interleavings are the sequences of calls of Sharing/SeatStore/History, the changes between two
-- attempts of the dispatcher, those between the two steps of a port allocation, and the events of
-- Service/Leader/Election. What uuids,
-- clocks, backends and the resolution of expressions answer is an argument. So are the reading and
-- the printing of JSON, and whether a user may use a set of parameter values.
--
-- Expressions. An f64 is its bits and an object of the context its address; the arithmetic and the
-- formatting of floating point numbers, regular expressions, the case tables of Unicode and the
-- objects are the parameter `Platform` of Spel/Values. `Math.abs` of the smallest integer is taken
-- as in a release build, where it wraps.
--
-- Fuel. The search for a free port has fuel for all 65536 ports. The lexer has fuel for each
-- character and one more, the parser for each token and one more, its loops too, and the split of a
-- template for each character and one more; every round of a loop and every nested call takes one.
-- The evaluator recurs on the tree.
--
-- Not modelled: logging, locks and atomics (each operation is taken as one step), the timers that
-- call the scaler, the texts of error messages, and everything that talks to services: backends,
-- authentication, the data plane, the web layer, statistics, and Redis but for the lock, whose
-- commands are a parameter with their documented laws. What `prepare_for_start` adds to an app and
-- the reading of the configuration are not modelled either.
pub mod Base
pub mod Model
pub mod Sharing
pub mod Backend
pub mod Spel
pub mod Service
