-- ===== src/Lib.antt =====
-- sub-merge reads proxy subscriptions (share links, base64 lists of links, Clash YAML), merges their
-- nodes and serves them again as a v2ray subscription or a Clash document. This library models its
-- core, crates/proxy-core, in which the text of a subscription goes in, nodes are the common form,
-- and text comes out, and crates/server: its tables, its handlers, and the merge of the sources.
--
-- Which file models what (paths from the repository's root; a child module holds what is proved of
-- its parent unless it is named here):
--   Base           text as Rust's `str` (lists of scalar values; `len` counts UTF-8 bytes), lists,
--                  results, decimal numbers, splitting; no code of the program
--   Crates         the third-party crates base64, percent-encoding, serde_json and serde_yaml_ng, as
--                  a record of functions; Crates.Laws states what the program relies on, and
--                  Crates.Sample is an instance of it
--   Error          crates/proxy-core/src/error.rs, and the two ways to end without a value
--   Model          crates/proxy-core/src/model.rs
--   Uri            crates/proxy-core/src/uri.rs
--   Protocols      crates/proxy-core/src/protocols/: a module per file; Protocols.Parts holds the
--                  code that the files repeat
--   Parser         crates/proxy-core/src/parser.rs: parse_line, parse_lines, parse_v2ray_subscription
--                  and parse_subscription_text; Parser.ClashNode is parse_clash_yaml
--   Formats        crates/proxy-core/src/serializer.rs; Formats.V2ray is formats/v2ray.rs, and
--                  Formats.Clash, Formats.Document and Formats.Template are formats/clash.rs
--   Server.Fetch, Server.Service  crates/server/src/service.rs: fetch_source and fetch_and_merge
--   Server.Sessions  crates/server/src/db.rs: the table of sessions
--   Server.Users   crates/server/src/db.rs: the table of users; `setup` of routes/auth.rs and the
--                  change of a password in `update_config` of routes/config.rs
--   Server.Sources, Server.Combineds  the tables of sources and of combined subscriptions, under the
--                  queries of routes/sources.rs, routes/combineds.rs and service.rs
--   Server.Store   all tables together, and the settings; Server.Store.Action is a handler,
--                  Server.Store.Step the statements that write, Server.Store.Valid the invariant
--   Server.ApiError, Server.Auth, Server.App  crates/server/src/error.rs, auth.rs, and what the
--                  handlers read of state.rs and config.rs
--   Server.Routes  crates/server/src/routes/: a module per file; Server.Routes.Names is of mod.rs, and
--                  Server.Routes.Template holds the template of clash_config.rs
--   Server.Router  routes/mod.rs: the requests and `handle`; its children hold what is proved of the
--                  handlers
--   Server.Migration  crates/server/src/db.rs: `init_db`, from an old file to the tables
--   Server.Static  crates/server/src/static.rs
--   Examples       the theorems at concrete nodes and texts
--
-- How they interact: Server.Service downloads with Server.Fetch and reads with Parser; Parser calls
-- one parser of Protocols per line, which call Uri; Formats calls the serializers of Protocols.
-- Functions keep their names. A `Result` of the source is a `Result` here; a panic of the source is
-- the failure `panicked` in a parser and `none` in the loop over the lines. The `mut` variables of
-- a query loop are a record (StreamQuery, QuicQuery, KeyQuery), and the `match` of the loop is a
-- step on it. The server shares one node between source and output, so no aliasing is lost by
-- passing values.
--
-- Bounds: all loops are structural recursion on the text or on a list; there is no fuel, but for
-- the decimal digits of a number (Base.Decimal), where one more than the number is enough. Ports
-- are natural numbers that are read only below 2 ^ 16. The length of a text is a natural number, as
-- no text of the program comes near 2 ^ 64 bytes.
--
-- The HTTP client, chrono, sha2, argon2, axum (which reads headers, paths and bodies) and the file
-- system are parameters. The tasks of a merge end in any order: an outcome is a merge of some
-- permutation of their results, and a handler takes the outcome from its call. A handler is a
-- function from the store to an answer, an error or a panic, each with the store that is left; the
-- calls of `Utc::now` in a request give one moment. Requests that run at once are covered by the
-- statements: a statement, or a transaction, is one step, and steps of any requests may alternate. A
-- query acts on a list of rows and succeeds, but for what the code counts on: a key or a name that is
-- there, and the cascades. An id is a natural number, as AUTOINCREMENT counts from 1, and an id below
-- zero in a request is read as 0.
--
-- Not modelled: the start of the server beyond `init_db` and the clean-up of the sessions, and the
-- environment (config.rs); crates/web-core and the web interface; the status of an answer that is
-- no error; the timeout of a download and the semaphore that bounds how many tasks run at once.
-- Not modelled inside of proxy-core: the extra headers of a websocket, which the source leaves
-- empty; to_lowercase outside of ASCII, as far as names of protocols are compared; the texts of
-- error messages; and the order of the members of a JSON object, which are listed as they are
-- inserted.
pub mod Base
pub mod Crates
pub mod Error
pub mod Model
pub mod Uri
pub mod Protocols
pub mod Parser
pub mod Formats
pub mod Server
mod Examples
