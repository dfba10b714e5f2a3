-- ===== src/Lib.antt =====
-- The Cloudflare registry of VPN nodes (cloudflare-registry/), a Worker with a D1 database.
--
-- Servers register their nodes with a POST to /register, and clients subscribe to all nodes with a GET
-- of /sub; the admin lists and deletes nodes and makes tokens. `fetch` of src/index.js catches what
-- `route` throws; `route` picks a handler by path; a handler checks the method and the credentials
-- (src/auth.js), reads and writes the tables (src/db.js), writes to the audit log and the console
-- (src/db.js, src/logs.js), and answers. A registration is validated first (src/validators.js), and a
-- subscription is rendered last (src/renderers.js).
--
-- Which file models which part (paths below cloudflare-registry/):
--   Auth               src/auth.js: hashToken is hash_token, tokenHint is token_hint, and so on
--   Db                 src/db.js: findEnabledToken is find_enabled_token, and so on
--   Db/Tables          migrations/0001_init.sql, and each SQL statement as a function on rows
--   Db/Rows            the objects that src/db.js passes on, and rowToNode
--   Logs               src/logs.js
--   Validators         src/validators.js
--   Renderers          src/renderers.js, one child for each format
--   Worker/Reply, Worker/Register, Worker/Subscription, Worker/Nodes, Worker/Admin, Worker/Route
--                      src/index.js: handleRegister is handle_register, and so on
--   Scripts            scripts/admin-client.js and scripts/delete-node.js
--   Scripts/Commands, Scripts/Lines, Scripts/Printing
--                      scripts/create-token.js, scripts/list-nodes.js and scripts/list-tokens.js
--   Scripts/Wrangler   scripts/deploy-interactive.js: the commands it runs, what it reads in
--                      their output, and its questions
--   Scripts/Deploy     scripts/deploy-interactive.js: ensureD1Database is ensure_d1_database, and so on
--   Scripts/Toml       how deploy-interactive.js reads and changes wrangler.toml
--   Scripts/Terminal   the session that deploy-interactive.js runs in: its answers, its commands, and
--                      a log of what it prints, asks, runs and writes
--   Act                asynchronous code: an action takes the world (the tables, the number of calls
--                      of the runtime so far, the console) to a result and a world
--   Http               the part of Request, URL and Response that the handlers read
--   Runtime            the parameters: SHA-256, random bytes and UUIDs, the clock, JSON.parse, whether
--                      D1 answers, what D1 binds; IsRuntime has the laws of them that are documented
--   Js                 the language: values with their coercions, numbers, JSON.stringify, regular
--                      expressions, UTF-8, encodeURIComponent, decodeURIComponent, btoa,
--                      URLSearchParams
--   Prelude            shared names: texts as lists of UTF-16 units, Boolean tests, lists
-- The other children of these modules prove; each says at its top about what. Tests has a small
-- registry, and the theorems at it.
--
-- Conventions. A thrown error is a value of Thrown; an action that throws keeps what it has written
-- before. A test whether D1 fails stands in front of every statement, so that each can be the one that
-- does not run. `||`, `typeof`, `===` and property reads are the functions or_else, is_object, is_text
-- and get on values that JSON.parse can make; properties of prototypes are left out but `length`,
-- `includes` and `map`. An object that has no own `toString` prints as the default does.
--
-- Bounds and fuel. Numbers are decimals without rounding and without exponents. decimal, which prints
-- a natural number, runs on fuel n + 1, and read_decimal-decimal in Js/Number/Decimal reads n back from
-- what it prints. Every other recursion is structural, the engine of regular expressions included.
--
-- Not modelled. The tests; the Go registry and the installers, which are programs of their own; the
-- branch of base64Encode for runtimes without btoa; concurrent requests (a request runs to its end
-- before the next); what the commands of deploy-interactive.js do, which are parameters.
pub mod Prelude
pub mod Js
pub mod Runtime
pub mod Http
pub mod Act
pub mod Logs
pub mod Db
pub mod Renderers
pub mod Worker
pub mod Auth
pub mod Validators
pub mod Scripts
pub mod Tests
