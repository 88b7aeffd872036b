-- ===== src/Lib.antt =====
-- Verification of magpie: Arma 3 servers on Kubernetes.
--
-- The program and its parts. Operators call gateway (services/gateway) and registry
-- (services/registry), behind one middleware (crates/authn) that checks a bearer token and the
-- scope that the called RPC needs. gateway turns requests into ArmaServer objects (crates/crd) in the
-- Kubernetes API. controller (services/controller) watches those objects: it asks sync-daemon for
-- content, waits until the content is complete, renders the server's configuration files, and
-- creates the Deployment of the server and its HeadlessClient objects, each of which gets a
-- Deployment of its own; launcher (services/launcher) starts the game in the Pod. sync-daemon
-- (services/sync-daemon) resolves what a mod source means on Steam, keeps the content cache
-- (crates/steam-sync), and publishes collections; identity (services/identity) logs users in and
-- issues the tokens that the middleware checks.
--
-- How the parts are modelled. A function that talks to the services around it is a program
-- (Prelude/Prog.antt): a tree that names each call and says, for every reply, what comes next.
-- Nothing is assumed of the services. A theorem about a program holds for every sequence of replies;
-- `Holds P Q` says that each call satisfies `P`, given all calls and replies before it, and that `Q`
-- holds at the end, and `Only P` that each call satisfies `P`, whatever was replied. A program is
-- finite, so that every pass ends. Text is a list of code points, a `BTreeMap` is its list of
-- entries in the order of the keys, a machine integer is a number with its wrap-around written out.
--
-- Which file models what.
--   Prelude and its children: the shared helpers.
--   Crd.antt: crates/crd/src/lib.rs; Crd/Ports.antt is about the overlap of port ranges.
--   Authn/Jwt.antt, Authn/Authz.antt: crates/authn/src/jwt.rs and authz.rs. The JWT library is a
--     parameter, and so are the token check and the table of scopes, which `AuthState` holds.
--   Gateway/Access.antt, Registry/Access.antt: `required_scope` of each service's main.rs.
--   Registry/PresetExport.antt: services/registry/src/service/preset_export.rs.
--   Registry/Calls.antt, Registry/Missions.antt: services/registry/src/service/mission.rs, with the
--     missions of storage.rs, over the calls to the file system and to Postgres.
--   Registry/LocalMods.antt: the local mods of services/registry/src/storage.rs.
--   Gateway/Names.antt, Metadata.antt, Service.antt and its children: the handlers of
--     services/gateway/src/service.rs; `create_server` is `create_server`, `delete_server` is
--     `remove_server`, `get_server` is `get_server_info`, `list_servers` is `list_infos`.
--   Controller/Reconcile.antt, HeadlessClients.antt, Pods.antt: services/controller/src/reconcile.rs,
--     one definition for each function, and one for each arm or gate of `apply`.
--   Controller/ArmaConfig and its children: services/controller/src/arma_config.rs.
--   Identity and its children: services/identity; Handlers.antt has the endpoints by their names, and
--     Tokens.antt also the statements of crates/registry-db/src/lib.rs on refresh tokens.
--   SteamSync and its children: crates/steam-sync/src/cache.rs, a function for each operation on a
--     table; the state is the table, which is handed on. Locks/Processes.antt has the
--     steps of the processes that share the locks; the release that a dropped guard spawns is a step
--     of its own.
--   Launcher and its children: services/launcher/src/config.rs and launch.rs.
--   Workshop and its children: crates/workshop-parse/src/lib.rs.
--   SyncDaemon and its children: services/sync-daemon/src/service.rs (`register_source_impl` is
--     `register_source`, `publish_collection_impl` is `publish`, `delete_collection_impl` is
--     `delete_owned`) and reconcile.rs.
--   The Tests.antt files hold examples.
--
-- Bounds and fuel. The loops are recursion on the lists that they go through. The reader of an array
-- in Controller/ArmaConfig/Quoting.antt, which only the proofs use, takes the length of the text as
-- its fuel; an array has more characters than items, so that it never runs out. The wait for ports in
-- Launcher/Ports.antt has 62 rounds, of which each but the last sleeps two seconds of the two
-- minutes; the copying of missions in Launcher/Missions.antt takes how deep a tree may be; the wait
-- for a lock in SteamSync/Locks.antt takes the number of attempts, and two for each second till the
-- lock is stale, and one more, are enough.
--
-- Not modelled: the Steam protocol and the download of content, most services behind registry's RPCs,
-- the programs in Go and TypeScript, start-up code, logs and metrics, and generated code.
-- What the modelled code asks of them is a call with an arbitrary reply. Of Kubernetes objects the
-- fields that the code reads or sets are kept. The Unicode case tables, the texts of UTF-8 errors
-- and f64 are a parameter (`Platform`), and so are Rust's literal syntax of a text, the digits of a
-- regular expression, JSON codecs, UUIDs as text, and in Identity/Calls.antt the libraries for JWTs, URLs, UUIDs and
-- SHA-256. A statement on a table of the cache is what it does when it succeeds.
pub mod Prelude
pub mod Crd
pub mod Identity
pub mod SteamSync
pub mod Launcher
pub mod Workshop
pub mod SyncDaemon
pub mod Authn
pub mod Gateway
pub mod Registry
pub mod Controller
