-- ===== src/Lib.antt =====
-- fabDev, a local PHP development environment: the state it keeps and the decisions it takes.
--
-- The agent (crates/agent/src/main.rs) is one process that serves a desktop program and a command line. It
-- keeps a registry of runtime downloads, the sites, the proxy connections and the LAN share, each behind a
-- lock, so that a call has its part of the state for itself; the workers and tasks that the parts spawn run
-- beside the calls. The models follow this: a call is a function from a state to a state and a result, and
-- concurrency is a list of calls and worker steps in any order.
--
-- Prelude holds the shared types and lemmas: lists, texts as code points, results, sorting, maps in key
-- order. A time is a number in the unit of the source; a 64-bit count keeps its
-- saturation.
--
-- Downloads: the runtime downloads of crates/agent/src/main.rs. Downloads/Task is `RuntimeDownloadTask`,
-- with one function per method; Downloads/Registry is `RuntimeUpdateManager`, where `start` answers once
-- per look at the registry: it waits for a cancelled worker, is refused, or registers its task.
-- Downloads/Registry/Calls has the spawned worker as steps between the calls. The result of the updater that
-- a worker calls is part of the step. Operation identifiers are numbers given to
-- `start`, in place of random UUIDs.
--
-- Sites: crates/core/src/site.rs and the PHP version column of crates/core/src/storage.rs. Sites/Domain
-- normalizes domains and makes the default one, Sites/PhpVersion parses and prints versions, Sites/Site
-- creates and edits sites. The file system and the host's paths are the parameter `Host`.
--
-- Proxy: crates/proxy/src/lib.rs, its records from crates/core/src/protocol.rs. Proxy/Health is
-- `ConnectionHealth`: checks, requests and listener events as state changes with the lines they log.
-- Proxy/Settings validates and completes a connection's settings; the URI and address parsers are the
-- parameter `Parsers`. Proxy/Manager is `ProxyManager`; Proxy/Manager/Update has `update` with its way back
-- after a bind that failed, Proxy/Manager/Report its `state` and `running_ids`, Proxy/Manager/Calls a history
-- of calls. Whether an address can be bound is an argument of each call.
--
-- Share: crates/share/src/lib.rs and restricted_http.rs and `LanShareState` of crates/agent/src/main.rs.
-- Share/Server is the server's list of allowed domains and the two tests of a connection's first request, by
-- its lines and as the HTTP library, the parameter `Http`, parses it; both see the same list; Share/State changes the list of shared
-- sites and hands the domains to the server. Binds, the probe for the LAN address and the end of the
-- server's task are arguments.
--
-- Runtimes: crates/runtime/src/lib.rs. Runtimes/Timestamp parses the times of a catalog, as seconds from 1970
-- on; Runtimes/Fields checks its single fields; Runtimes/Catalog has its records and `validate_catalog_release`
-- in four parts, Runtimes/Catalog/Validate `validate_runtime_catalog`, Runtimes/Document
-- `parse_and_validate_runtime_catalog`. The JSON parser and SHA-256 are the parameter `Decoder`, the semver
-- crate is `Semver`. Runtimes/Installed is the directory of one runtime: its versions, the active link, the
-- removal markers and the backups, as on Unix, where the link `current` stands among the versions; a receipt
-- is read back as it was written, and setting and removing the link, removing a version and writing a marker
-- do not fail by themselves; Runtimes/Installed/Replace
-- installs or replaces a version as a transaction that is committed or rolled back, where the archive's
-- contents, the health check and whether each step succeeds are arguments, for the rollback too; Runtimes/Installed/Fresh installs a new version and records a receipt, Runtimes/Installed/Listed lists
-- the versions, and Runtimes/Installed/Active has these operations,
-- but the rollback, in any order.
-- Runtimes/Retry is the loop on denied operations, by recursion on the attempts that are left.
--
-- Updates: crates/updater/src. Updates/Segments are the byte ranges of a segmented download in
-- windows_download.rs; its loop has the artifact's size as fuel, which is enough since every round takes at
-- least one byte. Updates/Release validates the release manifest of lib.rs and selects the installer.
-- Updates/Catalogs and Updates/Package are runtime_updates.rs. Updates/Catalogs fetches, validates and persists
-- the catalogs and finds the release that a request names; what the servers answer and which steps of a write succeed are
-- arguments, and the accepted state is read back as it was written. Updates/Package downloads a package, anew or
-- from a partial file; the response is a status, its headers and a list of events, and reading and writing
-- files does not fail but where a path names a directory.
--
-- Not modelled: sockets, TLS and the forwarding of further requests, the database and its SQL, processes of nginx, PHP,
-- MariaDB and dnsmasq (crates/services), the making of catalogs and package manifests
-- (crates/runtime), shell profiles (crates/platform), the JSON protocol, the command
-- line, the desktop program, the privileged helpers and the build scripts.
mod Prelude
pub mod Downloads
pub mod Sites
pub mod Proxy
pub mod Share
pub mod Runtimes
pub mod Updates
