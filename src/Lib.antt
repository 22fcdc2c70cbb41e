-- ===== src/Lib.antt =====
-- VDS Guardian: the core of the backup program (crates/guardian-core), its payload envelopes
-- (crates/guardian-encryption), and the retention and the check of sealed backups of its repository
-- (crates/guardian-local-repository) as definitions, and what is proved of them.
--
-- The program backs up servers over SSH. A profile names a server with its pinned host key; a
-- selection of paths, Docker mounts and groups is resolved against an untrusted inventory of
-- containers into normalized roots; a capture writes payloads into a staging run of a repository;
-- a manifest that lists the payloads is sealed; a retention policy decides which backups go. The
-- core holds these rules and calls the rest (storage, transport, secret store) through ports.
--
-- The files, by part:
--   Prelude       names of the libraries, Boolean tests, list lemmas, `Result` with its bind, and
--                 loops that stop at the first failure
--   Text          Rust's `str`: a list of code points with its UTF-8 bytes; `len` counts bytes
--   Identifiers   crates/guardian-core/src/identifiers.rs: `parse` of each identifier, payload,
--                 archive and remote paths (`RemotePath::parse`, `child`), `Timestamp::parse`; and
--                 the path tests that docker.rs, capture.rs, plan.rs, capture_selection.rs and
--                 source_layout.rs repeat (`valid_absolute_path`, `valid_remote_root`, `covers`)
--   Docker        crates/guardian-core/src/docker.rs: `DockerInventory::validate` and its parts;
--                 crates/guardian-core/src/source_layout.rs: `SourceLayout::validate` and
--                 `from_inventory`
--   Discovery     crates/guardian-core/src/remote_browser.rs: `BrowseRemoteDirectoryUseCase` and the
--                 validation of requests, pages and entries; database.rs and database_connection.rs:
--                 the preflight of databases and the check of a connection; docker.rs:
--                 `DiscoverDockerInventoryUseCase`
--   Selection     crates/guardian-core/src/capture_selection.rs: `preview_capture_selection` with
--                 each function that it calls
--   Lifecycle     crates/guardian-core/src/state.rs: `can_transition_to`, and runs of transitions
--   Retention     crates/guardian-core/src/retention.rs: `RetentionPolicy::new`,
--                 `build_retention_plan` and what a plan says
--   Manifest      crates/guardian-core/src/manifest.rs: payload entries, encryption metadata, adding
--                 payloads, sealing, the validations, and `select_payloads`
--   Profile       crates/guardian-core/src/profile.rs: the validation of profiles, endpoints and host
--                 pins; enroll_profile.rs, host_trust.rs and preflight.rs: the use cases over the
--                 ports of secret.rs and profile_port.rs
--   Jobs          crates/guardian-core/src/job_registry.rs and cancellation.rs: handles that share
--                 flags, and the registry of running jobs
--   Capture       crates/guardian-core/src/capture.rs and embedded_database.rs: the capture and
--                 backup use cases over the ports of storage.rs, audit.rs and archive.rs
--   Plans         crates/guardian-core/src/plan.rs, restore.rs, deploy.rs and replace.rs: building and
--                 approving a plan, and the reconciliation of a replacement with the current inventory
--
--   Encryption    crates/guardian-encryption/src/lib.rs: writing and reading an envelope; Words has
--                 its numbers, Frames what encryption writes, Reading and Accepted what decryption
--                 reads, Fuel that its loop ends, Envelopes the whole
--   Repository    crates/guardian-local-repository/src/retention.rs, retention_journal.rs and
--                 filesystem.rs: Files has the disk and its calls, Journal and Reconcile the
--                 operations, Rules and Calls how programs of such calls are reasoned about, Entries
--                 and Places where a backup can be, and Damage, Cleanup, Finishing, Completing, Moves,
--                 Rollback and Recovery the parts of a transaction, which CrashSafe puts together
--   Repository/Sealed  crates/guardian-local-repository/src/verification.rs, inventory.rs and
--                 signature_file.rs: Tree has the files of a backup and the walk over them, Load the
--                 manifest, its signature and the inventory; Walk, Exact, Trusted and Inventory what is
--                 proved of them. A backup's files are a tree that is read as it stands at one moment,
--                 where a file or a listing may be unreadable; names are texts
--
-- How code becomes definitions. A struct is a record, an enum a data type with its variants, `?` the
-- bind of `Result`, a `for` loop with early returns a recursion over the list (or `try_for_each`), a
-- `HashSet` of seen values the list of them. A method on `&mut self` returns the new value, or the
-- error that leaves the old one. A port that may change the world takes the state and returns it with
-- its answer, also when it fails. Numbers are natural numbers: the lengths and versions that the core
-- computes stay far below the bounds of their types. Every loop of the core is a recursion over a list; only
-- `decimal`, the printing of a number n, takes fuel, namely n + 1 steps, more than n has digits.
--
-- Parameters. serde_json, base64, SHA-256 and AES-GCM are third-party code, and the ports are implemented
-- in other crates: they are arguments of the definitions that call them. Theorems that rely on them say
-- so as hypotheses: that decoding undoes encoding, that a decoder yields bytes, that a digest has 32
-- bytes, that a successful delete leaves no secret, that the
-- cipher opens exactly what it sealed under the same nonce and associated data.
--
-- Not modelled. Serialization formats, UUIDs and the clock, which are outside the core;
-- staging and sealing in the local repository, `execute_retention` around `execute_moves`, and the loop
-- over the intents of several plans; the adapters of the other crates; the command line, the MCP
-- server and the desktop application.
pub mod Prelude
pub mod Text
pub mod Identifiers
pub mod Docker
pub mod Discovery
pub mod Encryption
pub mod Selection
pub mod Lifecycle
pub mod Retention
pub mod Manifest
pub mod Profile
pub mod Jobs
pub mod Capture
pub mod Plans
pub mod Repository
