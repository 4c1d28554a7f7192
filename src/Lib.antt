-- ===== src/Lib.antt =====
-- heyl, a command-line client of heylogin: its document layer, the chain of keys, and the use cases
-- behind its commands: reading logins, the life of a session, the settings, the recovery of an account
-- and the doctor's walk.
--
-- The parts, and where they are modelled. Paths are from the repository's root.
--   Json, Base64: `serde_json` and `base64`, which are not part of the repository, as records of
--     operations, with the laws that the proofs use; Json/Sample.antt is a value tree that meets them.
--   Domain/Ids, Domain/Time, Domain/Session, Domain/Kinds: crates/heyl-domain/src/ids.rs, time.rs,
--     session.rs and vault.rs. `uuid` and `jiff` are the parameters `Uuids` and `Jiff`.
--   Domain/Sync, Domain/Error, Domain/Keys: sync.rs and locks.rs, error.rs (with that of
--     crates/heyl-crypto) and keys.rs. The primitives of crates/heyl-crypto are the parameter `Crypto`.
--   Domain/Authenticator, Domain/Login: authenticator.rs with the reading of `secretInfo`, and login.rs.
--   Crypto/Recovery: crates/heyl-crypto/src/recovery.rs over Argon2id and the hash of `Crypto`.
--   Vault/Document: crates/heyl-vault/src/serialize.rs and error.rs, `encode` and `decode` over the
--     parameter `Codec` (`serde_json` bytes and `snap` blocks).
--   Vault/Merge: crates/heyl-vault/src/merge.rs. `fold` and its parts take the commits oldest first.
--   Vault/Meta: crates/heyl-vault/src/meta.rs. An operation on `&mut Document` is a function to the
--     document that it leaves behind and its result, on the error paths too.
--   Vault/Login: crates/heyl-vault/src/login.rs, the parser of logins.
--   App/Ports, App/Slots: the traits of crates/heyl-ports/src (api.rs, clock.rs, random.rs, terminal.rs,
--     secret_store.rs) as records, and the names of slots in crates/heyl-app/src/session/mod.rs. The
--     keychain has a state of its own; the backend, the terminal, the clock and the randomness share one.
--   App/Action: an `async` function of crates/heyl-app is an action, from the two states to the two
--     states and a result. `?` is `>>=` on actions, and `match`, `if let` and `if` are `when_ok`,
--     `when_some` and `when`. `Leaves` says what an action leaves behind, `Yields` how it ends.
--   App/Error, App/Get, App/Unlock, App/MetaVault, App/Session, App/Recovery, App/Doctor, App/Settings:
--     error.rs, get.rs, unlock.rs, meta_vault.rs, session/mod.rs and session/lifecycle.rs, recovery.rs,
--     doctor.rs and session/settings.rs of crates/heyl-app/src. App/Get starts from the unlocked
--     session, with the backend's `list_commits` as a function.
--   Crypto/Boxes, Platform/Headless: symmetric.rs, aead.rs, asymmetric.rs, kdf.rs and secret.rs of
--     crates/heyl-crypto/src, framing over the ciphers and hashes as parameters, and
--     crates/heyl-platform/src/headless.rs, a keychain in the environment.
--   Grpc/Status, Grpc/Retry: crates/heyl-grpc/src/status.rs, and the loop of the reads in domain.rs.
--   Grpc/Wire, Grpc/Map: the generated messages as records of the fields that are read, and
--     crates/heyl-grpc/src/map.rs, which reads them; the numbers of the enums are `Discriminants`.
--   Grpc/Request, Grpc/Rpc, Grpc/Adapter: crates/heyl-grpc/src/request.rs, the generated trait
--     `HeyloginApi` as a record of calls, and domain.rs, the port `HeylApi` over it. The lock around the
--     context is a field of the state that the calls pass on.
--   Platform/Scenario: crates/heyl-platform/src/test_state.rs over a disk and a serializer, `Disk`.
--   Cli/Output, Cli/Commands: crates/heyl-cli/src/output.rs, where a command prints a list of lines, and
--     the dispatch of `session` in main.rs, where `print` is what printing does to the outside. Shapes and
--     Contents say what a document has to hold, apart from the code that builds it.
--   Tests: runs at concrete inputs, on a host with a keychain in memory.
--
-- A document that was decrypted is decoded, the documents of a vault are folded into one, and the META
-- and login schemas are read out of the folded document; writes to META edit the folded document in
-- place and encode it again. A session is created by pairing: its key, id and token are stored, its
-- device is written into META, its policy is sent to the backend and its slot enters the index. Later
-- commands adopt the slot's items and unlock through the grant that the phone gives.
--
-- Bounds and fuel. The search for a free device name has fuel for one more than the number of names
-- taken, and a theorem says that it is enough. The counter wraps as a `u32` does. The wait for the phone
-- may last for ever: it has fuel for its rounds, `none` is a wait that still goes on, and a theorem says
-- that a wait with a limit of seconds is over before more rounds than that; its clock saturates as a
-- `u64` does. Unsigned numbers are native numbers with the bound of their width where the code tests
-- it. Bytes are numbers.
--
-- A read of the backend is tried four times at most, which is structural.
--
-- Not modelled: the ciphers, signatures and hashes, the gRPC transport and the recorded scenarios of
-- crates/heyl-grpc, the keychain, terminal and clock of the platform, the parser of arguments and
-- the commands beside `session`, the development commands over the raw API, the recorder of
-- fixtures, build scripts and the vendored crates. What a derived deserializer reads out of a JSON
-- array, and of `secretInfo`, is a parameter. Concurrent runs of the client over one keychain are
-- not modelled.
pub mod Prelude
pub mod Json
pub mod Base64
pub mod Domain
pub mod Vault
pub mod Crypto
pub mod App
pub mod Platform
pub mod Grpc
pub mod Cli
pub mod Tests
