-- ===== src/Lib.antt =====
-- Verification library of the wallet engine.
--
-- The engine sends a transfer by a reducer that does no input or output itself: each call of
-- it returns the directive that its caller runs next (load the journal, read the account, sign,
-- persist, submit). A durable record per wallet and slot says how far a send went, and a later
-- send of the same wallet reads it before it may sign. A wallet that speaks TON Connect keeps a
-- session state, which numbers its events and refuses a request that was accepted before; the
-- dApp at the other end keeps a cursor. Cells that a dApp sends are validated as bytes before a
-- library may parse them, and the addresses it shows carry a tag and a checksum. The client keeps
-- one state under a mutex, which its operations change in critical sections between their calls
-- of the host. All parts use the boundary values of the data model.
--
--   Base      lists, bytes, Boolean tests, results, checked addition and the interface `Eq`.
--   Types     texts and their UTF-8 bytes, and the decimal strings of `DecimalString`
--             (src/types/decimal_string.rs).
--   Domain    the types of a send (src/domain/send.rs, src/domain/journal.rs), the total of a
--             batch of messages, and `bounded_diagnostic` (src/domain/error.rs).
--   Session   request identifiers, the session state of the wallet and the event cursor of the
--             dApp (crates/ton-connect-core/src/session_state.rs).
--   Send      the stages and their transition table, the durable record and its readers, the
--             reducer `SendWorkflow` with all of its methods, and the mutation that resolves a
--             pending record (src/wallet/send.rs).
--   Cell      the validator of untrusted cell BoCs: reader, exotic layouts, cells and envelope
--             (crates/ton-connect-core/src/cell_boc.rs).
--   Address   user-friendly addresses, written and read back
--             (crates/ton-connect-core/src/friendly_address.rs).
--   KeyHistory
--             the masked keys that rotations publish, and the walk that recovers the earlier
--             signing keys (src/wallet/key_history.rs).
--   DeepLink  the links that open a wallet, and the substitutions of Telegram's transport
--             (crates/ton-connect-core/src/deep_link.rs, and the identifiers of
--             crates/ton-connect-core/src/value.rs).
--   Transport the URL and the headers of a provider request (src/transport/request.rs,
--             src/transport/http.rs).
--   Engine    the state that the client's mutex protects with its revisions and waiters
--             (src/engine/state.rs), the tracking of a send (src/engine/send_state.rs),
--             cancellation and shutdown (src/engine/client.rs, src/engine/send.rs). A method is one
--             critical section: it returns the state, the channels it sent to and its result.
--             Engine/Resolution classifies a pending send from the provider's parsed answers and
--             persists the result in three turns of a compare and exchange, as the source does
--             (src/engine/resolution.rs); Engine/Expiration is src/engine/expiration.rs.
--             Engine/Activity merges a page of activity, and Engine/Loading has the sections of
--             `refresh`, `load_more_activity`, `refresh_nfts`, `load_more_nfts` and of their
--             cancellations (src/engine/activity.rs, src/engine/refresh.rs, src/engine/nft.rs).
--             Engine/Comment decrypts a comment (src/engine/encrypted_comment.rs,
--             src/engine/key_history.rs): its state changes only in its own sections and, by
--             the `World`, at the points between them where other operations run.
--             An answer of the provider is the page that the source parses from the response.
--   Tests     concrete values, and each theorem of the list below applied to them.
--
-- A method on `&self` is a function of the workflow. A method on `&mut self` is a `Step`: it
-- takes the workflow and returns its result with the workflow that it leaves behind, in the case
-- of an error too, so a partly done update is visible. Functions, types and fields keep the names
-- of the source. Arithmetic is checked, as in the source: `checked_add` is that of `u64`, `within`
-- stops at the largest value that it is given, and the validator takes the largest `usize` as a
-- parameter. Loops over a counter are structural on what is left to do, so nothing runs on fuel.
--
-- Code that is not in the repository is a parameter. The address type of ton_core is a type with a
-- lawful test `Eq`. SHA-256 and the public key of an Ed25519 seed are functions on bytes. The JSON
-- codec of the durable record is a `RecordCodec`; `IsFaithful` says that a record which was
-- written is read back as it was. The decimal text of a big integer is a `BigUintText`;
-- `IsBaseTen` says that reading and printing are those of base ten. The CRC-32C and the CRC-16 of
-- the crc package are functions on bytes, and the engine of base64 is a `Base64`; `IsBase64` says
-- that it reads back the bytes that it wrote, and writes no padding. An `ActivityHost` has the
-- order in which a hash map gives its values, and the text of an address. A `LinkHost` has the url
-- and hex crates as the links use them; `IsLinkHost` and `IsHex` say what these document. It also
-- has two codecs of this repository that are not modelled, of a connect request
-- (crates/ton-connect-core/src/connect.rs) and of an embedded request; no law is assumed of them.
-- A `CommentHost` has the keys of a secret and the cryptography of a comment.
--
-- A poisoned mutex is not modelled, and a oneshot channel is a number.
--
-- Not modelled: the codecs of connect requests and of embedded requests
-- (crates/ton-connect-core/src/connect.rs, crates/ton-connect-core/src/embedded.rs), which the
-- links take as parameters, the encryption of a comment and the lookup of a recipient's key,
-- the exchange over HTTP, the provider's JSON, cryptography and key derivation, the language
-- bindings and the examples, which call other libraries or do input and output, and the vendored
-- TON library.
pub mod Base
pub mod Types
pub mod Domain
pub mod Session
pub mod Send
pub mod DeepLink
pub mod Cell
pub mod Address
pub mod KeyHistory
pub mod Transport
pub mod Engine
mod Tests
