-- ===== src/Lib.antt =====
-- Aether protocol: a verification library for the crates in aether-core, a transport over UDP with
-- encrypted connections that carry many streams over several network paths, and aether-sdk.
--
-- The program's parts. A peer opens a connection with a handshake (aether-core/src/handshake.rs) of
-- two hello messages and two Finished messages, over the key schedule of aether-core/src/crypto.rs
-- and the identities of aether-core/src/identity.rs. Every message is a frame
-- (aether-core/src/framing.rs): a header, a chain of extensions and a payload. Data travels in
-- streams (aether-core/src/stream.rs), each with a window, and the connection may validate further
-- network paths with challenge frames (aether-core/src/multipath.rs). How much may be in flight is
-- for a congestion controller to say (aether-core/src/congestion.rs), and peers find each other by
-- datagrams to a multicast group or in a distributed table (aether-core/src/discovery.rs). All of
-- them fail with the errors of aether-core/src/error.rs. The SDK (aether-sdk/src) keeps the identity
-- of a node in a vault and checks service levels.
--
-- The files.
--   Prelude: tests, lists, bits, exclusive or and big-endian bytes over the native numbers.
--   Errors: error.rs, and `Result`. A call that panics, as on an index out of range, is `panic`. A
--     loop that runs out of its fuel is `diverged`.
--   Table: the HashMap of the sources, as an association list, with the laws of each operation;
--     Strings has the one with strings for keys.
--   Framing: framing.rs. Types has the frame and extension types, Extension the extensions and the
--     loop over a chain (`read_extensions`), Header the short and long headers, Frame the frames with
--     `encode_frame`, `decode_frame` and the builders. The loop has one unit of fuel for each byte and
--     one more; each extension takes four bytes at least, and Total shows that this is enough, Fuel that
--     more fuel changes nothing.
--     HeaderBits, HeaderRoundTrip, ChainRoundTrip, FrameRoundTrip, Builders, Size and LostExtension
--     hold the proofs.
--   Stream: stream.rs. FlowControl, State and Buffer are one stream, Manager is `StreamManager`. A step
--     that changes the state returns it beside its result. Sorting, Reorder, Stalls and
--     EndToEnd are about reading, Lifecycle about every sequence of calls, Ids, Unguarded and Closing
--     about the manager.
--   Crypto: crypto.rs and identity.rs. The algorithms (HKDF, HMAC, SHA-256, AES-GCM, X25519, Ed25519)
--     come from other crates: they are the fields of the record `Primitives`, and `Lawful` states what
--     their documentation promises. Sample has small functions that keep these laws. The crate hex
--     is the record `Hex`, with its laws and HexSample. Keys are the keys of a session, Nonces is about
--     their nonces.
--   Handshake: handshake.rs. Capabilities and Hello are the messages, Context and Steps the methods of
--     `HandshakeContext`, with the state that an error leaves behind; `run_handshake` is the exchange
--     of the packets that `connect` and `accept` of aether-core/src/connection.rs make. Reading,
--     CapabilitiesRoundTrip and HelloRoundTrip are about the messages, Setting, Exchange and Agreement
--     about the exchange, Finished, Impersonation and Truncated about one step each. Helpers has the
--     free functions of framing.rs that write and read numbers.
--   Multipath: multipath.rs. Path is `PathState`, Manager is `PathManager`; Validation, Limits and Best
--     hold the proofs.
--   Connection: connection.rs. State is `Connection` and its making at the end of `connect` and of
--     `accept`, Transfer sends, receives and closes; the socket's answers are arguments and the packets
--     that it is given are results. Cutting data into chunks takes one unit of fuel a chunk, and the
--     number of bytes is enough. Delivery, Chunks, Close, Replay and Session hold the proofs;
--     Delivery assumes of the seal what `Authentic` says in Crypto. Dial puts the handshake and the two
--     connections together, and Session a frame between them.
--   Congestion: congestion.rs. Controller is `CongestionController`. Samples and Window are about the
--     round trip times that it looks at, Phases and Startup about its phases.
--   Discovery: discovery.rs. Message has the messages, with serde_json as the record `Json`; Service is
--     `DiscoveryService`, turn by turn of its loops. MessageRoundTrip is about the messages. Book is what
--     the cache stands for, Heard, Keyed and Cache show that it does; Unauthenticated is about the
--     datagrams of anybody. Dht has the records and the distance of the table, Distance their laws.
--   Sdk: aether-sdk/src. Vault has the key vaults over the files and the environment, Manager the
--     `IdentityManager`, Sla the compliance check, Monitoring the orders to the recorder of the crate
--     metrics; Restart and Rotation hold the proofs.
--
-- Integers are native numbers, with the wrap-around of the source's width written out. The clock's
-- reading, a random nonce, a secret and a connection id are arguments. The score of a path is an
-- exact fraction, where the source computes it as an f64, and the smoothed round trip time is exact,
-- as the source's f64 is below 2^50 microseconds. A gain of the congestion controller is a number of
-- hundredths, and its products are exact, as the source's are below 2^48 bytes. A time is a number of
-- nanoseconds, or of seconds where the source counts these.
--
-- Not modelled: the sockets, locks and listener loop of connection.rs, and the tasks that `run` of
-- discovery.rs starts; the text of error messages and log lines; the parsing of the policies of
-- aether-sdk, which is a crate's; the programs aether-gateway and demo, which only open sockets and
-- print.
pub mod Prelude
pub mod Errors
pub mod Framing
pub mod Table
pub mod Stream
pub mod Crypto
pub mod Handshake
pub mod Multipath
pub mod Connection
pub mod Congestion
pub mod Discovery
pub mod Sdk
