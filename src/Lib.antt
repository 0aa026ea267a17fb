-- ===== src/Lib.antt =====
-- Verification of shadowlark-go, a Go client library for an encrypted frame transport.
--
-- The program's parts. A frame (transport/frame/frame.go) is an envelope of a version, a type, flags
-- and a payload, written with the encoder and read with the decoder of package binary
-- (binary/encoder.go, binary/decoder.go). Package crypto (crypto/cipher.go) encrypts a frame's payload
-- and derives nonces, additional data and the keys of the next epoch. A session
-- (transport/session/session.go) is what a handshake leaves at each end: keys, epochs, counters, the
-- replay window for datagrams and the rekey policy; its methods call package crypto. Package app
-- (app/app.go) puts application messages into frames, queues received ones in an inbox, numbers sent
-- ones in a messenger, and keeps subscriber lists. Package router (transport/router/router.go) hands a
-- received frame to the handler of its type, which fills the inbox and touches the session. Package
-- handshake (transport/handshake/handshake.go) makes the keys of a session: two state machines exchange
-- three frames, check each other's signed identity and derive the keys. Package tcp
-- (transport/tcp/client.go) is the client: it runs the initiator over a connection, stores the session,
-- and sends and reads encrypted frames with heartbeats between them.
--
-- The files. Each file named for a package holds its state and its operations, and the files below it
-- what is proved of them:
--   Base                 lists, outcomes, big-endian numbers, bytes and bits, Go's int and uint64
--   Binary               Encoder, Decoder and their methods (WriteU8 is write_u8, and so on);
--                        Binary/Codec says what a reader and an encoding owe one another
--   Frame                Frame, New, Encode and Decode
--   Crypto               DeriveNonce, BuildAAD, RekeyMaterial, EncryptFrame, DecryptFrame
--   Session              State and its methods; Session/Window is udpReplayWindow
--   App                  Message, Ack and Chunk; App/Inbox, App/Messenger, App/Subscribers
--   Handshake            the bundle, the three messages and their frames (Encode, Decode, Frames,
--                        Bundle), the transcript and the keys, SecureInitiator and SecureResponder;
--                        Exchange lets two parties run a handshake, Serving and Asking are the states
--                        that any calls of the methods lead to
--   Router               the handlers by message type, Dispatch and the two default handlers
--   Tcp                  Client and its methods over a stream of bytes; Tcp/Receive is ReadEncrypted,
--                        Tcp/Setup and Tcp/Environment are Handshake and what it takes from the
--                        environment
--   Tests                a cipher suite that can be run, and the theorems at concrete inputs
--
-- How the code is read. A number is a natural number, with the wrap-around of its Go type written out
-- (`% 2 ^ 32`); `int` has 64 bits. A byte slice, a byte array and a string are lists of numbers. A
-- function that returns `(value, error)` returns `ok`, `err` with one constructor for each error, or
-- `panic` where Go panics. A method returns the new state. A reading of the clock is an argument. An
-- Inbox is a pointer, and the queues stand in a heap; a mutex makes a method one step. SHA-256 and
-- ChaCha20-Poly1305 are the parameter `Suite`, with the laws `IsSuite`: digests of 32 bytes, keys of
-- 32 bytes accepted, and Open undoing Seal and accepting nothing else under the same key, nonce and
-- additional data; `IsTotal` of Session/Total says that it does not panic. Ed25519, X25519, HKDF and SHA-256 of the handshake are the parameter `Primitives`, with
-- the laws `IsPrimitives`; what is drawn at random is an argument. A connection is the list of the bytes
-- that will arrive and of those that were written, and what a write does is the parameter `Network`; the
-- parsers of Go's library and the environment are parameters of Tcp/Environment. The loop of
-- ReadEncrypted is recursion on fuel, one more than the bytes that are left, since each turn takes at
-- least a header of 7 bytes off the stream; all other functions are by structural recursion.
--
-- Not modelled: net.Dial and Close beyond their results, a connection whose peer stays silent without
-- closing or sends heartbeats without end (ReadEncrypted then does not return), and the example program
-- (cmd/example-client/main.go).
pub mod Base
pub mod Binary
pub mod Frame
pub mod Crypto
pub mod Handshake
pub mod Session
pub mod App
pub mod Router
pub mod Tcp
pub mod Tests
