-- ===== src/Lib.antt =====
-- hcnet: an asynchronous network library in Rust that serves and dials TCP, KCP and websocket
-- connections behind one handler trait. This library models its message layer, its id and count
-- services, its listeners, its TCP, websocket and KCP connections and their dispatch, and proves what
-- they do.
--
-- The program's parts and the files that model them:
--
-- - Base: what the rest shares. Lists, Boolean tests and bit operations over the native numbers
--   (Base/Lists, Base/Tests, Base/Bits); Base/Text has strings as lists of code units and the test of
--   `String::from_utf8` on bytes. A Rust `String` is the list of the bytes of its UTF-8 text.
-- - Protocol: `CloseCode` and its two conversions, src/protocol.rs. Message: `OpCode`, `Message` and
--   the conversions from and to the messages of webparse, src/message.rs. Error: `NetError` and
--   `WsError`, src/error.rs and src/ws/error.rs. Settings: src/settings.rs.
-- - Codec: `encode_message` of src/encode.rs, `decode_message` of src/decode.rs and the u24 helpers of
--   src/lib.rs, over any buffer. Buffer has the operations of `BinaryMut` that they use, with the laws
--   they rely on, and a buffer on lists of bytes that fills the interface. Codec/Frame says with no
--   buffer what the frames are: the wire form `wire` of a message, and a parser `parse`. Codec/Refine
--   relates the code to it, Codec/Parse, Codec/RoundTrip and Codec/Incremental derive the properties.
-- - IdCenter: `IdCenter::next_connect_id` of src/id_center.rs, with the calls in a row in
--   IdCenter/Sequence and the interleavings of its atomic steps in IdCenter/Threads.
-- - OnlineCount: src/online_count.rs. The `Arc<AtomicUsize>`s are the cells of a store `Counters`, so
--   that the handles of a listener and of its connections alias, as they do in the program.
-- - Net: the operations of tokio and rustls that the connections call. Stream: src/stream.rs, with
--   its poll functions in Stream/Poll, and src/accept_server.rs. Helper: src/helper.rs. Listener:
--   src/listener.rs.
-- - Sender: src/sender.rs over a bounded channel with the laws of tokio's. Handler: the trait of
--   src/handler.rs as a record of callbacks over a state, with its default methods.
-- - Tcp: src/tcp/mod.rs and src/tcp/state.rs. Tcp has the data and the constructors of `TcpConn`,
--   Tcp/Process the functions `process` and `close`, Tcp/Run the functions `inner_run_with_handler`
--   and `inner_run_handler`. Tcp/Construct, Tcp/Process/Open, Tcp/Process/Events, Tcp/Process/Closing,
--   Tcp/Process/Single, Tcp/Process/Mixed, Tcp/Process/Capacity, Tcp/Process/Writing, Tcp/Process/Limit, Tcp/Process/Bound, Tcp/Run/Sending,
--   Tcp/Run/Reading, Tcp/Run/Ending and Tcp/Run/Delivery hold the theorems on them. Tcp/Run/Linked puts
--   the loop between the channel of its sender and its socket: its steps are a poll of `process`, where
--   the reads bring what the peer has sent and the socket takes bytes off the write buffer, and a command
--   that `recv` takes out of the channel.
-- - Ws/Handshake: src/ws/handshake.rs, with its theorems in Ws/Handshake/Laws. A call that indexes out
--   of bounds has the outcome `panicked`.
-- - Ws/Web: what the websocket takes from webparse and rand. Ws/Duplex: what src/ws/client.rs and
--   src/ws/server.rs have in common word for word: the state with its two buffers (`Pipe`),
--   `process_io`, and the branches of `process` for an open and for a closing connection; its
--   children hold the theorems on them. Ws/Shake: the loop that waits for a request or a response.
--   Ws/Client, Ws/Server: the rest of `WsClient` and `WsServer`. Ws/Conn: `WsConn` of src/ws/mod.rs,
--   and in Ws/Conn/Run its loop. Ws/Conn/Run/Watched wraps a handler so that it notes the order of
--   its callbacks; Ws/Conn/Run/Shaking, Ws/Conn/Run/Opening and Ws/Conn/Run/Order are about that order.
--   Ws/Conn/Run/Steps and Ws/Conn/Run/Meeting are about a handshake of two ends, with the halves of it
--   in Ws/Shake/Got, Ws/Client/Shakes and Ws/Server/Shakes; Ws/Conn/Run/Delivery is about messages
--   from one end to the other. Ws/Conn/Kinds, with Ws/Client/Kinds and Ws/Server/Kinds, is about which
--   end gives what.
-- - Kcp: src/kcp: the data and constructors of `KcpConn` and its listener, `process` and `close` in
--   Kcp/Process, the loop in Kcp/Run. Kcp/Process/Opened and Kcp/Process/AsTcp put a KCP stream beside
--   the TCP connection with the same buffers, and Kcp/Process/Calls is about its calls in a row.
-- - Conn: `NetConn` of src/conn.rs, and in Conn/Run how it runs a connection. A connection of each
--   kind runs with the handler that turns what it accepts into a `NetConn`; Conn/Run/Errors, with
--   Ws/Conn/Run/Errors and Kcp/Run/Errors, is about the errors that it is told. Builder: src/builder.rs.
-- - Echo: examples/server_echo.rs, its handler in Echo and the choice of the listener, as that of the
--   client's connection, in Echo/Setup. Echo/Standing says where the messages of a connection stand,
--   Echo/Waiting, Echo/Turns and Echo/Order follow its steps, Echo/Complete, Echo/Reading and
--   Echo/Progress are about a channel with room for all the messages. Echo/Client: the handler and the
--   command loop of examples/client_echo.rs, with what it sends in Echo/Client/Lines.
-- - Tests: runs of the model, and the results at concrete inputs.
--
-- How the parts interact: a `NetSender` puts commands into a bounded channel. The loop of a connection
-- takes them out, frames them with `encode_message` into its write buffer, and `process` hands that
-- buffer to the socket; `process` also fills the read buffer and cuts it into messages with
-- `decode_message`, which the loop gives to the handler. A listening connection accepts sockets through
-- its `WrapListener`, counts them in its `OnlineCount`, and gives each to `on_accept`. The echo server
-- puts all of this together: what it reads goes through its handler into the channel, and from there
-- back to the peer.
--
-- Asynchronous code is modelled by the order of the events that it sees. `process` takes the list of
-- events that its `select!`s see; it answers, or has used them up and is pending with the connection as
-- far as it came. The loop takes the list of the branches that complete, with the events that `process`
-- had seen before it was dropped. Every order of events and branches is such a list. Functions by
-- clauses on the list are total, so no fuel is needed there. `next_connect_id` loops on fuel, of which
-- two are enough from every value that the counter can have. The loop over the frames of a websocket
-- buffer has one more fuel than there are unread bytes, of which each frame takes one at least. Random
-- bytes are arguments of the operations that draw them. Fixed-width arithmetic is written out: ids
-- wrap at 2 ^ 64, connection numbers at 2 ^ 32, frame lengths at 2 ^ 32 before they lose all but three
-- bytes.
--
-- Parameters, as their code is not in this repository: the buffer of the algorithm crate, the sockets,
-- TLS and channels of tokio and rustls, the streams of tokio_kcp, the PEM reader, base64, SHA-1, and
-- the URLs, HTTP types and frames of webparse; also `trim` and `split_whitespace` of strings. Of the
-- buffer, the channel and webparse the theorems use the laws that the interfaces name, of the frame
-- reader those of Ws/Duplex/Reading, and of `trim` that a text without a word is trimmed to nothing; the
-- rest is arbitrary.
--
-- Not modelled: address lookup (its result is an argument), `session_expire` and the other settings of
-- tokio_kcp but as an argument of the connect, src/macros.rs, which is written out where it is used,
-- logging, `Display`, and what the examples print.
pub mod Base
pub mod Protocol
pub mod Message
pub mod Error
pub mod Settings
pub mod Buffer
pub mod Codec
pub mod IdCenter
pub mod OnlineCount
pub mod Net
pub mod Stream
pub mod Helper
pub mod Kcp
pub mod Listener
pub mod Ws
pub mod Handler
pub mod Tcp
pub mod Sender
pub mod Conn
pub mod Echo
pub mod Builder
mod Tests
