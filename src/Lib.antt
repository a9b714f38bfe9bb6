-- ===== src/Lib.antt =====
-- A verification library for sockety-go, a Go implementation of the Sockety protocol: two sides of a
-- connection exchange packets on numbered channels; a message is a packet of its fields, and its
-- data and its stream follow as packets on the same channel.
--
-- The receiving side. A parser (parser.go) takes packets from a buffered reader
-- (buffered_reader.go) over the connection. It remembers a current channel, which switch packets
-- change, and hands the content of each packet, through a limited reader (buffered_reader.go), to
-- that channel (parser_channel.go). The channel fills a message with its message reader
-- (message_reader.go), whose fields are read by resumable readers of numbers and strings
-- (stream_reader.go), and then passes data and stream packets on to the queues that the
-- application reads from (message_data.go, message_stream.go).
-- The sending side. A draft (message_draft.go) becomes a packet (packet.go, byte_utils.go), with
-- sizes and flags from protocol_utils.go and the bit patterns of constants.go. A writer (writer.go)
-- writes it on a channel, with a switch in front of it where the channel is not the current one; the
-- channel manager (channel_manager.go) knows the current channel and those that are in use. `send`
-- (message_draft.go) takes a channel for a message with data or a stream, and gives it back when all
-- parts are written; a request (message_draft.go) has a stream that the application writes to
-- (message_stream_writer.go).
-- Both sides. A connection (conn.go) exchanges headers, and then has a parser and a writer, and two
-- goroutines that read messages and end it; servers (server.go) and diallers (dial.go) make
-- connections.
--
-- Files, each with its children:
--   Common          results, errors and panics, the outcomes of code with a state, lists, bits
--   Constants       constants.go
--   ByteUtils       byte_utils.go (ReadBytes, WriteBytes)
--   ProtocolUtils   protocol_utils.go
--   BufferPool      internal/buffer_pool/buffer_pool.go
--   Packet          packet.go
--   MessageDraft    message_draft.go: drafts, and send up to the packet
--   Send            message_draft.go: send without a stream writer, and pass; Send.Delivery joins it
--                   with Parser
--   Request         message_draft.go: requests, and send with a stream writer
--   StreamWriter    message_stream_writer.go
--   DoneSignal      internal/done_signal/done_signal.go
--   FifoMutex       internal/fifo_mutex/fifo_mutex.go
--   GoChannel       Go channels, and putOptional and createReadChannel of utils.go
--   Conn            conn.go: the handshake, the end of a connection, and the step relation
--   Network         dial.go, and validateNetwork of utils.go
--   Server          server.go
--   Reader          the interface BufferedReader of buffered_reader.go, and the abstract stream
--   BufferedReader  buffered_reader.go, bufferedReader
--   LimitedReader   buffered_reader.go, limitedBufferedReader
--   StreamReader    stream_reader.go
--   MessageData     message_data.go
--   MessageStream   message_stream.go
--   MessageReader   message_reader.go, and the message of parser_channel.go
--   ParserChannel   parser_channel.go
--   Parser          parser.go, and getDefault of utils.go
--   ChannelManager  channel_manager.go
--   Writer          writer.go, and with Parser what of a written packet is read
--   FastReply       fast_reply.go, up to the packet
--   Runs            the theorems at concrete inputs (Sides, Connections)
--
-- Names are those of the source in snake case. A struct is a record with the source's fields; a
-- method takes the struct as its state and yields an Outcome: a value or an error, each with the
-- state that is left, a panic with its reason, `blocked` where the goroutine waits for ever, and
-- `stuck` where the fuel ends. A slice of bytes is a list of numbers; a read or a write outside of it
-- is the panic of Go's bounds check. Fixed-width integers wrap around where the source's could.
--
-- Parameters. The source of a bufferedReader is an io.Reader: its state, and what a Read answers;
-- `BufferedReader.Window.Delivers` says what the theorems ask of it. The
-- target of a writer is an io.Writer; `Writer.Output.Accepts` is one that returns no error. FromBytes of the uuid package is
-- `from_bytes`; it is documented to accept sixteen bytes and to return them. What the buffer pool hands
-- out is `pooled`; it is documented to be empty. Of package net, `dial_network`, `listen_on`, `accept_on`,
-- `close_listener` and `close_to` are the dialler, the listener and Close of a connection, and
-- `names_closed` says which errors name net.ErrClosed. uuid.New is the argument `id`.
--
-- Goroutines. `send` starts goroutines that write the data and wait for the stream; each write holds
-- the writer's mutex, so that the writes come in some order: `data_last` of Send; in Request the moves of the
-- application, which writes to the stream and closes it, and `data_at`, which says behind how many of them the
-- data is written, as it is exactly once if there is some. A Go
-- channel counts the values sent and the receives begun: a send goes on when there is room or a
-- receive waits. In Conn a step of the relation is one call of watchEnd, one round of
-- handle up to its send, that send, or a call of the application; between two steps anything may
-- arrive.
--
-- Fuel. A round of the loop of `ensure` and of bufferedReader's Read loads some byte, so that one round
-- more than the bytes asked for is enough; `spare` counts rounds in which a source may answer with
-- nothing. ProcessData and ProcessStream take a byte of the packet in each round. A round of the
-- parser's Read takes a packet that does not end the call: its bound is an argument. Of a message's data, each call
-- takes a byte or ends the packet: `read_on` calls Read `calls` times at most. `depth` bounds the
-- calls of ReadFrom inside of each other, and any bound is reached.
--
-- Not modelled: files, which the source refuses; several goroutines inside one call: each method of a
-- writer, a channel manager, a queue, a connection or a server is one step of one goroutine, and the
-- mutexes of the writer, of a server and of a request are not in the state, while that of a stream is
-- (a request is sent at most once, which its mutex stands for); the
-- time limits of options, which the source does not use; internal/cast and examples/run.go. The two directions of a
-- connection are separate: what Close does to the reading side comes as what the source answers. The bytes of the
-- packet's buffer are not shared with the strings that the parser returns: a string is a list of its own.
pub mod Common
pub mod Constants
pub mod ByteUtils
pub mod ProtocolUtils
pub mod BufferPool
pub mod Packet
pub mod MessageDraft
pub mod Reader
pub mod BufferedReader
pub mod LimitedReader
pub mod StreamReader
pub mod MessageData
pub mod MessageStream
pub mod MessageReader
pub mod ParserChannel
pub mod Parser
pub mod ChannelManager
pub mod Writer
pub mod FastReply
pub mod DoneSignal
pub mod FifoMutex
pub mod StreamWriter
pub mod Send
pub mod Request
pub mod GoChannel
pub mod Conn
pub mod Network
pub mod Server
pub mod Runs
