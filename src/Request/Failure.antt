-- ===== src/Request/Failure.antt =====
-- message_draft.go, `send` with a stream writer, and message_stream_writer.go: what `send` makes of an error of the
-- stream.
use sockety_go.DoneSignal
use sockety_go.FifoMutex
use sockety_go.StreamWriter.{StreamWriter}
use sockety_go.Writer.{Writer}
