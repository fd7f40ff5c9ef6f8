-- ===== src/Lib.antt =====
-- Lampshade multiplexes streams over encrypted connections. A dialer (dialer.go) keeps a few live
-- sessions, each on one connection; a stream (stream.go) writes chunks to its send buffer
-- (sendbuffer.go), which puts frames on the session's channel as the flow-control window
-- (window.go) allows; the session (session.go) coalesces the frames into packets, pads and encrypts
-- them. The receiving side decrypts a packet, splits it and hands each frame to the stream it is
-- for; the stream's receive buffer (receive_buffer.go) queues the data until it is read and
-- acknowledges what was read. A session starts with a client init message (crypto.go).
--
-- The files and the code that they model:
--   Base: native numbers, lists, integers, Go's `copy`. Nothing of the program.
--   Wire, Wire/Message: lampshade.go, the constants, headers and frames; `Message` is a frame by
--     what it means, and `wire` its bytes.
--   Sender: session.go, `sender.send`, `bufferFrame`, `coalesceAdditionalFrames`, `writeToWire`,
--     `addPadding`. Its lemmas: Sender/Grown (buffers that keep their size), Buffer (one frame),
--     Coalesce (the select loop), Send, Wired (the packet), Packet;
--     Sender/Loop is `session.send` and `sendLoop`.
--   Session: session.go, the table of streams and the closing of a session. Session/Table is its
--     invariant, Session/Ids the numbering of streams, Session/Spec the life of one
--     stream as its user sees it and Session/Views what the operations do to it.
--   Receiver: session.go, `recvLoop`. Receiver/Delivery and Loop compare it with what each message
--     is for, Total is termination, Keeps and Closed are invariants under any bytes, Faults and
--     Crashes are inputs on which it goes wrong, Moves and Panics show where it can panic at all,
--     Refines is the life of each stream, Chunks is
--     `readFull` with idletiming/reader.go.
--   Link: the sender and the receiver together, one packet; Link/Turns is one turn
--     of `sendLoop`, Link/Loops that and `recvLoop`,
--     Link/Encrypted the same with the keys and nonces of crypto.go.
--   Handshake: `startSession` of session.go and dialer.go, `sendClientInitMsg`; Handshake/Accepted is
--     the start of a connection on both ends, Handshake/Carried that and the loops behind it.
--   Transfer: a stream from its writer to its reader at the other end. Transfer/Acts is the reader with
--     stream.go and receive_buffer.go, Transfer/Ended the end of a stream,
--     Transfer/Inbox what a session brings of one stream,
--     Transfer/EndToEnd all of it with the start of the session.
--   Flow: window.go and receive_buffer.go. Flow/Reading is the order of the bytes, Flow/Counts the
--     frames accounted for, Flow/Control the step relation of sender, frames under way and reader.
--   SendBuffer: sendbuffer.go, `sendLoop` on a list of events; SendBuffer/Order is its invariant,
--     SendBuffer/Flush the result, SendBuffer/Returns the end of the loop, SendBuffer/Acks
--     its window and who takes the signals of the ACKs, SendBuffer/Kept its header.
--   Stream: stream.go, `Write`, `writeChunks` and `close`, and `send` and `doSend` of sendbuffer.go;
--     Stream/Reads is `Read` and `Close` with the receive buffer.
--   Crypto: crypto.go. Crypto/Init is the client init message, Crypto/Keys the choice of ciphers,
--     keys and vectors, Crypto/Nonce the nonces, Crypto/Channel a packet of a session,
--     Crypto/Suits the vectors that the ciphers take, Crypto/Short what decoding an init message does.
--   Dialer: dialer.go. Dialer/Counts counts its sessions through any interleaving, Dialer/Dialing is
--     `DialContext` with the sessions, Dialer/Streams what it returns.
--   Context: context/context.go. Context/Stack is entering and leaving, Context/Filling the
--     values, Context/Fuel and Context/Walks the end of the walks, Context/Absent the walk of
--     `PutIfAbsent`, Context/Branching the functions that `Go` starts.
--   Ops: ops/ops.go. Ops/Nesting is what its calls keep of the contexts, Ops/Ending the end of an op,
--     Ops/Root the values that it begins with.
--   Uint: context/gotrack.go, `parseUintBytes`; Uint/Parsing is its arithmetic, Uint/Goroutine is
--     `curGoroutineID`, Uint/Trace the stack traces that it reads.
--   Listener: listener.go, the checks of `doOnConn` and the loop of `process`; Listener/Checks is
--     replays and the sleeps, Listener/Options the options, Listener/Serving the calls that
--     `onConn` makes on a connection, Listener/Accepting the channels of `Accept` and `Close`,
--     Listener/Accounts what becomes of their streams and errors.
--   Pool: bpool/bytepool.go and bpool/byteslice.go; Pool/Width is what a pool hands out,
--     Pool/Frames the `BufferPool` of lampshade.go, Pool/Buffers the pools of bufferpool.go and
--     sizedbufferpool.go.
--   Ema: ema/ema.go; Ema/Mean is the mean that it keeps.
--   Clock: mtime/mtime.go. Conn: netx/wrap.go, connections that wrap others.
--   Idle: idletiming/idletiming_conn.go. Idle/Timer is its goroutine through any sequence of calls,
--     Idle/Idling when it idles, Idle/Kept what calls keep of the timer, Idle/Pausing the pause,
--     Idle/Accepting the listener of idletiming_listener.go,
--     Idle/Transfer what reads and writes transfer, Idle/Closed a connection that has idled,
--     Idle/Layers the walks of `IsIdled` and of listener.go's `doOnConn`.
--   Tests: the theorems at concrete inputs.
--
-- How the model corresponds to the code: a byte slice is a list of numbers below 256; a struct is a
-- record with the fields that matter, a method a function of the same name in snake case from the
-- old state to the new one and the results. A Go panic, an error and a fuel that ran out are
-- different values. What a goroutine makes another one do is a log (`effects`, `acks`, `out`). A
-- `select` is a list of what it meets, an event, or a flag that says which case is taken, and the
-- theorems hold for all of them. Locks, log lines and counters of statistics leave no trace.
-- Integers are unbounded where the code's are 64 bits wide and bounded by memory; those of 16 and
-- 32 bits wrap around where they are written.
--
-- Parameters: the encryption of packets (`Crypters`, `Decrypters`; it decrypts what was encrypted),
-- Go's AEADs (they open what they sealed, 16 bytes more), ChaCha20 and Go's exclusive or of bytes
-- (each undoes itself), RSA-OAEP (it takes up to 190 bytes and decrypts what it encrypted), the random
-- source, the clock, the listener's cache of keys and what the reads of its connections give, the stack
-- trace that the Go runtime writes, and
-- float64 with its operations and conversions.
--
-- Fuel: `receive_frames` gives one round for each byte and one more, since each round takes three
-- bytes at least; `write_chunks` has one round for each byte, and
-- each takes some; the walks over contexts have one for each context, and a context's parent is
-- older than it.
--
-- Not modelled: goroutines that only call what is modelled, the deadlines of streams as
-- wall-clock times, a session's connection and its errors, xor.go (a copy of Go's), methods that
-- only pass on what a wrapped connection or listener gives.
pub mod Base
pub mod Wire
pub mod Sender
pub mod Session
pub mod Receiver
pub mod Link
pub mod Crypto
pub mod Flow
pub mod Context
pub mod Uint
pub mod Listener
pub mod Ops
pub mod Pool
pub mod Clock
pub mod Ema
pub mod Conn
pub mod Handshake
pub mod Transfer
pub mod Idle
pub mod Dialer
pub mod SendBuffer
pub mod Stream
mod Tests
