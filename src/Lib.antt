-- ===== src/Lib.antt =====
-- Verification library of compostela, a log aggregator in C: followers tail log files and send their
-- lines over TCP to an aggregator, which puts the lines together again and writes them to files of
-- its own.
--
-- The parts, and how they meet. A follower reads a file through a byte buffer (common/azbuffer.c),
-- frames each line, or the part of a line that is there, as a message (common/message.h) and sends it
-- over its connection (follower/connection.c), whose loops are `sendall` and `recvall` of
-- common/supports.c. The aggregator (aggregator/main.c) receives one message at a time, finds the
-- channel that it belongs to in the list of the connection (common/azlist.c), keeps the parts of a
-- line in the buffer of the channel, and at the end of the line appends the whole to the merged file,
-- the file of the channel, or both, as its configuration (aggregator/appconfig.c) says.
--
-- Which file models which part:
--   Prelude       shared helpers: tests on numbers and strings, lists over the native numbers, options,
--                 C integers (`size_t` arithmetic wraps at 2 ^ 64, results are signed), access to a
--                 block of memory, C strings.
--   AzBuffer      common/azbuffer.c. Holds says which queue of bytes a buffer stands for; Fetch,
--                 ReadLine and PushBack are about the operations, and Refinement about programs of
--                 them, against a queue.
--   AzList        common/azlist.c, on the sequence of the objects of a list.
--   Transport     `sendall` and `recvall` of common/supports.c, `writeall` of logger/main.c.
--   Message       common/message.h and common/message.c, the byte order and the image in memory.
--   Supports      the path, time and digest helpers of common/supports.c.
--   Yaml          the events of libyaml, which is not part of the repository.
--   Aggregator    aggregator/appconfig.c (Config) and aggregator/main.c: the registry of channels
--                 (Channels), the files (Files), the message handlers (Handlers), `do_receive`
--                 (Receive) and the event loop of `run_main` (Loop).
--   Follower      follower/appconfig.c (Config), follower/connection.c (Connection),
--                 follower/follow_context.c (Context), and of follower/main.c the functions that read
--                 a file and send its lines (Run), that choose the files (Rotate), that read the
--                 commands of the control socket (Controller), and the loop of `main` with that
--                 socket and the timer (Loop).
--   Logger        logger/main.c: `main` behind its options, and the command to the control socket.
--   EndToEnd      a line, and a stream of lines (Streams), on their way from the follower to the
--                 file of the aggregator.
--
-- How C is rendered. A function keeps its name without the prefix of its type (`az_buffer_read_line`
-- is `AzBuffer.read_line`). State is passed and returned. An access outside a block, the use of a
-- null pointer, a failed assertion: the result is `none`. A `size_t` is a number below 2 ^ 64 whose
-- arithmetic wraps, an `int` that is returned for a count or kept as an id wraps at 2 ^ 32; a field of
-- a message is its bit pattern. The host is little-endian, as the byte
-- swaps of the sources take it to be. Fresh memory holds arbitrary bytes, and `malloc` of a block can
-- fail where the code looks at it; list cells and the two structs of a channel are taken to be there.
-- What the kernel does is an argument: the answers of `send`, the chunks that `recv` finds, which
-- files can be opened, the file system as a function from paths to bytes, the events of epoll with
-- the answers of `accept`. A run of a daemon is a step relation (`Reach`): the start, the turns of
-- its loop, and what may fall between two turns.
--
-- Recursion: the loops over a stream are structural on the list of the answers of the kernel, and
-- wait (`none`) where it ends. The readers of the configurations run on fuel, one more than there are
-- events, and each round takes an event; the loops over the lines of the control socket
-- and of the standard input of the logger on one more than there are bytes, as each line takes one at
-- least.
--
-- Not modelled: the options, sockets and signal handlers that the two daemons set up before their
-- loops, logging, the allocation wrapper (common/azmalloc.c), the event-loop library in
-- common/runloop.c, which no program of the repository uses, the older copy of the logger in
-- follower/logger.c, the options and the socket set-up of the command-line logger, and the creation
-- of directories. A signal is taken to come between two turns of the loop. MD5,
-- `strftime` and `fnmatch` are arguments.
pub mod Prelude
pub mod AzBuffer
pub mod AzList
pub mod Transport
pub mod Message
pub mod Supports
pub mod Yaml
pub mod Aggregator
pub mod Follower
pub mod EndToEnd
pub mod Logger
