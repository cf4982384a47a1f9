-- ===== src/Lib.antt =====
-- udpcp copies one file over UDP: the sender blasts all chunks, the receiver names the missing
-- ones in NACK packets, and a SHA-256 of the whole file decides at the end.
--
-- The parts and their files:
--   Base        numbers, lists, byte strings, bits and big-endian words that all parts share.
--   Error       the errors of the program as values: io::Error by kind and reason, and the reasons
--               why parse_init refuses an INIT.
--   Report      src/lib/report.rs: TransferEvent, and socket addresses.
--   Io          the world: the clock, the arrivals on the socket, the failures of system calls, the
--               lengths of short reads and the files are given in advance; datagrams sent and events
--               reported are collected. An action returns a value, raises an io::Error, panics, or
--               waits for ever in a recv_from. `Instant + Duration` panics where the sum reaches
--               World.instant_end, the first instant that the platform cannot represent. Io/FileOps has the file operations of the standard
--               library, Io/Quiet, Io/Clock and Io/Reads what their outcomes can be,
--               Io/Runs and Io/Leaves the logics of actions for the loops of the two sides.
--   Protocol    src/lib/protocol.rs: constants and limits, headers (encode_header, decode_header,
--               parse_packet), NACK payloads, validate_chunk_size; Protocol/Hashing has file_hash
--               and read_chunk.
--   Recv        src/lib/recv.rs: Recv/Init is parse_init (with Recv/Utf8 and Recv/Paths for the
--               parts of the standard library that it calls), Recv/State is ReceiveState with
--               new, store and accept_data (Recv/State/Partial is their specification on partial files),
--               Recv/Gaps collect_missing, emit_nacks and the NACK
--               deadlines, Recv/Finish finalize, flush, handle_done and Drop (on the unwinding of a
--               panic of a deadline, too), Recv/Linger linger,
--               Recv/Loop receive_loop with one function for each packet type,
--               Recv/Run run_receive.
--   Send        src/lib/send.rs: Send/Blast is Blast with its queue and drain_feedback,
--               Send/Packets the list of the datagrams that a session may send,
--               Send/Handshake the INIT and its ACK, Send/Chunks send_one and send_pending,
--               Send/Feedback dedup and collect_feedback, Send/Delay send_delay, Send/Run run_send.
--   Cli         src/cli.rs and src/main.rs: the arguments, their configurations, the dispatch and
--               the exit.
--   TextReporter, JsonlReporter
--               src/text_reporter.rs and src/jsonl_reporter.rs: what each event writes.
--   EndToEnd    the sender's packets at the receiver and the NACKs at the sender: EndToEnd/Transfer
--               the DATA packets, EndToEnd/Rounds a round of repair, EndToEnd/Copy a transfer from
--               the INIT to the DONE, EndToEnd/Session and EndToEnd/Carried a receive_loop whose
--               arrivals are datagrams of one run_send, EndToEnd/Confirmed a run_send that hears
--               only this receive_loop.
--   Examples    concrete runs.
--
-- Durations are nanoseconds. Machine integers are natural numbers with their wrap-around written
-- out where the code can reach it. SHA-256 (the sha2 crate) is a parameter, the record Sha256 of
-- Protocol/Hashing, with the laws of incremental hashing and the length of a digest; that two files
-- have different digests is assumed nowhere. The hash set of Blast is its membership test. What the
-- resolver answers is a parameter of connect_to.
--
-- The loops run on fuel. Reading a file takes at most one round for each byte and one more; a loop
-- on the socket takes an arrival from the inbox in each round that goes on, so the length of the
-- inbox and one more are enough; the passes of a send are counted by its limits.
--
-- Not modelled: the parsing of arguments (the clap and humantime crates), the thread that waits for
-- a signal, whose shutdown of the socket shows as a failure of recv_from, and the printing of JSON
-- values and floating-point numbers, which are parameters. NullReporter (src/lib/report.rs) does
-- nothing.
pub mod Base
pub mod Error
pub mod Report
pub mod Io
pub mod Protocol
pub mod Recv
pub mod Send
pub mod EndToEnd
pub mod Examples
pub mod JsonlReporter
pub mod TextReporter
pub mod Cli
