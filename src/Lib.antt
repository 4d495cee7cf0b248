-- ===== src/Lib.antt =====
-- A server that executes arithmetic and text operations for clients which talk to it over ZeroMQ
-- with Protocol Buffers messages.
--
-- The parts, and the files that model them:
--
-- * protos/ipc.proto, the messages: Protocol. A proto3 enum is open, so each enum has a constructor for
--   the numbers it does not name; a `oneof` is a data type; an optional sub-message is an Option.
-- * sources/server/algorithm_runner.cpp, `runMath`, `runStr` and the choice between them: Operations. A
--   signed expression whose value is not an int32 has no value in C++; its model is `undefined`.
-- * sources/ipc.cpp `verifyExecCaps` and `clientHasCapabilityFor` of sources/server/application.cpp: Caps.
-- * sources/server/algorithm_runner.cpp, the thread pool: Runner. A job that a `shared_ptr` holds is an
--   address in `heap`; the map of tickets and the queue hold addresses. A worker is a state machine
--   (Runner.Workers) whose turns are the stretches of `workerLoop` between two points at which other
--   threads can interfere. `enqueue` and `run` are in Runner.Submit, what `run` prints in
--   Runner.Prints, `get` in Runner.Get, and the handle
--   `AlgoRunner` in Runner.Handle. Runner.History has the sequences of operations and turns, and
--   Runner.Rounds the schedules in which every worker has a turn in each round.
-- * sources/server/application.cpp, `handleEnvelope` and `run`: Server.Envelope and Server.Loop, a round
--   of the loop at a time. It calls Runner.Handle and Caps.
-- * sources/server/application.cpp, `create`, `init`, `deinit` and the destructor, and
--   sources/ipc_server.cpp: Server.Lifecycle.
-- * sources/common/error_handling.cpp, the codes of the checks, and what the check of a status prints:
--   Errors.
-- * sources/client/application.cpp, the messages of a client: Client.Transport and Client.Submit.
--   Its DEALER socket is a queue of messages that came in and were not received. Its start and end,
--   with sources/ipc_clients.cpp: Client.Lifecycle.
-- * sources/client/application.cpp, the command loop `run`. Client.Scan has what it uses of the C
--   library to read a line: `fgets`, the conversions of `sscanf`, and `strtoull`; Base.Text has what
--   `printf` makes of a number. Client.Commands reads the words and numbers of each command,
--   Client.Tokens compares words, Client.Print has the text of a response, Client.Session what each
--   command does to the pending tickets, the socket and the output, and Client.Loop a line and the loop,
--   with `clientStart` of sources/ipc_clients.cpp.
-- * sources/ipc.cpp, the log: Logging. sources/server.cpp, sources/client_1.cpp and
--   sources/client_2.cpp, from the options to the exit code: Mains.
-- * System joins a client and the server.
--
-- Base has the shared notation, integers, masks and maps.
--
-- What the code does not decide is an argument: the order of the turns of the workers (with spurious
-- wakeups as turns of their own), the clocks, which sleeper a signal wakes, which threads can be
-- created, what a receive yields, whether a send is accepted or throws. The generated code that
-- parses and serializes messages is the records `Server.Codec` and `Client.ClientCodec`, parameters
-- of the two sides; that they agree is the hypothesis `System.Agree`. No function runs on fuel: the
-- joins of `deinit`, the waits of `get`, and the loops of the server and of the client take the list of
-- what happens meanwhile, and `none` says that they have not returned when that list ends. Addresses in
-- the heap are never reused: the code frees a job that nothing refers to any more, which it cannot
-- observe.
-- The atomics are sequentially consistent. `enqueue` is one step, with its
-- signal at the moment at which it releases `qMtx`. The count of tickets is that of the process, and stays
-- when a pool is closed.
--
-- A text is the list of its bytes; the standard input and output of a client are such texts. A
-- number in a line that is outside the type of its `%d` or `%u` is undefined behaviour, and so is a
-- word of `%s` that does not fit its array with its NUL; a minus before a `%u` wraps around.
-- `tolower` and `isspace` are those of the "C" locale. The order in which the command `list` walks
-- through the unordered map is an argument. An exception that nothing catches ends the program.
--
-- Not modelled: the lines that are logged, which have no effect on the rest; the parsing of the options,
-- by the library sources/third_party/cxxopts.hpp, of which the results are arguments; a negative count of
-- threads; the sockets of ZeroMQ beyond the results of their calls, and the connect of a client beyond
-- the exception that it throws; the release of the library that client 2 loads; the flag that a signal
-- handler sets, beyond the value that each round of a loop reads.
pub mod Base
pub mod Protocol
pub mod Operations
pub mod Caps
pub mod Errors
pub mod Runner
pub mod Server
pub mod Client
pub mod System
pub mod Logging
pub mod Mains
