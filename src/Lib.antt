-- ===== src/Lib.antt =====
-- Programs of a study of the Unix system interface: a shell, a message queue over named pipes, and
-- smaller tools. Each file here is about one source file or one part of it.
--
-- Children: process/pc.c. Three children and what is shown of them; Waits is about the parent, and
--   Reports about the two ways to show how a process ended.
-- CommandLine: process/cl.c. An interpreter for single commands: `getargs` splits a line, `main` is
--   the loop over the lines; Words and LongLines are about one line, Session about whole inputs, and
--   Doubling about commands that cannot be executed.
-- Date: fundamental_ex/date.c. The time zone and the year, as they fit their arrays.
-- Display: communication/display.c. The line for the status of a process.
-- Environment: process/env.c. What a program shows of its variables; Typed is about the program at the
--   end of a session of the shell.
-- FileInfo: advanced_io/link.c. The letters and lines for the mode of a file; Letters reads the
--   letters back, and Report is `printName` and `main`.
-- FirstExercises: fundamental_ex/hello_world.c and t.c. What is printed of macros and limits.
-- Handoff: process/mut.c. Two threads over one list, one step for each statement, with the
--   cancellation at the end; Exclusive is about the mutex, Conserved about the numbers, Faults about
--   what can fail, Returns about the end of `main`, and Stack about the two threads seen from outside.
-- FifoApp: ad_comm/fifo_header.h and fifo_app.c, the server; Client is fifo_app_client.c, and
--   Conversation the two together; Unanswered is about a client whose own pipe is not there.
-- Locks: basic_io/lock.c. `lockpath`, whose array has room for 99 bytes.
-- Pipes: WhoCount is communication/who_count.c, Fsort is communication/fsort.c, and Hello is
--   communication/pipe.c and pread.c. The processes have the shell's tables of descriptors, and a
--   `fork` that answers 0 makes the run that of a child. InShell is who_count.c against the shell.
-- Shell: communication/shell.c.
--   Shell/Lexer: `store_char` and `gettoken`. One step of the automaton is `action`, the loop is
--     `scan`. The caller's array keeps its length, so that an overrun is seen.
--   Shell/Table: descriptors, `fd_check`. A table says of each descriptor what is open on it.
--   Shell/World: the state that the shell keeps, its log, and the system (`Os`), which answers
--     each call as it likes, by what has happened before.
--   Shell/Builtin: `asg`, `set`, `cd`, `builtin`.
--   Shell/Invoke: `redirect` and `invoke`. A child is what it calls `execvp` with, or how it fails.
--   Shell/Command: `command`. `gather` is its loop over the tokens and `finish` what follows.
--   Shell/Listing: `test_gettoken`.
--   Shell/Loop: `wait_and_display` and `start_shell`. Line is about the kinds of line that are
--     followed, Session about all that is typed in, Ends about the end of the loops, for a system
--     whose processes end, and Sealed about the descriptors of the children.
--   Shell/Pipeline: what a pipeline should come to, and a single command with files for its input and
--     output or in the background.
-- Signals: signal/fork_test.c. One `fork`.
-- Smi: ad_comm/smi.h and ad_comm/smi_server.c.
--   Smi/Clients: the table of clients, `clients_find`.
--   Smi/Server: receive, answer and send; `serve` is one round of `main`. Addressed is about whom a
--     round writes to, and Honest about the descriptors in the table.
--   Smi/Main: `main`, from the opening of the server; Ready is about the room in its table,
--     Answers about what its clients get, and Writes about whom it writes to.
--   Smi/Session: `smi_open` and `smi_close_fifo`, as lists of the system calls they make.
-- Socket: socket/basic.c. The server and its client, one step for each call; OnTheWay is what is
--   between them, and Exchange what they come to.
-- Terminal: terminal/read_char.c. `getch` and the loop over the keys. Reading is r.c, and Names is t.c.
-- WorkingDirectory: advanced_io/example.c.
--
-- Fuel: `command` has fuel for its loop and its calls of itself; each round reads a byte, so that
-- two more than there are unread bytes are enough, which `start_shell` gives. `wait_and_display`
-- has one more than there are children for its waits, each of which reports another child. In
-- process/cl.c fuel counts lines and the bytes that are eaten up, and in ad_comm/smi_server.c the
-- rounds, of which each takes an answer of `read`.
--
-- Bytes are numbers. The arrays `word`, `srcfile` and `dstfile` are lists of fixed length, of which
-- `c_string` is the part before the first NUL; where there is none the model says that the
-- behaviour is undefined. Arithmetic stays far below the bounds of `int`, but for the numbers of
-- processes in messages, which are cut to 32 bits as the source does.
--
-- The input of process/cl.c is short enough for the buffer of standard input, so that a child has
-- all of it. In socket/basic.c the calls other than `fork` and `connect` work.
--
-- Not modelled: `errno`; what a child prints; the contents of memory from `malloc`; failures of
-- `setenv`, and of `dup2` and `close` for a descriptor that is open; the names of pipes that do not
-- fit their arrays; the library under common/, which is copied from a book; and the
-- rest of basic_io/lock.c, which is unfinished.
pub mod Children
pub mod CommandLine
pub mod Date
pub mod Display
pub mod Environment
pub mod FifoApp
pub mod FileInfo
pub mod FirstExercises
pub mod Handoff
pub mod Locks
pub mod Pipes
pub mod Prelude
pub mod Shell
pub mod Signals
pub mod Smi
pub mod Socket
pub mod Terminal
pub mod WorkingDirectory
