-- ===== src/Lib.antt =====
-- Programs of a course on computer systems: the simulation of four elevators (hw7), a server
-- through which two people talk (hw8), two shells (hw4 and hw5), a dump of the heap (hw6), a counter
-- (hw2), and an output function that censors a word (hw3). What is modelled:
--
-- Elevator (hw7-jli230-main/C)
--   main.c is an enforcement system. It starts a thread for each elevator and each passenger, and
--   the scheduler hw7.c has to bring every passenger to her floor by the callbacks that main.c
--   gives it. A callback that breaks a rule (a door, a floor, the capacity, the wrong thread) ends
--   the program with a VIOLATION.
--   Elevator/Config: the sizes in elevator.h.
--   Elevator/Riding: `struct Passenger_info`, `add_to_list` and `remove_from_list`. A pointer into
--     the array `passengers` is an index, NULL is `none`. Riding/Add, Riding/Remove and
--     Riding/RoundTrip are about the list, Riding/Goals about the floors that were asked for.
--   Elevator/Scheduler: the rest of hw7.c. `passenger_request` and `elevator_ready` are cut into
--     sections where they wait or call back: `submit_request` and `submit_passenger`, the test
--     `may_board`, `claim_to_board`, `board`, the test `may_leave`, `claim_to_leave`, `leave`; the
--     test `may_run`, `plan`, `announce`, `acknowledge`, `arrive`. Scheduler/Target is about the
--     choice of a floor, Scheduler/Direction about the whole of `plan`, Scheduler/Init about
--     `scheduler_init`, Scheduler/Phantom about elements that no passenger has filled.
--   Elevator/Enforcer: the checks and updates of main.c, each as what one thread does while it holds
--     `state_lock`.
--   Elevator/Threads: the threads. `trip_section` has the sections of a passenger's thread in order, her
--     test of `is_elevator_ready` and her reset of it apart; those of an elevator's thread are
--     `lift_section` of Elevator/System/Steps. `Step` lets any thread take its next section, and `Reach`
--     is every order of such steps. `Undisturbed` says of an order that nothing of the same elevator
--     comes between a passenger's test and her reset. Threads/Safety and Threads/Pairs are about those
--     orders, Threads/Race runs one that is not. Threads/Whole and Threads/Embedding carry what holds of
--     Elevator/System over.
--   Elevator/System: the state of the threads and the sections of an elevator, and a proof device: in
--     `whole_section` a passenger's test and reset are one step, and `WholeReach` is what such steps
--     reach. An undisturbed order reaches what some order of whole sections reaches, with some resets
--     outstanding. System/Invariant is what every whole step keeps, System/Safety what follows,
--     System/Run has the moves for the examples. System/Progress is about what the threads can bring
--     about: Alone has an elevator that runs round after round, Asked the floors that the two records of
--     a request share, Together a passenger who gets out, Deliver all of it.
--   Elevator/Display: the board that `draw_state` of main.c prints, as text. Display/Boarded and
--     Display/Count are about who is shown inside an elevator, Display/Aligned about the columns.
--
-- Chat (hw8-jli230-main/C/hw8a.c)
--   Two clients, an asker and an answerer, each with a thread, pass messages in turn.
--   Chat: the clients on a heap, `insert`, `remove_inactives`, and a round of `client_handler`
--     (`handle`, with `relay` for a message and `hang_up` for the end). What an operation sends is a
--     list of effects. What `read`, `malloc` and `pthread_create` give is an argument.
--   Chat/Joining, Chat/Relay, Chat/Leaving and Chat/Removal follow a conversation.
--   Chat/Main: `main`. `start_server` is its setup, `accept_round` a round of its loop; `Step` takes one
--     of those or a round of some handler, as long as no handler ends, and `Reach` is what can come of
--     it. Main/Rounds is about what a round of a handler leaves, Main/Phases about the whole.
--
-- Epoll (hw8-jli230-main/C/hw8b.c)
--   The same server in one thread. `set_up` is what comes in front of its loop. An event is a client who
--   connects or whose descriptor can be read, with what `accept` or `read` gives; `serve` is the loop
--   over what `epoll_wait` reports. Epoll/Relay sets its messages beside those of Chat.
--
-- Shell (hw4-jli230-main/C/dsh.c)
--   Shell: `run`, `run_sequence` and `run_pipeline`, which start a job for every command of a line. A
--     job has its command and where it reads and writes. Shell/Lines is about whole lines.
--   Shell/Exec: `exec_command`, what a job does before it becomes its program. The files that open and
--     the programs that start are a record of functions. Shell/Exec/Words is about its words.
--   Shell/Session: the folder of a session and the loop over the lines in `main`.
--
-- LineEditor (hw5-jli230-main/C/dsh_main.c)
--   LineEditor: a round of the inner loop for every kind of key (`on_key`), on the variables of the
--     loop. Typing and Lines follow a cursor through it, History and Recall the former lines, and
--     Folder the search for a folder behind Shell/Session, with `dsh_init` as a parameter. LineEditor/Session: the outer loop
--     of `main` and `printHistory`; Session/Typed is about the lines, Session/Shown about what is shown.
--
-- HeapDump (hw6-jli230-main/C/heapdump.c)
--   `print_chunk`, `print_heap` and `print_freelist` on memory as a function from addresses to words
--   of 64 bits. HeapDump/Walk is about the first two, HeapDump/Ring about the third.
--   HeapDump/Main (hw6-jli230-main/C/main.c): `find_freelist` and `main`, a program that calls an allocator
--     and prints. The allocator is the record `Allocator`: its operations, and what is documented of
--     them when there is memory left. The children follow which blocks are in use: Uses has the
--     bookkeeping, Loops the loops over the chunks, Misuse and Whole the parts of `main`.
--
-- Counter (hw2-jli230-main/C/counter.c): `inc` and `reset`.
--
-- Censor (hw3-jli230-main/C/safeprep.c): `safewrite`. A string is the list of its bytes before the
--   zero byte; `strstr` is written out. Censor/Replacing says what becomes of the text. Censor/Cat has
--   `write` of safe.c and the loop of safecat.c.
--
-- Prelude has the helpers: numbers and tests, integers over the native numbers, linked lists, texts
--   as lists of bytes.
--
-- Numbers: an `int` is an integer without bounds; the counts of trips, of
-- requests and of calls of `inc` are the ones that grow with a run, by one at a time.
-- Fuel: the loops that follow links take fuel. The theorems about them ask for one more round than
-- the list has nodes; the elevators run with `passengers + 1`, one more than the array has
-- elements. The loop of `safewrite` shortens what is left of the text in every round but the last, so
-- that one round more than the text has bytes is enough. `run` calls itself on parts of its line, so that
-- the same fuel is enough for it. `print_heap` and `print_freelist` take one more round than there are
-- chunks to print.
-- Addresses in HeapDump wrap around at 2 ^ 64. In LineEditor an index that leaves the array `line`, or
-- falls below 0, ends the model with an error of its own: `negative_position` if Backspace or Left take
-- the position below 0, `overrun` for the array.
-- Order of the threads: a section is one step, and the steps of different threads follow each other in
-- any order. The locks and condition variables of hw7.c are left out, so that Elevator.Threads has
-- more orders than the program. `elevator_lock` is there to keep the test of `is_elevator_ready` and
-- its reset together, but `elevator_ready` unlocks it in line 406 of hw7.c, nothing locks it again, and
-- the wait in line 397 then gives up a lock that a passenger may hold: the code does not ensure that an
-- order is undisturbed. Lines 187-196, behind no lock, are taken as one step, too. A request for
-- which `waitlist` (50 places, never emptied) has no place fails, and the order goes no further.
-- In Chat a handler runs between two returns of `read` with no other thread in between. `buffer` is
-- taken to keep its bytes from round to round, as its place on the stack does.
--
-- Not modelled: main's setup of threads and windows, and `log`, in hw7; what the sockets do in hw8a.c and
-- hw8b.c; the processes that the shells start, and failures of `fork`, `pipe` and `dup2` (hw4); what
-- dsh_main.c draws, and `dsh_run` and `dsh_init`, which come as object files (hw5); the allocator, and
-- `malloc` with no memory left (hw6); the programs of hw1, each of which is one output call.
pub mod Prelude
pub mod Elevator
pub mod Chat
pub mod Counter
pub mod Censor
pub mod Shell
pub mod LineEditor
pub mod HeapDump
pub mod Epoll
