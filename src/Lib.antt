-- ===== src/Lib.antt =====
-- Verification of the C programs of striga2-pocs: the core of pyglev, an event loop for Python on top
-- of libev, greenev, an I/O thread with queues between threads, and singlev, an application that runs a
-- Python module around an event loop.
--
-- How the parts interact. Threads send each other commands through queues: one behind an `ev_async`
-- watcher in pyglev, and in greenev one of that kind and one on condition variables. In pyglev the
-- event loop drains its queue and carries out each command: it calls a Python object, or takes the
-- first step of a listen command, which resolves an address and opens listening sockets. A listening
-- socket hands accepted connections to the application's protocol, a Python generator in an
-- established socket. A signal breaks the loop, which closes all listen commands. In greenev other
-- threads open sockets and queue a command for each, and the I/O thread carries these out, accepts
-- connections, and reads into slots of a buffer pool. The application starts both threads, tells them
-- to end on a signal, and waits until they have. The Python thread runs a module that asks for the next
-- command and for listening sockets. In singlev the main thread runs a Python module, which may enter
-- the event loop, without the interpreter lock, and send commands to it.
--
-- Files and sources:
--   Pyglev/CmdQ          pyglev/pyglev/core/cmdq.c: `cmd_q_new`, `cmd_q_put`, `cmd_q_get` and so on
--   Pyglev/Errors        `_event_loop_error` of pyglev/pyglev/core/evloop.c
--   Pyglev/EstSocket     pyglev/pyglev/core/estsock.c
--   Pyglev/ListenCmd     pyglev/pyglev/core/lstncmd.c
--   Pyglev/EventLoop     pyglev/pyglev/core/evloop.c: the loop over the commands; Break has the break
--                        by a signal, Objects the Python methods and what the garbage collector calls,
--                        Life the loop from its start to its end, over the handlers that libev calls
--   Pyglev/Core          pyglev/pyglev/core/core.c
--   Greenev/CmdQEv       greenev/cmdq_ev.c
--   Greenev/CmdQCv       greenev/cmdq_cv.c; Timeout has the deadline, Wait the wait loops,
--                        Deadline what they wait for, and Refines the queue without waits
--   Greenev/IoBuffer     greenev/iobuffer.c
--   Greenev/IoThread     greenev/iothread.c; Connecting has what runs in other threads
--                        and Life the thread itself, over the events of its loop
--   Greenev/System       the I/O thread and the threads that send it commands, in any interleaving
--   Greenev/Program      the main thread, the I/O thread and the Python thread of greenev, in any
--                        interleaving; Whole has what holds of it
--   Greenev/Main         `main` of greenev/greenev.c
--   Greenev/PyApi        greenev/pygeapi.c, and the thread of greenev/pythread.c
--   Greenev/App          greenev/app.c, with the constructors of greenev/iothread.c and
--                        greenev/pythread.c and the end of the Python thread
--   Singlev/CmdQ         singlev/src/cmdq.c; Agrees compares it with that of pyglev
--   Singlev/RunModule    `_pyutils_run_module` of singlev/src/pyutils.c
--   Singlev/App          singlev/src/app.c
--   Singlev/Api          singlev/src/pysevapi.c, and `application_start` of singlev/src/app.c
--   Singlev/Main         `main` of singlev/src/singlev.c
--   Logging              greenev/logging.c and singlev/src/logging.c, which have the same text: how a
--                        line is made, and what a program logs in all
--   Greenev/Logging, Singlev/Logging   the functions of the two files, with their stream
--   Base, Ring, Fifo, Calls   what the parts share: numbers and lists; an array that holds a queue
--                        between two indices; the queue that the implementations refine; the calls
--                        into libraries
--   Tests                the theorems at concrete inputs
--
-- Names are those of the sources, without a leading underscore and in lower case. A field that only
-- holds a handle of a library (a mutex, a watcher, a loop) is left out: the calls on it stand in a
-- trace.
--
-- How the code is read. A function that changes a structure takes it as an argument and returns it.
-- The calls into pthreads, libev, libc and CPython come as a list (`Call`), in order; what they answer
-- are arguments, so that a theorem holds for all answers unless it says otherwise. `unsigned int` wraps
-- at 2 ^ 32, and an `int` that holds one is read in two's complement. A failed `assert`, and an exit with an
-- error, is `aborts`.
-- Reads and writes outside an array, reads of freed memory and a list that links to itself are results
-- of their own. Other threads are explicit: a consumer's loop takes the puts that arrive before each
-- turn, and a wait takes the state that the others leave at each wake. Greenev/System and
-- Greenev/Program are step relations: a step is one call of a function by one thread. There a wait of
-- the Python thread for a command is one step, with the queue as it was at each of its wakes, since a
-- put during the wait is a step before it.
--
-- Fuel. `on_watcher_cmd_q_async` and `on_cmdq_ready` run on fuel, since other threads may go on putting
-- commands; one more than the commands held and arriving is enough. `close_commands` needs one more
-- than the number of listen commands. `traverse_commands` follows a list that may link to itself; it
-- is looked at where it ends. A loop over `ev_run` goes over a list of its calls, with what each
-- returns, and is not over where none of them returns false; that one does is a condition of the
-- theorems on the ends of such loops. All other loops are structural.
--
-- Logging is modelled on its own, with what libc stores and answers as a parameter; elsewhere a log
-- message is one entry of the trace, without its text.
--
-- Not modelled: the type and method tables for CPython; an allocation that fails for the watchers of
-- a listen command; the tests; and the Python
-- experiments in ast_change and striga_import. That the critical sections of the queues exclude each
-- other is what the mutex promises; a put or a get is one step here.
pub mod Base
pub mod Ring
pub mod Fifo
pub mod Calls
pub mod Pyglev
pub mod Greenev
pub mod Singlev
pub mod Logging
pub mod Tests
