-- ===== src/Lib.antt =====
-- The logging and configuration framework of SylarServerStudy: a model of the code under sylar/ and
-- theorems about it.
--
-- The parts, and how they interact. A program asks the one `LoggerManager` for a `Logger` by name,
-- and hands it events. A logger passes an event to its appenders or, if it has none, to the root
-- logger; an appender has a level, a formatter, and the console or a file that it writes to; a
-- formatter is compiled from a pattern. The configuration variable "logs" holds a set of definitions
-- of loggers, and a listener on it reconfigures the loggers when the set changes. Variables are found
-- by name in `Config`, which loads their values from YAML. Fibers are coroutines that a thread's main
-- fiber enters one at a time; a scheduler has a queue of fibers and callbacks.
--
-- The files, each with the code it is about:
-- - Base, Base/*: shared tests, lists, texts and association lists.
-- - Level: `LogLevel` in sylar/log.h and sylar/log.cc. The enumeration is unscoped, and 100 is cast
--   into it, so a level is a number. Level/RoundTrip is about printing and reading.
-- - Formatter: the scan of `LogFormatter::init` (sylar/log.cc), a state machine over the bytes of the
--   pattern with the code's three states; Formatter/Items: the format items, the table
--   `s_format_items`, the rest of `init` and `LogFormatter::format`. Formatter/Pieces has the pattern
--   language as data, independently of the scanner; Formatter/Meaning the documented meaning of each
--   directive; Formatter/Table, Boundary, Scan, Errors, Format and Total the proofs.
-- - Logger: `LogAppender`, `StdoutLogAppender`, `FileLogAppender` and `Logger`. Shared objects live in
--   a store and are named by their place in it, so that two loggers can share an appender. `log` on a
--   logger is on fuel, which bounds the chain of `m_root`: two rounds are enough in a well-formed
--   store, since no root has a root. `none` stands for what is undefined: a null pointer that is read
--   or streamed. Logger/Log has `log` of loggers and appenders; Logger/Valid has the invariant, Logger/Operations that each operation keeps it,
--   Logger/Routing, Views, Output, Files and Frozen what logging and formatters do. Logger/Statement has
--   the macros of the log statements with `LogEvent` and `LogEventWrap`, Logger/Spoken where they lead.
-- - Manager: `LoggerManager`; Manager/Registry is about names, Manager/Reach about sequences of calls,
--   Manager/Named about the names of a new manager.
-- - Define: `LogAppenderDefine`, `LogDefine` and the listener of `LogIniter`. A `std::set` of
--   definitions, which is ordered by name, is a list of definitions with distinct names.
--   Define/Yaml has the two casts between a YAML node and a definition; Define/Written and Known are
--   about them. Define/Changed, Matches, Last, Appender, Configure, Frame, Change, Each and Listener lead to what the
--   listener does. Define/Printed has `toYamlString` of appenders, loggers and the manager, and
--   Define/Described what it says.
-- - Config: `ConfigVar` in sylar/config.h, for any type with its comparison and its two casts, and its
--   listeners under 64-bit keys. Config/Registry: the static part of `Config`, a map to variables of
--   all types; types are told apart by a number, as by `typeid`. Config/Members and Config/Load:
--   `ListAllMember` and `LoadFromYaml` on a YAML tree. Config/Overlap: `setValue`
--   called by several threads, as steps under its two locks. Config/Listeners, Filed, Values, Lookup,
--   Typed and Overlap/Serial have the proofs.
-- - Container: the casts between YAML text and containers in sylar/config.h. Container/Yaml is what they
--   call of yaml-cpp, and what they rely on; Container/Sorted and Unordered are the ordered and the
--   unordered containers, over the orders of Container/Order; Container/Loops the shared loops;
--   Container/Cast the casts; Container/Views, RoundTrip and Maps what they give.
-- - Logs: the variable "logs", which brings these parts together: the cast of a set of definitions, the
--   variable, its listener, and the loggers. Logs/Names is about the sets that are read, Logs/Equal
--   about `operator==`, Logs/Agree about the variable and the loggers. Logs/Events has what a program does
--   after the launch, Logs/Logging what logging does to the agreement, Logs/Settled and Loaded what
--   any such actions lead to.
-- - Fiber: `Fiber` in sylar/fiber.h and sylar/fiber.cc, for one thread. A context is the stack that it
--   lies on and the point where it goes on; a failed assertion, which ends the program, a null
--   pointer that is read and a jump into a frame that is gone are `none`. Fiber/Turns says what the switches do, Fiber/Invariant,
--   Changes and Runs are about well-formed states and sequences of uses, Fiber/Count about the counter.
-- - Scheduler: the queue of `Scheduler` in sylar/scheduler.h; Scheduler/Queue is about many requests.
-- - Lock: the scoped locks and `CASLock` in sylar/thread.h. Lock/Scoped is about the calls that a scoped
--   lock makes on its mutex, Lock/Exclusion about threads that take their atomic accesses in any order.
--   Lock/ReadWrite has `RWMutex` and its two scoped locks over a lock of the pthread library, any
--   number of them for each thread, and calls that may return errors; Lock/Counts and Sharing are about
--   who holds it.
-- - Thread: the constructor of `Thread` and `Thread::run` in sylar/thread.cc, as the steps of the two
--   threads in any order. `sem_wait` may fail. Thread/Phases lists the stages that they go
--   through together, Thread/Progress has what they keep, Thread/Handshake is about the return of the
--   constructor. Thread/Life has `join`, the destructor and
--   the names, Thread/Semaphore the class `Semaphore` with its exceptions, used by any threads.
-- - Backtrace: `Backtrace` and `BacktraceToString` in sylar/util.cc, in both builds; Backtrace/Bounds is
--   about the frames that are taken.
-- - Tests: small runs, and the theorems at concrete arguments.
--
-- Parameters, for code that is not in the repository: `strftime` in the local zone (with a result
-- that fits the 64 bytes of its buffer), the paths of boost::filesystem, the clock (each operation
-- takes the second in which it runs), whether a file can be opened, the loading and writing of
-- yaml-cpp, the frames of the stack, what `vasprintf` writes, and the read-write lock and the
-- semaphores of the pthread library.
--
-- Texts are lists of bytes, and `isalpha`, `toupper` and `tolower` are those of the "C" locale.
-- Numbers that only get printed are not bounded. Not modelled: `Mutex` and `Spinlock`, whose
-- methods are one call of the pthread library each; the mutexes of the loggers, and the locks of
-- the variables but for Config/Overlap, so that each operation is one step; writes to an open file
-- that fail; the debug lines that the listener logs about itself; a listener that changes its own
-- variable or throws; the messages of the YAML casts; what the assertion macros print, and builds with
-- NDEBUG, which go on behind a failed assertion.
pub mod Base
pub mod Level
pub mod Formatter
pub mod Logger
pub mod Manager
pub mod Define
pub mod Config
pub mod Container
pub mod Logs
pub mod Fiber
pub mod Scheduler
pub mod Lock
pub mod Thread
pub mod Backtrace
pub mod Tests
