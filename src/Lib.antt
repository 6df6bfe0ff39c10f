-- ===== src/Lib.antt =====
-- Fuzztruction-Net, a fuzzer that mutates the internals of a generator program (the source) and feeds
-- what it then writes to the program under test (the sink). The parts of the Rust code modelled here
-- and how they interact:
--
-- * The scheduler and the instrumented source share a mutation cache: one entry for each mutation site
--   with the mask to apply there (fuzztruction_shared/src/mutation_cache_entry.rs, _content.rs and
--   mutation_cache.rs).
-- * A mutator (scheduler/src/fuzzer/worker_impl/mutators.rs) changes the mask of an entry in place, once
--   for each run of source and sink, and undoes the change before the next.
-- * The sink leaves a coverage bitmap (scheduler/src/sink_bitmap.rs), which is classified and compared
--   with the virgin map; a run that shows something new makes a queue entry.
-- * The queue (scheduler/src/fuzzer/queue.rs) keeps the entries with their statistics, among them the
--   sites still to try, a finite integer set (scheduler/src/finite_integer_set.rs).
-- * A traced run of the source tells which sites it reached and how often (scheduler/src/trace.rs);
--   the cache is cut down to these, and their masks resized (scheduler/src/mutation_cache_ops.rs).
-- * A worker (scheduler/src/fuzzer/worker.rs) is given its next entry by the scheduling
--   (scheduler/src/fuzzer/worker_impl/scheduling.rs), runs source and sink with a mutation
--   (scheduler/src/fuzzer/common.rs) and acts on the outcome
--   (scheduler/src/fuzzer/worker_impl/phases/run_common.rs): it consults its own virgin map, then the one
--   that all workers share, calibrates what is new and queues it.
-- * Each worker counts its runs and findings (scheduler/src/fuzzer/event_counter.rs).
--
-- Base and Bits are shared: tests, lists and failure by Option, and the digits of machine words.
--
-- Cache models the content of the cache: Content is MutationCacheContent, its memory a function from
-- an offset to the entry copied there and the place of the byte in it, so that an overlapping copy is
-- seen; init, update, space_left, clear, entries, push, consolidate and remove are the functions of
-- those names. Cache/EntryData models the entry, Cache/Retain and Cache/Union the operations of
-- MutationCache. Sizes holds what the compiler and the constants fix: the sizes of the two structs and the length of the table.
-- Cache/Blocks says what it means that a content holds a list of entries (Holds), the abstract view to
-- which Push, Remove, Retain and Union relate the operations; Cache/Room says which of several entries find room.
--
-- Bitmap models Bitmap with the functions of the same names; the eight-byte chunks are lists of bytes read
-- as little-endian words. IntegerSet models FiniteIntegerSet. Mutators has one module for each mutator with
-- its new, next, steps_total, steps_done and drop; the random draws of a step are its arguments, and what
-- rand documents of them is a hypothesis. Mutators.visit runs a loop over a mutator and lists the buffers
-- that it sees. Queue models QueueEntryStats and Queue, EventCounter FuzzerEventCounter.
-- Trace models Trace and the operations of MutationCacheOpsEx.
--
-- Calibration models common_run, which runs the source and, if its output is new, the sink, with the check and the insert
-- under their two locks (check_output and insert_output), and common_calibrate, which repeats a run to see whether its
-- coverage is stable. Calibration/Outputs interleaves the checks and inserts of several workers. Worker models check_virgin_maps, create_new_queue_entry
-- and the handlers of a run up to do_run. Outcomes of source and sink are given; Env holds the hash, the
-- floating point comparisons and the options. The maps that the workers share are in the state of
-- the worker that holds their lock; Worker.Sharing runs reports of several workers one after the other.
-- Fuzzing models fuzz_candidates (scheduler/src/fuzzer/worker_impl/phases/run_phase.rs): the loops over the entries, their
-- mutators and the runs, each of which is do_run of Worker; what a run observes is a function of its number. Fuzzing/Plan is a flat list of steps that
-- an uninterrupted phase is compared with.
-- Scheduling models the two recalculations of favoured entries, filter_entries, schedule_common and schedule_next. The
-- statistics of the entries are a function of their ids; the choices of rand are a Chooser, and Documented
-- says what rand promises of them.
-- TraceMap models the map of the same name in which the agent, inside the source, counts the hits of mutation sites
-- (generator/agent/src/tracing.rs); the scheduler reads them as a Trace. TraceMap/Search is about its binary search.
--
-- Failure: a panic or failed assertion is none, in Calibration and Worker the constructor panicked of Result,
-- beside the errors that the code returns, and in Scheduling that of Scheduled. Reads of uninitialised or
-- foreign memory do not occur in the model: a descriptor that points to no entry is none. usize and u64 wrap around where the code
-- can reach the bound; counters that the code bounds by another number are plain numbers.
-- Bounds and fuel: schedule_next takes fuel for the rounds of its loop, and two rounds are enough;
-- is_power_of_two halves its number at most 64 times, the width of a usize; the binary search of
-- TraceMap has one turn more than entries, and each turn shortens the range; a loop over a mutator takes a number of steps or a list of draws, and the theorems state for which it ends.
--
-- Not modelled: processes, pipes, message queues and shared memory calls (source, sink, agent, jail), the
-- command line and configuration, the coverage reports and drivers of other fuzzers, and vendored code;
-- they are input, output and glue. Of the phases of a worker the choice of candidates and mutators is
-- not modelled, of the worker the main loop and the threads, of the agent all but its trace map.
pub mod Calibration
pub mod Worker
pub mod Scheduling
pub mod Fuzzing
pub mod TraceMap
pub mod Base
pub mod Bits
pub mod IntegerSet
pub mod Bitmap
pub mod Mutators
pub mod Cache
pub mod EventCounter
pub mod Queue
pub mod Trace
