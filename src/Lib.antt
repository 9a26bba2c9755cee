-- ===== src/Lib.antt =====
-- gpcl is a collection of C++ libraries, most of them headers under include/gpcl. This development
-- models those parts that carry logic of their own, and proves what makes them correct.
--
-- The parts stand beside each other. The JSON library is the largest: a push parser turns characters
-- into events, a visitor builds values from the events, and a serializer prints a value. The segregated
-- storage is the free list under pool.hpp and the pool allocators. dynarray is the container that
-- string_utils.hpp keeps its results in. The flat buffer is the byte queue under the stream classes,
-- and the reference counts are the control block under shared_ptr.hpp and weak_ptr.hpp. The linked list
-- is a container of its own, the durations are what waiting functions take, and the futex mutex and its
-- condition variable are the locks where the system has futexes.
--
-- What models what:
--   Json.Value, Json.Text: the values of include/gpcl/json.hpp (basic_json, its errors in
--     include/gpcl/json_error.hpp), and numerals, where lexical_cast (include/gpcl/lexical_cast.hpp) reads
--     integers. Decimal numerals of double are arguments, with the round trip as a hypothesis.
--   Json.Parser: parser::put and the four parsing states, over any visitor. Json.Builder: value_builder
--     with its stack of contexts, and basic_json::parse. Json.Serializer: serializing_visitor and
--     operator<<, in both print styles (include/gpcl/json_iomanip.hpp). Json.RoundTrip is
--     about parse and serialize together, and Json.Totality about parse alone. The inner loop of put runs
--     on fuel of two rounds, which suffices with the visitor that parse uses, since each state that does
--     not consume its character leaves for the indeterminate state, and that one consumes or throws.
--   Storage: include/gpcl/simple_segregated_storage.hpp (simple_segregated_storage). Memory is the pointer
--     that stands at each address, a reference to a pointer is a Slot, null is 0, and addresses do not
--     wrap. Loops over the list run on fuel; one more than there are free chunks is enough.
--   Pool: include/gpcl/pool.hpp (pool), on top of Storage. The loop that doubles a block's size has as fuel
--     what is needed and one, and for more than 2 ^ 63 bytes never ends, as in the source; the loops over the free list take the fuel of Storage.
--   Dynarray: include/gpcl/dynarray.hpp (dynarray). A cell holds an object or raw memory. Calls of the
--     allocator and of constructors take their outcomes from a list of faults, any of which may be
--     a throw. Arguments are values, none of them a reference to an element of the array.
--   FlatBuffer: include/gpcl/flat_buffer.hpp (basic_flat_buffer), with sizes and addresses of 64 bits,
--     refined to a queue.
--   RefCount: include/gpcl/detail/ref_count_base.hpp (ref_count_base). A step is one atomic operation of
--     one thread; a run is any order of steps of threads that use only what they hold.
--   Split: include/gpcl/string_utils.hpp (split, split_old, sub_string::trimmed). The fuel is one round more
--     than there are characters, which is enough for a delimiter that is not empty.
--   Getopt: include/gpcl/getopt.hpp and include/gpcl/impl/getopt.ipp (getopt::operator()).
--   Monotonic: include/gpcl/pmr/monotonic_buffer_resource.hpp and include/gpcl/pmr/impl/
--     monotonic_buffer_resource.ipp (monotonic_buffer_resource), over any resource upstream.
--   LinkedList: include/gpcl/list.hpp (list_node, list). Memory maps the address of a node to its members,
--     and that of a list's past-the-end node to its size. Calls of the allocator and of constructors take
--     their outcomes from a list of faults; what an assignment of elements leaves when it throws is an
--     argument. LinkedList has the nodes and erasures, LinkedList.Insert the
--     operations that allocate, LinkedList.Splice those that move nodes, LinkedList.Assign the assignments for
--     equal allocators, and LinkedList.Ring the invariant.
--     Loops over nodes have as fuel the number of live nodes and one, since each round goes on by a node;
--     the loops of resize have the difference of the sizes and one.
--   Time: include/gpcl/time.hpp (duration), Time.Instant and Time.SystemTime (instant, system_time). Words
--     wrap; a failed assert is an error, since GPCL_ASSERT calls its handler in every build. What the clock
--     reads is an argument.
--   Futex: include/gpcl/detail/futex_mutex.hpp and include/gpcl/detail/impl/futex_mutex.ipp (futex_mutex) as
--     the steps of any number of threads, with the answers of the kernel, and Futex.Condition:
--     include/gpcl/detail/impl/futex_condition_variable.ipp (futex_condition_variable).
--   Base: shared names, tests on numbers, lists measured by native numbers, integers, results.
--   Tests: theorems at concrete inputs, and tests by computation.
--
-- Not modelled: code that calls the operating system (files, processes, shared memory, threads, clocks,
-- services, sockets), its Windows and POSIX backends, stack traces, stream buffers, the wrappers of SQLite
-- and MQTT, compile-time helpers, and the vendored TLSF allocator and doctest. Of JSON values the element
-- accesses, iterators, erasures and conversions are not modelled; of dynarray swaps and assignments
-- between unequal allocators, comparison and printing; of lists the assignments between unequal
-- allocators, the exchange of allocators, comparison and printing.
pub mod Base
pub mod Dynarray
pub mod FlatBuffer
pub mod Futex
pub mod Getopt
pub mod Json
pub mod LinkedList
pub mod Monotonic
pub mod Pool
pub mod RefCount
pub mod Split
pub mod Storage
pub mod Time
pub mod Tests
