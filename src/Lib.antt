-- ===== src/Lib.antt =====
-- effect_ive_go: effect handlers for Go and the pure parts that they stand on.
--
-- A program installs handlers in a context (effects/*), each a set of worker goroutines that take
-- payloads from channels, and performs effects by sending a payload to the handler that the
-- context finds. Modelled are the handlers' life in a context, the workers and channels that all
-- handlers share, and the handlers built on them: state, binding, dependency, log, task,
-- concurrency and stream, with leases above state; beside these the ordered buffer of the streams,
-- the memoizing table of pure functions, and two example programs.
--
-- Where each part is:
-- - Base: the shared names, Boolean tests and list functions on the native numbers.
-- - OrderedBuffer: shared/orderedbuffer/ordered_buffer.go and `OrderByEffect` of
--   effects/stream/stream.go. `Buffer` is OrderedBoundedBuffer, with the values that the sink was
--   sent as a list; `insert` and `close` are Insert and Close. `sort.Search` is the loop of Go's
--   library, on fuel that its interval gives. Search and Order compare `insert` with ordered
--   insertion, Window bounds what is out of order, Stream is about whole streams, and Drops about
--   those whose context ends.
-- - Trie: purefn/trie.go. A sync.Map is an association list of values and inner maps; a failing
--   type assertion and an index out of range are `none`; the counter wraps at 2 ^ 32. Maps and
--   Walk are about one map and one traversal, Table about both maps.
-- - Tableize: purefn/tableize.go and tableize_dual.go. A pure function takes its argument list, as
--   `func(...ComparableOrStringer) O` does, and `stringer` is the String method of the arguments
--   that have one. A failing assertion to an interface is that of a nil (`is_nil`). Memo is about
--   sequences of calls, Arity about the functions of a fixed arity.
-- - Helper: shared/helper/helpers.go, and `Outcome`, which tells the panics apart that the library
--   recovers from. `retry` is on fuel for one run more than the attempts it is given, which is
--   enough, as it always makes a first one.
-- - State: effects/state. State has payloads, stores and the operations on a store; State/Delegate
--   what a handler asks of the handler above it; State/Handler the cases of `handle`; State/Stack
--   the effect functions through nested handlers, `WithEffectHandler`, and the goroutines that
--   send events and that expire keys. State/Memory, Single and Stores are about one handler over a
--   store that is an atomic map, Expiry and Fades about its timers, Events about its events and
--   its sink; Overlay and Tiers are about handlers that delegate to each other, with the maps of
--   all tiers as specification.
-- - EventSourcing: `EventSourcingEffect` of effects/state/state.go, over State and Registry.
-- - Dispatch: effects/internal/handlers. A step relation for the callers that send, the worker
--   goroutines and the end of the handler's context, with the messages accepted and handled as
--   histories; the hash of a partition key is a parameter. Bounds, Order and Drain are about its
--   traces, Resume is resumable.go and the wait for an answer.
-- - Effects: effects/helpers.go, resumable_effect.go and fire_and_forget_effect.go. A context is a
--   list of values, a handler a number in a `World` of queues; Scopes is about what a context
--   finds, Typed about the kind and the payload type of what it finds, Teardown about the closing
--   functions, which may be called in any order and number.
-- - Concurrency: effects/concurrency. A step relation for the spawning loop, the children, the
--   watcher of the parent's context and the closing function; Children is about the WaitGroup,
--   Marks, Tracked and Cancels about the watcher, Await about `AwaitAll`.
-- - Combinators: the children of `MapEffect`, `PipeEffect`, `EagerFilterEffect`,
--   `LazyFilterEffect` and `MergeEffect` in effects/stream/stream.go; what a `select` takes is a
--   parameter, and Merge is a step relation. Pipeline is about combinators after each other, Lazy
--   about the lazy filter.
-- - Dependency: effects/dependency, over a record of what it uses of Go's reflection.
-- - Log: effects/log, over a record for the user's logger.
-- - Task: effects/task, with the cases of its select.
-- - CachedDatabase: the stores of examples/cached_database, over records for go-memdb and
--   ristretto; Tiers is its main.go, over State/Stack, EventSourcing and Registry; Deferred its
--   deferred calls, over Concurrency.
-- - Singed: examples/singed_poison_trail, with an int32 as its 32 bits. Moves is about a move's
--   ticks, Table about calls of `nextCoord` through the table of Tableize, Trail about the poison,
--   over State/Stack, and Game has main.go, over Registry.
-- - Binding: effects/binding, with `GetHandler` of effects/helpers.go. Nested scopes of maps.
-- - Registry: the channel registry of effects/stream/stream.go, with type.go. The messages that
--   subscribe and unsubscribe, with the compare-and-swap on the addresses of lists, and Deliver,
--   the arbiter that passes messages on; what `select` picks is a parameter.
-- - Lease: effects/lease, on a record of the state effects that it uses. Semaphore compares a
--   resource with a counting semaphore, Lifecycle is about registration and deregistration;
--   OverState fills the record with the effect functions of State/Stack; Expiring has the
--   registration with expiry, where Owners and Room are about how many hold the resource; Payloads
--   are the types of type.go.
--
-- A message of the state, binding, dependency, stream or lease effect is handled at once, from the
-- innermost handler to the outermost; messages of different keys to different workers do not
-- interleave inside one `handle`. Time is a number that the caller gives. Third-party code is a
-- parameter: the equality of keys and values, the `String` methods, user-written stores and
-- comparison functions, reflection, loggers, databases and caches. Loops over lists are
-- structural; `sort.Search` recurses on the length of its interval, and `Retry` on its fuel.
--
-- Not modelled: log lines, but for those of Singed/Trail; what a teardown function or a child's
-- function does; the contexts' cancellation while a message of the state effect is under way; data
-- races, as that of the watcher of effects/concurrency/concurrency.go with the spawning loop,
-- whose reads and writes are taken as single steps; the constants of effects/configkeys/keys.go;
-- the hit points of the example game, whose adjustment calls `LoadEffects`, which the code does
-- not implement; the goroutines of the two main functions, which take no step between their calls,
-- but for the wait at the end of CachedDatabase's.
pub mod Base
pub mod OrderedBuffer
pub mod Trie
pub mod Tableize
pub mod Helper
pub mod State
pub mod Binding
pub mod CachedDatabase
pub mod Combinators
pub mod Concurrency
pub mod Dependency
pub mod Dispatch
pub mod Effects
pub mod EventSourcing
pub mod Lease
pub mod Log
pub mod Registry
pub mod Singed
pub mod Task
