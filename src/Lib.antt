-- ===== src/Lib.antt =====
-- A model of the core of Hyper Hyper Space: the containers of src/util, the hashed collections of
-- src/data/model, the replicated collections of src/data/collections/mutable, the histories of
-- operations of src/data/history, and the backend in memory of src/storage/backends.
--
-- The program keeps objects that several replicas change by operations. An operation names those it
-- comes after; its header (OpHeader) names their headers, and a fragment (HistoryFragment) holds a set
-- of headers, with those that are missing and those that are terminal. The collections apply the
-- operations as they arrive, in any order in which none comes before those it rests on. The backend
-- stores the literals of objects and operations, with their headers.
--
-- Which file models which part:
--   Js/Set, Js/Map: the runtime's Set and Map, as lists in the order of insertion.
--   Util/Ordinals: src/util/ordinals.ts. Texts are lists of character codes; Suffix is the loop by
--     itself, on what is left of the bounds.
--   Util/MultiMap, Util/DedupMultiMap, Util/ArrayMap, Util/LruCache, Util/Queue, Util/Strings:
--     src/util/multimap.ts, dedupmultimap.ts, arraymap.ts, caching.ts, queue.ts, and chunk and
--     unchunk of strings.ts.
--   Model/HashedSet, Model/HashedMap, Model/Reference: src/data/model/immutable/HashedSet.ts,
--     HashedMap.ts and HashReference.ts. The hash of an element is a parameter.
--   History/Header: src/data/history/OpHeader.ts. The hash of a value and the runtime's sort are
--     parameters.
--   History/Fragment: add and remove of src/data/history/HistoryFragment.ts, in Fragment/Invariant
--     what the sets of a fragment are to hold, in Fragment/View the map that it stands for.
--   History/Walk: HistoryWalk.ts, BFSHistoryWalk.ts and FullHistoryWalk.ts of src/data/history, with
--     iterateFrom and closureFrom; History/Queries: the questions and copies of HistoryFragment.ts.
--   History/CausalClosure: causalClosureFrom and causalClosure of HistoryFragment.ts.
--   History/Loading: loadFromTerminalOpHeaders of HistoryFragment.ts. The store is a parameter.
--   History/Delta: src/data/history/HistoryDelta.ts. The store is a parameter.
--   Model/Operation: src/data/model/mutable/MutationOp.ts, with CascadedInvalidateOp.ts and
--     InvalidateAfterOp.ts of src/data/model/causal: Cascade is how undos and redos are made and
--     checked. The hash of an operation is a parameter.
--   Model/MutableObject: src/data/model/mutable/MutableObject.ts. Pending is what waits for its
--     predecessors, with the lock, and Checkpoint the checkpoints and the saving. The state that a
--     class adds, its mutate and its export, and the store are parameters. Log is what an object
--     holds after a list of operations, Drain the end of the loop, Sound, Carried and Arrived what
--     its turns keep, Deliver all of it together. The mutate of a class is taken not to throw. The
--     load of an operation and the test that it is not known yet are one step. applyOpFromStore
--     does not await the pass over what waits: what it ends in here is the end of that pass.
--   Collections/GrowOnlySet, Collections/MutableSet, Collections/MutableReference: mutate and the
--     calls that make operations, of the files of these names in src/data/collections/mutable.
--   Collections/MutableArray: src/data/collections/mutable/MutableArray.ts, mutate and rebuild, in
--     Edits the insertions and deletions by index; in Standing what its indices are to
--     count, in Place where insertions go.
--   Storage/MemoryBackend: src/storage/backends/MemoryBackend.ts.
--   Tests: the theorems at concrete inputs.
--
-- A method that changes its object returns the new object; one that throws returns a Result with an
-- error. Asynchronous methods are taken as one step, as they are where nothing else runs between;
-- but the operations that reach an object while it applies others are a list for each application.
-- Numbers are natural numbers, but for the size of a MultiMap, which is an integer since it can fall
-- below zero.
--
-- Loops that are not structural run on fuel: DenseOrder.between on three more than the lengths of its
-- bounds, chunk on one more than the length of the text, a walk on one more than the hashes in its
-- queue and those that the headers not visited yet can bring there. In each of these the fuel is
-- enough. The loop over the operations that wait runs on one more than those that wait or are still
-- to arrive, which is enough too. loadFromTerminalOpHeaders and HistoryDelta.compute run for a number
-- of rounds that is given; where the store is complete, enough are given by one more than the hashes
-- of the history.
--
-- Not modelled: the literals of objects, signatures and hashing, the store over the backends and the
-- loading of a history from it in batches, the timers of checkpoints, the backends on the browser's
-- database, causal collections and forkable objects, the validation of the operations of collections
-- and the export of their states, the mesh, the network and the spaces.
pub mod Prelude
pub mod Js
pub mod Util
pub mod History
pub mod Model
pub mod Collections
pub mod Storage
pub mod Tests
