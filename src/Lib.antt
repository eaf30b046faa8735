-- ===== src/Lib.antt =====
-- A storage engine for database indexes: fixed-size slotted pages, a page file, an LRU buffer pool,
-- and B+ tree nodes over them, as the Go packages of this repository have them.
--
-- The parts, from the bottom up, and the files that model them:
--   * internal/page/page.go: the slotted page. `Page` has the definitions, one for each function;
--     `Page/Slots` and `Page/Shift` have what one slot and the slot loop do; `Page/Layout` has the
--     well-formed pages and the sequence of entries that such a page stands for; `Page/Insert`,
--     `Page/Delete` and `Page/Header` follow the functions that change a page.
--   * internal/btree/key.go: `Key`, with `Key/RoundTrip` and `Key/Order`.
--   * internal/btree/node.go: `Node`, with `Node/Entry` (reading an entry's parts), `Node/Find`
--     and `Node/Child` (lookup), `Node/Move` (the loops that move entries), `Node/Splits`,
--     `Node/SplitInternal` and `Node/Merges`. `Search` is sort.Search of Go's standard library, which
--     node.go calls.
--   * internal/btree/tree.go: `Leaf`. `Leaf/Rows` has the ordered rows that a leaf stands for,
--     `Leaf/Place` and `Leaf/Correct` relate the two.
--   * internal/storage/file.go: `Storage`, over a model of os.File; `Storage/ReadWrite` is about
--     the pages of a file, `Storage/Failure` about errors, as `Pool/Failure` and `Store/Failure` are.
--   * internal/buffer/pool.go: `Pool`. `Pool/Lru` is about the list, `Pool/View` has the invariant
--     and what a caller reads through the pool, `Pool/Evict`, `Pool/Access` and `Pool/Put` follow
--     the operations.
--   * internal/heap/heap.go: `Heap`, over `Store`, which is either of the page manager and a pool in
--     front of it (readPage and writePage). `Heap/Rows` has what it means that a heap holds a row;
--     `Heap/Choose`, `Heap/Put`, `Heap/Get` and `Heap/Open` follow the operations.
--   * internal/btree/btree.go: `Tree` (state, store calls, descent, Search), `Tree/Insert`,
--     `Tree/Delete`, `Tree/Scan` and `Tree/Rows` have the definitions. `Tree/Shape` says what a tree
--     of any height is and which rows it holds, `Tree/Context` and `Tree/Focus` follow one key to
--     its leaf and back, `Tree/Path` has the ancestors of a leaf, and `Tree/Descent`, `Tree/Ordered`, `Tree/Change` and `Tree/Refuse` are
--     about the operations on such a tree. `Tree/SplitRows`, `Tree/SplitLeaf`, `Tree/SplitInsert`,
--     `Tree/NewRoot` and `Tree/Grow` follow an insertion that splits the root leaf; `Tree/Range` is
--     about the scan of a leaf.
--   * internal/btree/composite.go: `Composite`, on the descent and the repairs of `Tree`;
--     `Composite/Entries` and `Composite/Correct` are about its leaves.
--   * internal/btree/stats.go: `Stats`. `Stats/Reads` has steps that only read, `Stats/Children` and
--     `Stats/Level` the way from a level of a tree to the next, `Stats/Walk` and `Stats/Count` the
--     counts.
--   * internal/partial/partial.go: `Partial` and `Partial/Upsert`.
--   * internal/experiment/keys.go: `Experiment/Keys`. Random bytes and the clock are arguments.
--   * The drivers of internal/experiment: `Experiment/Workload` (workload.go), `Experiment/BufferPool`
--     (bufferpool.go), `Experiment/SyncCost` (synccost.go; `Experiment/SyncCost/Count` is about its
--     counter), `Experiment/Reads` (reads.go) and `Experiment/Writes` (writes.go), on the
--     tree, the heap and the partial index. `Experiment/Run` has what they share. A driver that returns an error returns no result, and the files that its
--     deferred calls close are not looked at again.
-- `Prelude`, `Bytes`, `Bits` and `Errors` are shared. `Tests` has runs on concrete values.
--
-- How code becomes a definition. A Go function that may panic (an index or a slice out of range, a
-- division by zero) returns an Option, and none is the panic. An error result is a `Result`. A method
-- that changes its receiver takes the old value and returns the new one. Numbers are natural numbers:
-- uint16 and uint64 arithmetic is written with its wrap-around, an int64 is an integer in the range
-- that `IsInt64` states, and a byte offset in a file is its 64 bits. A page's data is a function from
-- index to byte, which is read below index 4096 only.
--
-- A File has a list of outcomes, one for each coming system call: done, or failed after a number of
-- bytes. A property that does not restrict the list holds for every pattern of failures. What a crash
-- leaves of the bytes is not part of a File, so that Sync is a call that succeeds or fails. The order in
-- which Go walks a map is an argument of the functions that depend on it.
--
-- A function of the tree that returns an error or panics is a step: from a tree to a panic, or to a
-- tree and a result. The ancestors of a page are listed from the nearest on.
--
-- Loops are structural recursion on a number of rounds that the code fixes before the loop, or on the
-- list of ancestors. sort.Search gets as much fuel as the range is long: every round makes the range
-- shorter, so the fuel is enough. The descent and the walk along the leaf chain get fuel as an
-- argument, for a damaged file may send them in a circle; without fuel they count as a panic.
--
-- Not modelled: aliasing between a page that the pool returned and the cached page (callers hand
-- pages back by Put, which makes a difference only when a call fails in between); in the drivers the
-- times that they measure, the paths, and the texts of labels and wrapped errors; the command line in
-- cmd/indexlab, which reads flags and prints tables.
pub mod Prelude
pub mod Bytes
pub mod Bits
pub mod Page
pub mod Key
pub mod Search
pub mod Node
pub mod Experiment
pub mod Errors
pub mod Leaf
pub mod Storage
pub mod Pool
pub mod Tests
pub mod Store
pub mod Heap
pub mod Tree
pub mod Composite
pub mod Stats
pub mod Partial
