-- ===== src/Store.antt =====
-- Where a heap or a tree keeps its pages: the page manager, or a buffer pool in front of it. This is
-- `readPage`, `writePage`, `Sync` and `Close` of internal/heap/heap.go, and the same of
-- internal/btree/btree.go.
pub mod View
pub mod Failure
use index_lab.Errors.{Result}
use index_lab.Page.{Page, PageId}
use index_lab.Pool
use index_lab.Pool.{Pool, new_pool, get_page, put}
use index_lab.Prelude.Int.{ℤ}
use index_lab.Prelude.{Option, none, some, ℕ, List}
use index_lab.Storage
use index_lab.Storage.{PageManager, allocate_page_id, read_page, write_page}

pub data Store : Type 0 where
  direct : PageManager → Store
  pooled : Pool → Store

-- The page manager, which the pool shares.
abbrev pub manager : Store → PageManager
manager (direct pm) = pm
manager (pooled p) = p.pm

abbrev pub with_manager : Store → PageManager → Store
with_manager (direct pm) pm' = direct pm'
with_manager (pooled p) pm' = pooled (record p { pm = pm' })

-- `WithBufferPool` gives the capacity of the pool, where there is one.
abbrev pub new_store : PageManager → Option ℤ → Store
new_store pm none = direct pm
new_store pm (some capacity) = pooled (new_pool pm capacity)

unfoldable pub read : Store → PageId → Store × Result Page
read (direct pm) id = let (pm', r) = read_page pm id in (direct pm', r)
read (pooled p) id = let (p', r) = get_page p id in (pooled p', r)

unfoldable pub write : Store → Page → Store × Result (Unit {0})
write (direct pm) pg = let (pm', r) = write_page pm pg in (direct pm', r)
write (pooled p) pg = let (p', r) = put p pg.id pg in (pooled p', r)

-- The order is the one in which Go walks the pool's map.
unfoldable pub sync : Store → List PageId → Store × Result (Unit {0})
sync (direct pm) order = let (pm', r) = Storage.sync pm in (direct pm', r)
sync (pooled p) order = let (p', r) = Pool.sync p order in (pooled p', r)

unfoldable pub close : Store → List PageId → Store × Result (Unit {0})
close (direct pm) order = let (pm', r) = Storage.close pm in (direct pm', r)
close (pooled p) order = let (p', r) = Pool.close p order in (pooled p', r)

-- `pm.AllocatePageID()`.
unfoldable pub allocate : Store → Store × PageId
allocate s = let (pm', id) = allocate_page_id (manager s) in (with_manager s pm', id)
