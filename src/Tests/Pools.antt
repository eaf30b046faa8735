-- ===== src/Tests/Pools.antt =====
-- A pool that holds one page, over an empty file.
use index_lab.Errors.{Result, ok, err}
use index_lab.Page.{Page}
use index_lab.Pool.{Pool, new_pool, get_page, put, evict_if_full}
use index_lab.Pool.Access.{Got, get_page-Got}
use index_lab.Pool.Evict.{IsRoomier, evict_if_full-IsRoomier}
use index_lab.Pool.Put.{IsStored, put-IsStored}
use index_lab.Pool.View.{IsPool, new_pool-IsPool}
use index_lab.Prelude.{◌%◌, refl, [], arith}
use index_lab.Prelude.Int.{pos}
use index_lab.Storage.{PageManager}

abbrev opened : PageManager
opened = record {
  file = record { content = λ i. 0; size = 0; position = 0; outcomes = [] };
  next_page_id = 0;
  page_reads = 0;
  page_writes = 0;
  sync_calls = 0;
}

abbrev leaf : Page
leaf = record { id = 3; bytes = λ i. i % 7 }

abbrev heap : Page
heap = record { id = 0; bytes = λ i. 5 }

abbrev empty : Pool
empty = new_pool opened (pos 1)

empty-IsPool : IsPool empty
empty-IsPool = new_pool-IsPool opened (pos 1)

IsStored-IsPool :
    (p : Pool) (pg : Page) (q : Pool) (r : Result (Unit {0})) → IsStored p pg.id pg q r → IsPool q
IsStored-IsPool p pg q (ok _) s = s.0
IsStored-IsPool p pg q (err x) s = s.0

-- Page 3 is cached and dirty, and the pool is full.
abbrev one_page : Pool
one_page = (put empty 3 leaf).0

one_page-IsPool : IsPool one_page
one_page-IsPool =
    IsStored-IsPool empty leaf one_page (put empty 3 leaf).1
      (put-IsStored empty 3 leaf empty-IsPool (omega arith) refl)

put-IsStored_example : IsStored one_page 0 heap (put one_page 0 heap).0 (put one_page 0 heap).1
put-IsStored_example = put-IsStored one_page 0 heap one_page-IsPool (omega arith) refl

evict_if_full-IsRoomier_example :
    IsRoomier one_page (evict_if_full one_page).0 (evict_if_full one_page).1
evict_if_full-IsRoomier_example = evict_if_full-IsRoomier one_page one_page-IsPool

get_page-Got_example : Got one_page 3 (get_page one_page 3)
get_page-Got_example = get_page-Got one_page 3 one_page-IsPool (omega arith)
