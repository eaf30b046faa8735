-- ===== src/Tests/Files.antt =====
-- An empty file whose calls all succeed, and one whose sync fails.
use index_lab.Errors.{ok}
use index_lab.Page.{Page, page_size}
use index_lab.Prelude.{◌%◌, ◌<◌, ◌≡◌, ℕ, refl, List, [], arith}
use index_lab.Storage.{Outcome, PageManager, read_page, write_page}
use index_lab.Storage.ReadWrite.{read_page-write_page}

abbrev opened : List Outcome → PageManager
opened outcomes = record {
  file = record { content = λ i. 0; size = 0; position = 0; outcomes = outcomes };
  next_page_id = 0;
  page_reads = 0;
  page_writes = 0;
  sync_calls = 0;
}

abbrev leaf : Page
leaf = record { id = 3; bytes = λ i. i % 7 }

read_page-write_page_example :
    ((write_page (opened []) leaf).1 ≡ ok tt)
    × (q : Page) × ((read_page (write_page (opened []) leaf).0 3).1 ≡ ok q)
    × (q.id ≡ 3)
    × ((i : ℕ) → i < page_size → q.bytes i ≡ i % 7)
read_page-write_page_example = read_page-write_page (opened []) leaf (omega arith) refl
