-- ===== src/Pool.antt =====
-- The LRU page cache of internal/buffer/pool.go.
pub mod Lru
pub mod View
pub mod Failure
pub mod Evict
pub mod Access
pub mod Put
use index_lab.Errors.{Error, Result, ok, err}
use index_lab.Page.{Page, PageId}
use index_lab.Prelude.{
  ℕ, ◌+◌, Bool, true, false, Option, none, some, List, [], ◌∷◌, length, ltb, ◌==◌, if◌then◌else◌,
}
use index_lab.Prelude.Int.{ℤ, pos, negsuc}
use index_lab.Storage
use index_lab.Storage.{PageManager, word64, read_page, write_page}

pub record Entry : Type 0 where
  pub page_id : PageId
  pub page : Page
  pub dirty : Bool

-- `items` holds the keys of the map, each of which leads to the entry of that ID in `lru`. The front
-- of `lru` is the most recently used entry.
pub record Pool : Type 0 where
  pub pm : PageManager
  pub capacity : ℕ
  pub items : List PageId
  pub lru : List Entry
  pub hits : ℕ
  pub misses : ℕ
  pub evictions : ℕ
  pub dirty_flushes : ℕ

unfoldable pub mem_id : PageId → List PageId → Bool
mem_id id [] = false
mem_id id (k ∷ ids) = if k == id then true else mem_id id ids

-- `delete(p.items, id)`.
unfoldable pub delete_id : PageId → List PageId → List PageId
delete_id id [] = []
delete_id id (k ∷ ids) = if k == id then ids else k ∷ delete_id id ids

-- The entry with the ID in the list, and the list without it.
unfoldable pub find_entry : PageId → List Entry → Option Entry
find_entry id [] = none
find_entry id (e ∷ es) = if e.page_id == id then some e else find_entry id es

unfoldable pub remove_entry : PageId → List Entry → List Entry
remove_entry id [] = []
remove_entry id (e ∷ es) = if e.page_id == id then es else e ∷ remove_entry id es

-- The list with a new `dirty` flag on the entry with the ID.
unfoldable pub set_dirty : PageId → Bool → List Entry → List Entry
set_dirty id flag [] = []
set_dirty id flag (e ∷ es) =
    if e.page_id == id then record e { dirty = flag } ∷ es else e ∷ set_dirty id flag es

-- `lru.Back()`, and the list without it.
unfoldable pub back : List Entry → Option Entry
back [] = none
back (e ∷ []) = some e
back (e ∷ f ∷ es) = back (f ∷ es)

unfoldable pub remove_back : List Entry → List Entry
remove_back [] = []
remove_back (e ∷ []) = []
remove_back (e ∷ f ∷ es) = e ∷ remove_back (f ∷ es)

-- `p.items[id]`.
unfoldable pub lookup : Pool → PageId → Option Entry
lookup p id = if mem_id id p.items then find_entry id p.lru else none

-- The capacity is an `int`, and is raised to 1.
unfoldable pub new_pool : PageManager → ℤ → Pool
new_pool pm capacity = record {
  pm = pm;
  capacity = elim capacity [ pos n ↦ (if ltb n 1 then 1 else n) | negsuc n ↦ 1 ];
  items = [];
  lru = [];
  hits = 0;
  misses = 0;
  evictions = 0;
  dirty_flushes = 0;
}

-- The end of `evictIfFull`: the entry is taken out of the list and of the map.
unfoldable pub drop_victim : Pool → Entry → Pool
drop_victim p victim = record p {
  items = delete_id victim.page_id p.items;
  lru = remove_back p.lru;
  evictions = word64 (p.evictions + 1);
}

unfoldable pub evict_if_full : Pool → Pool × Result (Unit {0})
evict_if_full p =
    if ltb (length p.items) p.capacity
    then (p, ok tt)
    else (if length p.items == 0 then (p, ok tt) else elim (back p.lru) [
      | none ↦ (p, ok tt)
      | some victim ↦ elim victim.dirty [
        | false ↦ (drop_victim p victim, ok tt)
        | true ↦
            let (pm', wrote) = write_page p.pm victim.page in
            let p' : Pool = record p { pm = pm' } in
            elim wrote [
              | err e ↦ (p', err e)
              | ok _ ↦ (
                drop_victim (record p' { dirty_flushes = word64 (p.dirty_flushes + 1) }) victim,
                ok tt,
              )
            ]
      ]
    ])

-- `p.items[id] = p.lru.PushFront(e)`, for an ID that the map does not hold.
unfoldable pub push_front : Pool → PageId → Entry → Pool
push_front p id e = record p { items = id ∷ p.items; lru = e ∷ p.lru }

unfoldable pub get_page : Pool → PageId → Pool × Result Page
get_page p id = elim (lookup p id) [
  | some e ↦ (record p { lru = e ∷ remove_entry id p.lru; hits = word64 (p.hits + 1) }, ok e.page)
  | none ↦
      let (pm', got) = read_page p.pm id in
      let p' : Pool = record p { pm = pm'; misses = word64 (p.misses + 1) } in
      elim got [
        | err e ↦ (p', err e)
        | ok pg ↦
            let (q, evicted) = evict_if_full p' in
            elim evicted [
              | err e ↦ (q, err e)
              | ok _ ↦ (push_front q id (record { page_id = id; page = pg; dirty = false }), ok pg)
            ]
      ]
]

unfoldable pub put : Pool → PageId → Page → Pool × Result (Unit {0})
put p id pg = elim (lookup p id) [
  | some e ↦
      (record p { lru = record e { page = pg; dirty = true } ∷ remove_entry id p.lru }, ok tt)
  | none ↦
      let (q, evicted) = evict_if_full p in
      elim evicted [
        | err e ↦ (q, err e)
        | ok _ ↦ (push_front q id (record { page_id = id; page = pg; dirty = true }), ok tt)
      ]
]

unfoldable pub mark_dirty : Pool → PageId → Pool
mark_dirty p id = elim (lookup p id) [
  | none ↦ p
  | some e ↦ record p { lru = set_dirty id true p.lru }
]

unfoldable pub flush_page : Pool → PageId → Pool × Result (Unit {0})
flush_page p id = elim (lookup p id) [
  | none ↦ (p, ok tt)
  | some e ↦ elim e.dirty [
    | false ↦ (p, ok tt)
    | true ↦
        let (pm', wrote) = write_page p.pm e.page in
        elim wrote [
          | err x ↦ (record p { pm = pm' }, err x)
          | ok _ ↦ (
            record p {
              pm = pm';
              dirty_flushes = word64 (p.dirty_flushes + 1);
              lru = set_dirty id false p.lru;
            },
            ok tt,
          )
        ]
  ]
]

-- `for id := range p.items`: Go leaves the order open, so it is an argument.
unfoldable pub flush_dirty : Pool → List PageId → Pool × Result (Unit {0})
flush_dirty p [] = (p, ok tt)
flush_dirty p (id ∷ order) =
    let (q, flushed) = flush_page p id in
    elim flushed [ err e ↦ (q, err e) | ok _ ↦ flush_dirty q order ]

unfoldable pub sync : Pool → List PageId → Pool × Result (Unit {0})
sync p order =
    let (q, flushed) = flush_dirty p order in
    elim flushed [
      | err e ↦ (q, err e)
      | ok _ ↦ let (pm', r) = Storage.sync q.pm in (record q { pm = pm' }, r)
    ]

-- After a failed flush the file is closed too, and the error of the flush is returned.
unfoldable pub close : Pool → List PageId → Pool × Result (Unit {0})
close p order =
    let (q, flushed) = flush_dirty p order in
    let (pm', closed) = Storage.close q.pm in
    (record q { pm = pm' }, elim flushed [ err e ↦ err e | ok _ ↦ closed ])

unfoldable pub reset_stats : Pool → Pool
reset_stats p = record p { hits = 0; misses = 0; evictions = 0; dirty_flushes = 0 }
