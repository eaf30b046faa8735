-- ===== src/Storage.antt =====
-- The page manager of internal/storage/file.go, over an open file.
pub mod ReadWrite
pub mod Failure
use index_lab.Errors.{Result, ok, err, io}
use index_lab.Page.{Page, PageId, page_size, new_leaf_page}
use index_lab.Prelude.{
  ℕ, ◌+◌, ◌-◌, ◌*◌, ◌/◌, ◌%◌, ◌^◌, ◌<◌, Bool, true, false, List, [], ◌∷◌, ◌&&◌, ◌||◌, ◌==◌, not,
  min, leb, ltb, if◌then◌else◌,
}

-- How a system call ends. A write that fails may have written some bytes.
pub data Outcome : Type 0 where
  done : Outcome
  failed : ℕ → Outcome

-- An `os.File`: its bytes, its length, the position of the next read or write, and how the coming
-- calls end. What a crash leaves of the bytes is not part of it. A call past the end of that list succeeds.
pub record File : Type 0 where
  pub content : ℕ → ℕ
  pub size : ℕ
  pub position : ℕ
  pub outcomes : List Outcome

abbrev pub first_outcome : List Outcome → Outcome
first_outcome [] = done
first_outcome (o ∷ os) = o

abbrev pub later_outcomes : List Outcome → List Outcome
later_outcomes [] = []
later_outcomes (o ∷ os) = os

abbrev pub outcome : File → Outcome
outcome f = first_outcome f.outcomes

abbrev pub after_call : File → File
after_call f = record f { outcomes = later_outcomes f.outcomes }

-- `Seek(offset, io.SeekStart)` of an `int64` in two's complement: a negative offset is refused.
unfoldable pub seek : File → ℕ → File × Result (Unit {0})
seek f offset =
    if ltb offset (2 ^ 63)
    then elim (outcome f) [
      | done ↦ (record (after_call f) { position = offset }, ok tt)
      | failed _ ↦ (after_call f, err io)
    ]
    else (f, err io)

-- `io.ReadFull` into a buffer of one page: an error when the file ends before the buffer is full.
unfoldable pub read_full : File → File × Result (ℕ → ℕ)
read_full f = elim (outcome f) [
  | failed _ ↦ (after_call f, err io)
  | done ↦
      if leb (f.position + page_size) f.size
      then (
        record (after_call f) { position = f.position + page_size },
        ok (λ i. if ltb i page_size then f.content (f.position + i) else 0),
      )
      else (after_call f, err io)
]

-- The file with the first `n` bytes of a page written at its position. What lies between the old
-- end of the file and the position reads as zero.
abbrev pub written : File → (ℕ → ℕ) → ℕ → File
written f bytes n = record (after_call f) {
  content = λ i.
      if leb f.position i && ltb i (f.position + n)
      then bytes (i - f.position)
      else (if ltb i f.size then f.content i else 0);
  size = if n == 0 || leb (f.position + n) f.size then f.size else f.position + n;
  position = f.position + n;
}

unfoldable pub write : File → (ℕ → ℕ) → File × Result (Unit {0})
write f bytes = elim (outcome f) [
  | done ↦ (written f bytes page_size, ok tt)
  | failed n ↦ (written f bytes (min n page_size), err io)
]

-- `File.Sync`.
unfoldable pub fsync : File → File × Result (Unit {0})
fsync f = elim (outcome f) [ done ↦ (after_call f, ok tt) | failed _ ↦ (after_call f, err io) ]

-- `File.Close`.
unfoldable pub close_file : File → File × Result (Unit {0})
close_file f = elim (outcome f) [ done ↦ (after_call f, ok tt) | failed _ ↦ (after_call f, err io) ]

pub record PageManager : Type 0 where
  pub file : File
  pub next_page_id : PageId
  pub page_reads : ℕ
  pub page_writes : ℕ
  pub sync_calls : ℕ

abbrev pub word64 : ℕ → ℕ
word64 n = n % 2 ^ 64

-- `Open`, from the file that `os.OpenFile` gives. Opening and `Stat` are two calls that may fail.
unfoldable pub open_file : File → Result PageManager
open_file f = elim (outcome f) [
  | failed _ ↦ err io
  | done ↦ elim (outcome (after_call f)) [
    | failed _ ↦ err io
    | done ↦ ok (record {
      file = after_call (after_call f);
      next_page_id = f.size / page_size;
      page_reads = 0;
      page_writes = 0;
      sync_calls = 0;
    })
  ]
]

unfoldable pub close : PageManager → PageManager × Result (Unit {0})
close pm = let (f, r) = close_file pm.file in (record pm { file = f }, r)

unfoldable pub allocate_page_id : PageManager → PageManager × PageId
allocate_page_id pm = (record pm { next_page_id = word64 (pm.next_page_id + 1) }, pm.next_page_id)

unfoldable pub allocate_page : PageManager → PageManager × Page
allocate_page pm = let (pm', id) = allocate_page_id pm in (pm', new_leaf_page id)

-- `int64(id) * page.PageSize`, as its 64 bits.
abbrev pub page_offset : PageId → ℕ
page_offset id = word64 (id * page_size)

unfoldable pub read_page : PageManager → PageId → PageManager × Result Page
unfolding seek read_full
read_page pm id =
    let pm' : PageManager = record pm { page_reads = word64 (pm.page_reads + 1) } in
    let (f, sought) = seek pm.file (page_offset id) in
    elim sought [
      | err e ↦ (record pm' { file = f }, err e)
      | ok _ ↦
          let (g, got) = read_full f in
          elim got [
            | err e ↦ (record pm' { file = g }, err e)
            | ok bytes ↦ (record pm' { file = g }, ok (record { id = id; bytes = bytes }))
          ]
    ]

unfoldable pub write_page : PageManager → Page → PageManager × Result (Unit {0})
unfolding seek write
write_page pm p =
    let pm' : PageManager = record pm { page_writes = word64 (pm.page_writes + 1) } in
    let (f, sought) = seek pm.file (page_offset p.id) in
    elim sought [
      | err e ↦ (record pm' { file = f }, err e)
      | ok _ ↦ let (g, r) = write f p.bytes in (record pm' { file = g }, r)
    ]

unfoldable pub sync : PageManager → PageManager × Result (Unit {0})
sync pm =
    let pm' : PageManager = record pm { sync_calls = word64 (pm.sync_calls + 1) } in
    let (f, r) = fsync pm.file in (record pm' { file = f }, r)

unfoldable pub reset_stats : PageManager → PageManager
reset_stats pm = record pm { page_reads = 0; page_writes = 0; sync_calls = 0 }

unfoldable pub page_count : PageManager → PageId
page_count pm = pm.next_page_id

unfoldable pub set_next_page_id : PageManager → PageId → PageManager
set_next_page_id pm id = record pm { next_page_id = id }
