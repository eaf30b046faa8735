-- ===== src/Pool/Failure.antt =====
-- A call of the pool errs only if a coming call of the file fails.
use index_lab.Errors.{Error, err}
use index_lab.Page.{Page, PageId}
use index_lab.Pool.{Pool, find_entry, back, drop_victim, evict_if_full, push_front, get_page, put}
use index_lab.Pool.Access.{result_cases}
use index_lab.Pool.Evict.{evict_none, evict_clean, evict_dirty}
use index_lab.Pool.Lru.{back-some, remove_back-remove_entry, find_entry_sound}
use index_lab.Pool.View.{IsPool, byte_at, lookup-find_entry}
use index_lab.Prelude.{
  ℕ, ◌+◌, ◌≤◌, ◌≡◌, inl, inr, sym, ◌∙◌, some, length, arith, Bool-cases, Option-cases,
}
use index_lab.Storage.{word64, read_page, write_page}
use index_lab.Storage.Failure.{
  Failing, read_page-Failing, write_page-Failing, read_page_err, write_page_err,
}
use index_lab.Storage.ReadWrite.{IsAddressable, disk_byte-read_page}
use mathlib.Core.Path.{subst}
use native.Mathlib.Decide.{dec_lt}

-- An eviction writes one page at most.
pub evict_if_full-Failing : (p : Pool) → Failing (evict_if_full p).0.pm → Failing p.pm
unfolding evict_if_full drop_victim
evict_if_full-Failing p h = elim (Option-cases (back p.lru)) [
  | inl empty ↦ ground (arith, empty)
  | inr (victim, last) ↦ ground (arith, last, write_page-Failing p.pm victim.page)
]

module _ (p : Pool) (v : IsPool p) where
  pub evict_if_full_err : (x : Error) → (evict_if_full p).1 ≡ err x → Failing p.pm
  evict_if_full_err x e = elim (dec_lt (length p.lru) p.capacity) [
    | yes h ↦ absurd (ground (arith, evict_none p v h, e))
    | no full ↦ elim (Option-cases (back p.lru)) [
      | inl empty ↦ absurd (omega (arith, back-some p.lru empty, v.positive))
      | inr (victim, last) ↦
          let full' : p.capacity ≤ length p.lru = omega arith in
          let (found, _) = remove_back-remove_entry p.lru victim v.entries last in
          let (same, own, place) = find_entry_sound victim.page_id p.lru victim v.entries found in
          elim (Bool-cases victim.dirty) [
            | inr f ↦ absurd (ground (arith, evict_clean p v full' victim last f, e))
            | inl t ↦ elim (result_cases (write_page p.pm victim.page).1) [
              | inl (tt, w) ↦ absurd (ground (arith, evict_dirty p v full' victim last t w, e))
              | inr (y, w) ↦
                  write_page_err p.pm victim.page y (subst IsAddressable (sym own) place) w
            ]
          ]
    ]
  ]

missed : Pool → PageId → Pool
missed p id = record p { pm = (read_page p.pm id).0; misses = word64 (p.misses + 1) }

pub get_page-Failing : (p : Pool) (id : PageId) → Failing (get_page p id).0.pm → Failing p.pm
unfolding get_page push_front missed
get_page-Failing p id h =
    ground (arith, read_page-Failing p.pm id, evict_if_full-Failing (missed p id))

pub put-Failing : (p : Pool) (id : PageId) (pg : Page) → Failing (put p id pg).0.pm → Failing p.pm
unfolding put push_front
put-Failing p id pg h = ground (arith, evict_if_full-Failing p)

module _ (p : Pool) (id : PageId) (v : IsPool p) (place : IsAddressable id) where
  missed-IsPool : IsPool (missed p id)
  unfolding missed
  missed-IsPool = record {
    positive = v.positive;
    bound = v.bound;
    sizes = v.sizes;
    distinct = v.distinct;
    keys = v.keys;
    entries = v.entries;
    clean = λ k x h d i b. disk_byte-read_page p.pm id k i ∙ v.clean k x h d i b;
  }

  pub get_page_err :
      (b : ℕ) (x : Error) → byte_at p id 0 ≡ some b → (get_page p id).1 ≡ err x → Failing p.pm
  unfolding get_page byte_at missed
  get_page_err b x there e = elim (Option-cases (find_entry id p.lru)) [
    | inr (hit, found) ↦ absurd (ground (arith, lookup-find_entry p id v, found))
    | inl absent ↦ elim (result_cases (read_page p.pm id).1) [
      | inr (y, h) ↦ read_page_err p.pm id b y place (ground (arith, absent)) h
      | inl (pg, h) ↦ elim (result_cases (evict_if_full (missed p id)).1) [
        | inr (y, k) ↦ read_page-Failing p.pm id (evict_if_full_err (missed p id) missed-IsPool y k)
        | inl (tt, k) ↦ absurd (ground (arith, lookup-find_entry p id v, absent, h, k))
      ]
    ]
  ]

  pub put_err : (pg : Page) (x : Error) → (put p id pg).1 ≡ err x → Failing p.pm
  unfolding put
  put_err pg x e = elim (Option-cases (find_entry id p.lru)) [
    | inr (hit, found) ↦ absurd (ground (arith, lookup-find_entry p id v, found))
    | inl absent ↦ elim (result_cases (evict_if_full p).1) [
      | inr (y, k) ↦ evict_if_full_err p v y k
      | inl (tt, k) ↦ absurd (ground (arith, lookup-find_entry p id v, absent, k))
    ]
  ]
