-- ===== src/Page/Layout.antt =====
-- The well-formed pages of page.go, and the sequence of entries that such a page stands for.
use index_lab.Bytes.{read_bytes}
use index_lab.Page.{
  Page, Slot, page_size, num_entries, free_space_offset, get_entry, has_space_for, word16,
}
use index_lab.Page.Slots.{slot_at, get_slot_lem, slice_lem}
use index_lab.Prelude.{
  ℕ, zero, suc, ◌+◌, ◌-◌, ◌*◌, ◌≤◌, ◌<◌, ◌≡◌, ◌∙◌, refl, ap, List, [], ◌∷◌, ◌++◌, some, length,
  get_or, insert_at, arith, leb,
}

-- The bytes that a list of entries takes.
abbrev pub total : List (List ℕ) → ℕ
total [] = 0
total (e ∷ es) = length e + total es

pub total-insert_at :
    (i : ℕ) (e : List ℕ) (es : List (List ℕ)) → total (insert_at i e es) ≡ length e + total es
total-insert_at zero e es = refl
total-insert_at (suc i) e [] = refl
total-insert_at (suc i) e (x ∷ es) = omega (arith, total-insert_at i e es)

pub total-append : (xs ys : List (List ℕ)) → total (xs ++ ys) ≡ total xs + total ys
total-append [] ys = omega arith
total-append (x ∷ xs) ys = omega (arith, total-append xs ys)

-- Slot `s` points at the bytes of `e`, above `free`.
pub record Holds (d : ℕ → ℕ) (s : Slot) (e : List ℕ) (free : ℕ) : Type 0 where
  pub above : free ≤ s.offset
  pub inside : s.offset + length e ≤ page_size
  pub size : s.length ≡ length e
  pub content : read_bytes d s.offset (length e) ≡ e

-- Page `p` is well formed and stores the entries `es`, in slot order. The entry bytes fill the page
-- from the free-space offset to its end, and the slot array ends below that offset.
pub record Layout (p : Page) (es : List (List ℕ)) : Type 0 where
  pub count : num_entries p ≡ length es
  pub free : free_space_offset p + total es ≡ page_size
  pub fits : 21 + length es * 4 + total es ≤ page_size
  pub stored :
      (i : ℕ)
      → i < length es
      → Holds p.bytes (slot_at p.bytes i) (get_or es i []) (page_size - total es)

-- The header outside the two counters, and the page's ID: what insertions and deletions leave alone.
pub record SameHeader (p q : Page) : Type 0 where
  pub id : q.id ≡ p.id
  pub page_type : q.bytes 0 ≡ p.bytes 0
  pub links : (b : ℕ) → 5 ≤ b → b < 21 → q.bytes b ≡ p.bytes b

pub SameHeader-refl : (p : Page) → SameHeader p p
SameHeader-refl p = record { id = refl; page_type = refl; links = λ b h k. refl }

pub SameHeader-trans : {p q r : Page} → SameHeader p q → SameHeader q r → SameHeader p r
SameHeader-trans a b = record {
  id = b.id ∙ a.id;
  page_type = b.page_type ∙ a.page_type;
  links = λ i h k. b.links i h k ∙ a.links i h k;
}

-- On a well-formed page, `GetEntry` of an index below the number of entries does not panic and
-- returns the entry.
pub get_entry-Layout :
    (p : Page) (es : List (List ℕ)) (i : ℕ)
    → Layout p es
    → i < length es
    → get_entry p i ≡ some (get_or es i [])
unfolding get_entry
get_entry-Layout p es i l h =
    let s = slot_at p.bytes i in
    let e = get_or es i [] in
    let held : Holds p.bytes s e (page_size - total es) = l.stored i h in
    let hi = word16 (s.offset + s.length) in
    rw
      (
        get_slot_lem p i (omega arith),
        slice_lem p s.offset hi s.offset (length e) refl (omega (arith, held.inside, held.size))
            held.inside,
      )
      (ap some held.content)

-- On a well-formed page, `HasSpaceFor` says exactly whether the entry and its slot fit between the
-- slot array and the entry bytes.
pub has_space_for-Layout :
    (p : Page) (es : List (List ℕ)) (n : ℕ)
    → Layout p es
    → has_space_for p n ≡ leb (25 + length es * 4 + total es + n) page_size
unfolding has_space_for
has_space_for-Layout p es n l = ground (arith, l.count, l.free, l.fits)
