-- ===== src/Node/Entry.antt =====
-- The two parts of an entry, a key and 8 bytes, as node.go reads them from a well-formed page.
use index_lab.Bytes.{read_bytes, take-read_bytes, uint64}
use index_lab.Node.{entry_prefix, suffix, key_part, entry_key_len, child_at}
use index_lab.Page.{Page, page_size}
use index_lab.Page.Layout.{Layout, Holds, total, get_entry-Layout}
use index_lab.Page.Slots.{slot_at, get_slot_lem, slice_lem}
use index_lab.Prelude.{
  ℕ, ◌+◌, ◌-◌, ◌<◌, ◌≡◌, refl, sym, ap, ◌∙◌, List, [], some, length, get_or, take, drop, arith,
}
use index_lab.Prelude.Int.{pos}

-- Every entry is a key of `w` bytes and 8 bytes more.
abbrev pub Sized : ℕ → List (List ℕ) → Type 0
Sized w es = (i : ℕ) → i < length es → length (get_or es i []) ≡ w + 8

pub key_part_lem : (w : ℕ) (e : List ℕ) → length e ≡ w + 8 → key_part e ≡ pos w
key_part_lem w e h = ground arith

module _ (p : Page) (es : List (List ℕ)) (w : ℕ) (l : Layout p es) (sized : Sized w es) where
  pub entry_key_len-Layout : 0 < length es → entry_key_len p ≡ some (pos w)
  unfolding entry_key_len
  entry_key_len-Layout h = ground (arith, l.count, get_entry-Layout p es 0 l h, sized 0 h)

  -- The bytes before index `n` of an entry, read through the page.
  pub entry_prefix-Layout :
      (i : ℕ) → i < length es → entry_prefix p i (pos w) ≡ some (take w (get_or es i []))
  unfolding entry_prefix
  entry_prefix-Layout i h =
      let s = slot_at p.bytes i in
      let e = get_or es i [] in
      let held : Holds p.bytes s e (page_size - total es) = l.stored i h in
      let size = sized i h in
      let first : read_bytes p.bytes s.offset w ≡ take w e =
        sym (take-read_bytes p.bytes s.offset w (length e) (omega (arith, size)))
        ∙ ap (take w) held.content in
      rw
        (
          get_entry-Layout p es i l h,
          get_slot_lem p i (omega (arith, l.fits)),
          slice_lem p s.offset (s.offset + w) s.offset w refl refl
              (omega (arith, held.inside, size)),
        )
        (ap some first)

  pub child_at-Layout :
      (i : ℕ) → i < length es → child_at p (pos w) i ≡ uint64 (drop w (get_or es i []))
  unfolding child_at suffix
  child_at-Layout i h = ground (arith, get_entry-Layout p es i l h, sized i h)
