-- ===== src/Page/Header.antt =====
-- The header fields of a page: what each setter changes, and what the four constructors build.
use index_lab.Bytes.{write_bytes, be_bytes, be_decode, read_bytes, read_bytes_congr}
use index_lab.Page.{
  Page, PageId, page_size, num_entries, free_space_offset, get_field, set_field, page_type,
  next_leaf_page_id, prev_leaf_page_id, leftmost_child_page_id, root_page_id, set_next_leaf_page_id,
  set_prev_leaf_page_id, set_leftmost_child_page_id, set_root_page_id, set_page_type,
  set_free_space_offset, zeroed, new_leaf_page, new_heap_page, new_internal_page, new_metadata_page,
  leaf_page, heap_page, internal_page, metadata_page, PageType,
}
use index_lab.Page.Layout.{Layout, Holds, SameHeader, total}
use index_lab.Page.Slots.{
  put_int, int_at-put_int_self, int_at-put_int_apart, put_int_outside, slot_at, slot_at_congr,
}
use index_lab.Prelude.{
  ℕ, ◌-◌, ◌^◌, ◌≤◌, ◌<◌, ◌≡◌, ◌⊎◌, inl, inr, refl, sym, ap, ◌∙◌, List, [], get_or, arith,
}
use mathlib.Core.Path.{subst}

-- The layout rests on the two counters and on what stands behind the header.
pub Layout-congr :
    (p q : Page) (es : List (List ℕ))
    → ((b : ℕ) → (1 ≤ b) × (b < 5) ⊎ (21 ≤ b) → b < page_size → q.bytes b ≡ p.bytes b)
    → Layout p es
    → Layout q es
unfolding num_entries free_space_offset get_field
Layout-congr p q es same l = record {
  count =
      ap be_decode (
        read_bytes_congr q.bytes p.bytes 1 2
          (λ b i j. same b (omega arith) (omega (arith, l.fits))))
      ∙ l.count;
  free = omega (
    arith,
    ap be_decode (
        read_bytes_congr q.bytes p.bytes 3 2
          (λ b i j. same b (omega arith) (omega (arith, l.fits)))),
    l.free,
  );
  fits = l.fits;
  stored = λ i h.
      let held : Holds p.bytes (slot_at p.bytes i) (get_or es i []) (page_size - total es) =
        l.stored i h in
      subst (λ s. Holds q.bytes s (get_or es i []) (page_size - total es))
        (sym
          (slot_at_congr q.bytes p.bytes i (λ b j k. same b (omega arith) (omega (arith, l.fits)))))
        (record {
          above = held.above;
          inside = held.inside;
          size = held.size;
          content =
              read_bytes_congr q.bytes p.bytes _ _
                (λ b j k. same b (omega (arith, held.above, l.fits)) (omega (arith, held.inside)))
              ∙ held.content;
        });
}

-- Two pages with the same header have the same type and the same links.
pub SameHeader-links :
    (p q : Page)
    → SameHeader p q
    → (page_type q ≡ page_type p)
      × (next_leaf_page_id q ≡ next_leaf_page_id p)
      × (prev_leaf_page_id q ≡ prev_leaf_page_id p)
      × (leftmost_child_page_id q ≡ leftmost_child_page_id p)
unfolding page_type next_leaf_page_id prev_leaf_page_id leftmost_child_page_id get_field
SameHeader-links p q s = (
  s.page_type,
  ap be_decode
      (read_bytes_congr q.bytes p.bytes 13 8 (λ b i j. s.links b (omega arith) (omega arith))),
  ap be_decode
      (read_bytes_congr q.bytes p.bytes 5 8 (λ b i j. s.links b (omega arith) (omega arith))),
  ap be_decode
      (read_bytes_congr q.bytes p.bytes 5 8 (λ b i j. s.links b (omega arith) (omega arith))),
)

module _ (p : Page) (es : List (List ℕ)) (id : PageId) (l : Layout p es) (small : id < 2 ^ 64) where
  -- On a well-formed page, setting the right link to a 64-bit number is read back, and changes
  -- neither the left link, the type, the entries nor the page's ID.
  pub set_next_leaf_page_id-Layout :
      (next_leaf_page_id (set_next_leaf_page_id p id) ≡ id)
      × (prev_leaf_page_id (set_next_leaf_page_id p id) ≡ prev_leaf_page_id p)
      × (page_type (set_next_leaf_page_id p id) ≡ page_type p)
      × Layout (set_next_leaf_page_id p id) es
      × ((set_next_leaf_page_id p id).id ≡ p.id)
  unfolding next_leaf_page_id prev_leaf_page_id page_type set_next_leaf_page_id set_field get_field
  set_next_leaf_page_id-Layout = (
    int_at-put_int_self p.bytes 13 8 id small,
    int_at-put_int_apart p.bytes 13 8 id 5 8 (inl (omega arith)),
    put_int_outside p.bytes 13 8 id 0 (omega arith),
    Layout-congr p (record p { bytes = put_int p.bytes 13 8 id }) es
        (λ b h k. put_int_outside p.bytes 13 8 id b (omega arith)) l,
    refl,
  )

  -- Setting the left link is read back, and changes neither the right link, the type, the entries nor
  -- the page's ID.
  pub set_prev_leaf_page_id-Layout :
      (prev_leaf_page_id (set_prev_leaf_page_id p id) ≡ id)
      × (next_leaf_page_id (set_prev_leaf_page_id p id) ≡ next_leaf_page_id p)
      × (page_type (set_prev_leaf_page_id p id) ≡ page_type p)
      × Layout (set_prev_leaf_page_id p id) es
      × ((set_prev_leaf_page_id p id).id ≡ p.id)
  unfolding next_leaf_page_id prev_leaf_page_id page_type set_prev_leaf_page_id set_field get_field
  set_prev_leaf_page_id-Layout = (
    int_at-put_int_self p.bytes 5 8 id small,
    int_at-put_int_apart p.bytes 5 8 id 13 8 (inr (omega arith)),
    put_int_outside p.bytes 5 8 id 0 (omega arith),
    Layout-congr p (record p { bytes = put_int p.bytes 5 8 id }) es
        (λ b h k. put_int_outside p.bytes 5 8 id b (omega arith)) l,
    refl,
  )

  -- Setting the leftmost child is read back, and changes neither the type, the entries nor the
  -- page's ID.
  pub set_leftmost_child_page_id-Layout :
      (leftmost_child_page_id (set_leftmost_child_page_id p id) ≡ id)
      × (page_type (set_leftmost_child_page_id p id) ≡ page_type p)
      × Layout (set_leftmost_child_page_id p id) es
      × ((set_leftmost_child_page_id p id).id ≡ p.id)
  unfolding leftmost_child_page_id page_type set_leftmost_child_page_id set_field get_field
  set_leftmost_child_page_id-Layout = (
    int_at-put_int_self p.bytes 5 8 id small,
    put_int_outside p.bytes 5 8 id 0 (omega arith),
    Layout-congr p (record p { bytes = put_int p.bytes 5 8 id }) es
        (λ b h k. put_int_outside p.bytes 5 8 id b (omega arith)) l,
    refl,
  )

-- A fresh page of any type that has entries starts well formed and empty.
abbrev typed : PageId → PageType → Page
typed id t = set_free_space_offset (set_page_type (zeroed id) t) page_size

typed-Layout : (id : PageId) (t : PageType) → Layout (typed id t) []
unfolding num_entries free_space_offset set_free_space_offset set_page_type zeroed set_field
    get_field read_bytes write_bytes be_bytes be_decode
typed-Layout id t = record {
  count = refl;
  free = refl;
  fits = omega arith;
  stored = λ i h. absurd (omega arith);
}

-- A new leaf page is an empty, well-formed leaf with no neighbours.
pub new_leaf_page-Layout :
    (id : PageId)
    → Layout (new_leaf_page id) []
      × (page_type (new_leaf_page id) ≡ leaf_page)
      × (next_leaf_page_id (new_leaf_page id) ≡ 0)
      × (prev_leaf_page_id (new_leaf_page id) ≡ 0)
      × ((new_leaf_page id).id ≡ id)
unfolding new_leaf_page page_type next_leaf_page_id prev_leaf_page_id set_free_space_offset
    set_page_type zeroed set_field get_field read_bytes write_bytes be_bytes be_decode
new_leaf_page-Layout id = (typed-Layout id leaf_page, refl, refl, refl, refl)

-- A new heap page is an empty, well-formed page of its type.
pub new_heap_page-Layout :
    (id : PageId)
    → Layout (new_heap_page id) []
      × (page_type (new_heap_page id) ≡ heap_page)
      × ((new_heap_page id).id ≡ id)
unfolding new_heap_page page_type set_free_space_offset set_page_type zeroed set_field get_field
    write_bytes be_bytes
new_heap_page-Layout id = (typed-Layout id heap_page, refl, refl)

typed_type : (id : PageId) (t : PageType) → page_type (typed id t) ≡ t
unfolding page_type set_free_space_offset set_page_type zeroed set_field write_bytes be_bytes
typed_type id t = refl

typed_id : (id : PageId) (t : PageType) → (typed id t).id ≡ id
unfolding set_free_space_offset set_page_type zeroed set_field
typed_id id t = refl

-- A new internal page is well formed and empty, and has its type, the leftmost child that it was
-- given, a 64-bit number, and its ID.
pub new_internal_page-Layout :
    (id child : PageId)
    → child < 2 ^ 64
    → Layout (new_internal_page id child) []
      × (page_type (new_internal_page id child) ≡ internal_page)
      × (leftmost_child_page_id (new_internal_page id child) ≡ child)
      × ((new_internal_page id child).id ≡ id)
unfolding new_internal_page
new_internal_page-Layout id child small =
    (l, t ∙ typed_type id internal_page, c, i ∙ typed_id id internal_page)
  where
    open set_leftmost_child_page_id-Layout
        (typed id internal_page)
        []
        child
        (typed-Layout id internal_page)
        small use {«0» as c, «1» as t, «2» as l, «3» as i}

-- A new metadata page gives back the root ID that it was given, a 64-bit number, and has its type
-- and ID.
pub root_page_id-new_metadata_page :
    (id root : PageId)
    → root < 2 ^ 64
    → (root_page_id (new_metadata_page id root) ≡ root)
      × (page_type (new_metadata_page id root) ≡ metadata_page)
      × ((new_metadata_page id root).id ≡ id)
unfolding root_page_id new_metadata_page set_root_page_id set_field get_field page_type
    set_page_type zeroed write_bytes be_bytes
root_page_id-new_metadata_page id root small = (int_at-put_int_self _ 1 8 root small, refl, refl)
