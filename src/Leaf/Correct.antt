-- ===== src/Leaf/Correct.antt =====
-- `Insert`, `Search` and `Delete` of tree.go refine the operations on sorted rows.
use index_lab.Errors.{ok, err, page_full, key_not_found}
use index_lab.Key.{IsInt64, encode_int64, decode_int64}
use index_lab.Key.RoundTrip.{decode-encode_int64}
use index_lab.Leaf.{insert, search, delete}
use index_lab.Leaf.Place.{
  encode_rows-Sized, encode_rows-IsSorted, place-rank, insert_at-rank, lookup_row-some,
  lookup_row-none, length-encode_row, take-encode_row, drop-encode_row,
}
use index_lab.Leaf.Rows.{
  Row, eq_ℤ, encode_row, encode_rows, AreInt64, Ascending, lookup_row, insert_row, remove_row, rank,
  length-encode_rows, insert_row-Ascending, remove_row-Ascending, insert_row-AreInt64,
  remove_row-AreInt64,
}
use index_lab.Node.{find_key_index, suffix}
use index_lab.Node.Find.{IsPlace, find_key_index-IsPlace}
use index_lab.Page.{Page, page_size, has_space_for, get_entry}
use index_lab.Page.Delete.{delete_entry-Layout}
use index_lab.Page.Insert.{insert_entry-Layout}
use index_lab.Page.Layout.{Layout, SameHeader, total, has_space_for-Layout, get_entry-Layout}
use index_lab.Prelude.{
  ℕ, suc, ◌+◌, ◌*◌, ◌≤◌, ◌<◌, ◌≡◌, ◌≢◌, ◌⊎◌, inl, inr, refl, sym, ap, ◌∙◌, Bool, true, false,
  Option, none, some, List, [], ◌∷◌, ◌++◌, length, get_or, drop, insert_at, remove_at, arith, leb,
  Bool-cases, Option-cases,
}
use index_lab.Prelude.Int.{ℤ, pos}
use mathlib.Core.List.{append-nil}
use mathlib.Core.Path.{subst}

-- A well-formed page that holds the rows, in ascending key order.
pub record IsLeaf (p : Page) (rows : List Row) : Type 0 where
  pub stored : Layout p (encode_rows rows)
  pub int64 : AreInt64 rows
  pub ascending : Ascending rows

pub total-encode_rows : (rows : List Row) → total (encode_rows rows) ≡ length rows * 16
total-encode_rows [] = refl
total-encode_rows (r ∷ rows) = omega (arith, length-encode_row r, total-encode_rows rows)

suffix-encode_row : (key v : ℤ) → suffix (encode_row (key, v)) (pos 8) ≡ some (encode_int64 v)
unfolding suffix
suffix-encode_row key v = ground (arith, length-encode_row (key, v), drop-encode_row (key, v))

decode_value : (v : ℤ) → IsInt64 v → decode_int64 (encode_int64 v) ≡ some v
decode_value v h = ap decode_int64 (sym (append-nil (encode_int64 v))) ∙ decode-encode_int64 v [] h

lookup_row-IsInt64 :
    (key v : ℤ) (rows : List Row) → AreInt64 rows → lookup_row key rows ≡ some v → IsInt64 v
unfolding lookup_row
lookup_row-IsInt64 key v [] hr h = ground arith
lookup_row-IsInt64 key v ((k, w) ∷ rows) hr h = elim (Bool-cases (eq_ℤ k key)) [
  | inl same ↦ let value : w ≡ v = ground arith in subst IsInt64 value hr.1
  | inr other ↦ lookup_row-IsInt64 key v rows hr.2 (ground arith)
]

-- What `Search` answers for a row that is or is not there.
abbrev pub answer : Option ℤ → ℤ × Bool
answer none = (pos 0, false)
answer (some v) = (v, true)

module _ (p : Page) (rows : List Row) (key : ℤ) (l : IsLeaf p rows) (hk : IsInt64 key) where
  -- The search finds the rank, and finds the key exactly if a scan does.
  find_rank :
      (found : Bool) × (find_key_index p (encode_int64 key) ≡ some (rank key rows, found))
      × IsPlace 8 (encode_rows rows) (encode_int64 key) (rank key rows) found
  find_rank =
      let (i, found, run, place) =
        find_key_index-IsPlace p (encode_rows rows) 8 (encode_int64 key) l.stored
          (encode_rows-Sized rows) (encode_rows-IsSorted rows l.int64 l.ascending) in
      let same = place-rank key rows i found hk l.int64 place in
      (
        found,
        run ∙ ap (λ t. some (t, found)) same,
        subst (λ t. IsPlace 8 (encode_rows rows) (encode_int64 key) t found) same place,
      )

  pub find_none :
      lookup_row key rows ≡ none → find_key_index p (encode_int64 key) ≡ some (rank key rows, false)
  find_none h =
      let (found, run, place) = find_rank in
      elim (Bool-cases found) [
        | inr f ↦ run ∙ ap (λ b. some (rank key rows, b)) f
        | inl t ↦ absurd (
            lookup_row-none key rows (rank key rows) hk l.int64 h
              (omega (arith, place.hit t, length-encode_rows rows)) (place.hit t).1)
      ]

  pub find_some :
      (v : ℤ)
      → lookup_row key rows ≡ some v
      → find_key_index p (encode_int64 key) ≡ some (rank key rows, true)
  find_some v h =
      let (found, run, place) = find_rank in
      let (inside, entry, _) = lookup_row-some key v rows l.ascending h in
      elim (Bool-cases found) [
        | inl t ↦ run ∙ ap (λ b. some (rank key rows, b)) t
        | inr f ↦ absurd (
            place.miss f (rank key rows) (omega (arith, inside, length-encode_rows rows))
              (ap (index_lab.Prelude.take 8) entry ∙ take-encode_row (key, v)))
      ]

  -- On a leaf in order and an int64 key, `Search` returns what a scan of its rows finds, and does
  -- not panic.
  pub search-lookup_row : search p key ≡ some (answer (lookup_row key rows))
  unfolding search
  search-lookup_row = elim (Option-cases (lookup_row key rows)) [
    | inl miss ↦ rw (find_none miss, miss)
    | inr (v, hit) ↦
        let (inside, entry, _) = lookup_row-some key v rows l.ascending hit in
        let got : get_entry p (rank key rows) ≡ some (encode_row (key, v)) =
          get_entry-Layout p (encode_rows rows) (rank key rows) l.stored
            (omega (arith, inside, length-encode_rows rows))
          ∙ ap some entry in
        rw (
          find_some v hit,
          hit,
          got,
          suffix-encode_row key v,
          decode_value v (lookup_row-IsInt64 key v rows l.int64 hit),
        )
  ]

  -- `Delete` of an int64 key that no row of a leaf in order has reports that the key was not found.
  pub delete-key_not_found : lookup_row key rows ≡ none → delete p key ≡ some (err key_not_found)
  unfolding delete
  delete-key_not_found miss = rw (find_none miss)

  module _ (v : ℤ) (hit : lookup_row key rows ≡ some v) where
    -- `Delete` of an int64 key that a row of a leaf in order has does not panic and returns the
    -- page with the first such row removed and no other: again a leaf in order, with the ID, the
    -- type and the links of before.
    pub delete-IsLeaf :
        (q : Page) × (delete p key ≡ some (ok q)) × IsLeaf q (remove_row key rows) × SameHeader p q
    unfolding delete
    delete-IsLeaf =
        let (inside, entry, removed) = lookup_row-some key v rows l.ascending hit in
        let (q, run, stored, same, _) =
          delete_entry-Layout p (encode_rows rows) l.stored (rank key rows) in
        (
          q,
          rw (find_some v hit, run),
          record {
            stored = subst (Layout q) removed stored;
            int64 = remove_row-AreInt64 key rows l.int64;
            ascending = remove_row-Ascending key rows l.ascending;
          },
          same,
        )

  module _ (v : ℤ) (hv : IsInt64 v) where
    has_space_for-encode_row :
        has_space_for p (length (encode_row (key, v))) ≡ leb (41 + length rows * 20) page_size
    has_space_for-encode_row =
        has_space_for-Layout p (encode_rows rows) (length (encode_row (key, v))) l.stored
        ∙ ap (λ t. leb t page_size)
            (omega
              (arith, length-encode_rows rows, total-encode_rows rows, length-encode_row (key, v)))

    -- `Insert` of an int64 key and record ID into a leaf in order with fewer than 203 rows does not
    -- panic and puts the row in its place: the result is a leaf in order, with the ID, the type and
    -- the links of before.
    pub insert-IsLeaf :
        length rows < 203
        → (q : Page) × (insert p key v ≡ some (ok q))
          × IsLeaf q (insert_row key v rows)
          × SameHeader p q
    unfolding insert
    insert-IsLeaf room =
        let (found, run, place) = find_rank in
        let count = length-encode_rows rows in
        let bytes = total-encode_rows rows in
        let size = length-encode_row (key, v) in
        let (q, done, stored, same) =
          insert_entry-Layout p (encode_rows rows) (rank key rows) (encode_row (key, v)) l.stored
            (omega (arith, place.bound)) (omega (arith, count, bytes, size)) in
        let yes_room : has_space_for p (length (encode_row (key, v))) ≡ true =
          has_space_for-encode_row ∙ ground arith in
        (
          q,
          rw (run, yes_room, done),
          record {
            stored = subst (Layout q) (insert_at-rank key v rows) stored;
            int64 = insert_row-AreInt64 key v rows hk hv l.int64;
            ascending = insert_row-Ascending key v rows l.ascending;
          },
          same,
        )

    -- `Insert` into a leaf in order with 203 rows or more reports a full page.
    pub insert-page_full : 203 ≤ length rows → insert p key v ≡ some (err page_full)
    unfolding insert
    insert-page_full full =
        let (found, run, place) = find_rank in
        let no_room : has_space_for p (length (encode_row (key, v))) ≡ false =
          has_space_for-encode_row ∙ ground arith in
        rw (run, no_room)
