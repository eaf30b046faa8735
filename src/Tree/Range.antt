-- ===== src/Tree/Range.antt =====
-- `Scan` on one leaf: the rows from an index on, up to the end key.
use index_lab.Key.{encode_int64, decode_int64}
use index_lab.Key.RoundTrip.{decode-encode_int64}
use index_lab.Leaf.Correct.{IsLeaf}
use index_lab.Leaf.Place.{take-encode_row, drop-encode_row, length-encode_row, encode_rows-Sized}
use index_lab.Leaf.Rows.{Row, encode_row, encode_rows, AreInt64, length-encode_rows}
use index_lab.Key.{IsInt64}
use index_lab.Node.{entry_prefix, suffix}
use index_lab.Node.Entry.{Sized, entry_prefix-Layout}
use index_lab.Page.{Page}
use index_lab.Page.Layout.{Layout}
use index_lab.Page.Suffix.{Suffix, Suffix-head, Suffix-tail, Suffix-drop}
use index_lab.Prelude.{
  ℕ, zero, suc, ◌+◌, ◌≤◌, ◌≡◌, refl, sym, ap, ◌∙◌, Bool, true, false, some, List, [], ◌∷◌, length,
  drop, take, get_or, arith,
}
use index_lab.Prelude.Int.{ℤ, pos, ltb_ℤ}
use index_lab.Tree.Rows.{ScanResult, decode_key, decode_record_id, scan_page}
use mathlib.Core.List.{append-nil}
use mathlib.Core.Path.{subst}

-- The rows before the first key beyond the end, and whether there is one.
unfoldable pub rows_up_to : ℤ → List Row → List ScanResult × Bool
rows_up_to end_key [] = ([], false)
rows_up_to end_key ((k, v) ∷ rows) = elim (ltb_ℤ end_key k) [
  | true ↦ ([], true)
  | false ↦
      let (rest, done) = rows_up_to end_key rows in (record { key = k; record_id = v } ∷ rest, done)
]

decode_int64_whole : (v : ℤ) → IsInt64 v → decode_int64 (encode_int64 v) ≡ some v
decode_int64_whole v h =
    ap decode_int64 (sym (append-nil (encode_int64 v))) ∙ decode-encode_int64 v [] h

-- The row at an index of the page.
module _ (p : Page) (es : List (List ℕ)) (l : Layout p es) (sized : Sized 8 es) where
  decode-encode_row :
      (i : ℕ) (k v : ℤ) (xs : List (List ℕ))
      → IsInt64 k
      → IsInt64 v
      → Suffix es i (encode_row (k, v) ∷ xs)
      → (decode_key p i ≡ some k) × (decode_record_id p i ≡ some v)
  unfolding decode_key decode_record_id suffix
  decode-encode_row i k v xs hk hv s =
      let entry = Suffix-head p es l i (encode_row (k, v)) xs s in
      let same : get_or es i [] ≡ encode_row (k, v) =
        ap (λ t. get_or es t []) (omega arith) ∙ s.1 0 (omega arith) in
      let key_bytes : entry_prefix p i (pos 8) ≡ some (encode_int64 k) =
        entry_prefix-Layout p es 8 l sized i (omega (arith, s.0))
        ∙ ap some (ap (take 8) same ∙ take-encode_row (k, v)) in
      let value = ap decode_int64 (drop-encode_row (k, v)) ∙ decode_int64_whole v hv in
      (
        ground (arith, key_bytes, decode_int64_whole k hk),
        ground (arith, entry, length-encode_row (k, v), value),
      )

  scan_page-Suffix :
      (rows : List Row) (i : ℕ) (end_key : ℤ)
      → AreInt64 rows
      → Suffix es i (encode_rows rows)
      → scan_page (length rows) p i end_key ≡ some (rows_up_to end_key rows)
  unfolding scan_page rows_up_to
  scan_page-Suffix [] i end_key h s = refl
  scan_page-Suffix ((k, v) ∷ rows) i end_key h s =
      let rest =
        scan_page-Suffix rows (i + 1) end_key h.2
          (Suffix-tail es i (encode_row (k, v)) (encode_rows rows) s) in
      let (key, value) = decode-encode_row i k v (encode_rows rows) h.0 h.1 s in
      ground (arith, key, value, rest)

drop-encode_rows : (i : ℕ) (rows : List Row) → drop i (encode_rows rows) ≡ encode_rows (drop i rows)
drop-encode_rows zero rows = refl
drop-encode_rows (suc i) [] = refl
drop-encode_rows (suc i) (r ∷ rows) = drop-encode_rows i rows

drop-AreInt64 : (i : ℕ) (rows : List Row) → AreInt64 rows → AreInt64 (drop i rows)
drop-AreInt64 zero rows h = h
drop-AreInt64 (suc i) [] h = h
drop-AreInt64 (suc i) ((k, v) ∷ rows) h = drop-AreInt64 i rows h.2

-- The inner loop of `Scan`, over all the entries of a leaf in order from index `i` on, does not
-- panic, and takes the rows from `i` on up to the first whose key is beyond the end.
pub scan_page-rows_up_to :
    (p : Page) (rows : List Row) (i : ℕ) (end_key : ℤ)
    → IsLeaf p rows
    → i ≤ length rows
    → scan_page (length (drop i rows)) p i end_key ≡ some (rows_up_to end_key (drop i rows))
scan_page-rows_up_to p rows i end_key l h =
    let whole = Suffix-drop i (encode_rows rows) (omega (arith, length-encode_rows rows)) in
    scan_page-Suffix p (encode_rows rows) l.stored (encode_rows-Sized rows) (drop i rows) i end_key
      (drop-AreInt64 i rows l.int64)
      (subst (Suffix (encode_rows rows) i) (drop-encode_rows i rows) whole)
