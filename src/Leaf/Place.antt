-- ===== src/Leaf/Place.antt =====
-- Where a key stands among the rows, and where `findKeyIndex` finds it among the encoded entries.
use Prim.Native.Nat.{Ordering}
use index_lab.Key.{IsInt64, encode_int64, compare_keys}
use index_lab.Key.Order.{compare_keys_refl, IsLess, compare_keys-encode_int64}
use index_lab.Key.RoundTrip.{length-encode_int64}
use index_lab.Leaf.Rows.{
  Row, encode_row, encode_rows, AreInt64, AllGe, Ascending, eq_ℤ, eq_ℤ→eq, lookup_row, insert_row,
  remove_row, rank, length-encode_rows,
}
use index_lab.Node.Entry.{Sized}
use index_lab.Node.Find.{key_at, IsSorted, IsPlace}
use index_lab.Prelude.{
  ℕ, zero, suc, ◌≤◌, ◌<◌, ◌≡◌, ◌≢◌, inl, inr, refl, sym, ap, ◌∙◌, Bool, true, false, none, some,
  List, [], ◌∷◌, length, length-append, get_or, take, drop, take-append, drop-append, insert_at,
  remove_at, arith, Bool-cases,
}
use index_lab.Prelude.Int.{ℤ, ltb_ℤ, compare_ℤ}
use mathlib.Core.Path.{ap₂}
use native.Mathlib.Decide.{dec_lt}

pub take-encode_row : (r : Row) → take 8 (encode_row r) ≡ encode_int64 r.0
take-encode_row (k, v) =
    ap (λ n. take n (encode_row (k, v))) (sym (length-encode_int64 k))
    ∙ take-append (encode_int64 k) (encode_int64 v)

pub drop-encode_row : (r : Row) → drop 8 (encode_row r) ≡ encode_int64 r.1
drop-encode_row (k, v) =
    ap (λ n. drop n (encode_row (k, v))) (sym (length-encode_int64 k))
    ∙ drop-append (encode_int64 k) (encode_int64 v)

pub length-encode_row : (r : Row) → length (encode_row r) ≡ 16
length-encode_row (k, v) = omega (
  arith,
  length-append (encode_int64 k) (encode_int64 v),
  length-encode_int64 k,
  length-encode_int64 v,
)

pub encode_rows-Sized : (rows : List Row) → Sized 8 (encode_rows rows)
encode_rows-Sized [] i h = absurd (omega arith)
encode_rows-Sized (r ∷ rows) zero h = length-encode_row r
encode_rows-Sized (r ∷ rows) (suc i) h = encode_rows-Sized rows i (omega arith)

-- A row below the bound of all keys of a list stands before every entry of it.
AllGe-at :
    (key : ℤ) (rows : List Row) (i : ℕ)
    → IsInt64 key
    → AreInt64 rows
    → AllGe key rows
    → i < length rows
    → compare_keys (encode_int64 key) (key_at 8 (encode_rows rows) i) ≢ Ordering.gt
AllGe-at key [] i hk hr g h = absurd (omega arith)
AllGe-at key ((k, v) ∷ rows) zero hk hr g h =
    rw (take-encode_row (k, v), compare_keys-encode_int64 key k hk hr.0) (λ e. ground arith)
AllGe-at key ((k, v) ∷ rows) (suc i) hk hr g h = AllGe-at key rows i hk hr.2 g.1 (omega arith)

-- Ascending rows are stored as sorted entries.
pub encode_rows-IsSorted :
    (rows : List Row) → AreInt64 rows → Ascending rows → IsSorted 8 (encode_rows rows)
encode_rows-IsSorted [] hr asc i j le h = absurd (omega arith)
encode_rows-IsSorted ((k, v) ∷ rows) hr asc zero zero le h =
    rw (take-encode_row (k, v), compare_keys-encode_int64 k k hr.0 hr.0) (λ e. ground arith)
encode_rows-IsSorted ((k, v) ∷ rows) hr asc zero (suc j) le h =
    rw (take-encode_row (k, v))
      (AllGe-at k rows j hr.0 hr.2 asc.0 (omega (arith, length-encode_rows rows)))
encode_rows-IsSorted ((k, v) ∷ rows) hr asc (suc i) zero le h = absurd (omega arith)
encode_rows-IsSorted ((k, v) ∷ rows) hr asc (suc i) (suc j) le h =
    encode_rows-IsSorted rows hr.2 asc.1 i j (omega arith) (omega arith)

-- The keys before the rank are smaller, and the key at the rank is not.
rank_below :
    (key : ℤ) (rows : List Row) (m : ℕ)
    → IsInt64 key
    → AreInt64 rows
    → m < rank key rows
    → IsLess (key_at 8 (encode_rows rows) m) (encode_int64 key)
unfolding rank
rank_below key [] m hk hr h = absurd (omega arith)
rank_below key ((k, v) ∷ rows) zero hk hr h = take_same (compare_keys-encode_int64 k key hr.0 hk)
  where
    take_same :
        compare_keys (encode_int64 k) (encode_int64 key) ≡ compare_ℤ k key
        → IsLess (take 8 (encode_row (k, v))) (encode_int64 key)
    take_same e = rw (take-encode_row (k, v)) (e ∙ ground arith)
rank_below key ((k, v) ∷ rows) (suc m) hk hr h = rank_below key rows m hk hr.2 (ground arith)

rank_step :
    (key k v : ℤ) (rows : List Row)
    → ltb_ℤ k key ≡ true
    → rank key ((k, v) ∷ rows) ≡ suc (rank key rows)
unfolding rank
rank_step key k v rows t = ground arith

rank_stop : (key k v : ℤ) (rows : List Row) → ltb_ℤ k key ≡ false → rank key ((k, v) ∷ rows) ≡ 0
unfolding rank
rank_stop key k v rows f = ground arith

rank_at :
    (key : ℤ) (rows : List Row)
    → IsInt64 key
    → AreInt64 rows
    → rank key rows < length rows
    → compare_keys (key_at 8 (encode_rows rows) (rank key rows)) (encode_int64 key) ≢ Ordering.lt
rank_at key [] hk hr h = absurd (omega arith)
rank_at key ((k, v) ∷ rows) hk hr h = elim (Bool-cases (ltb_ℤ k key)) [
  | inl t ↦
      let step = rank_step key k v rows t in
      rw step (rank_at key rows hk hr.2 (omega (arith, step)))
  | inr f ↦
      rw (rank_stop key k v rows f, take-encode_row (k, v), compare_keys-encode_int64 k key hr.0 hk)
        (λ e. ground arith)
]

rank-le : (key : ℤ) (rows : List Row) → rank key rows ≤ length rows
unfolding rank
rank-le key [] = omega arith
rank-le key ((k, v) ∷ rows) = ground (arith, rank-le key rows)

-- `findKeyIndex` finds the rank.
pub place-rank :
    (key : ℤ) (rows : List Row) (i : ℕ) (found : Bool)
    → IsInt64 key
    → AreInt64 rows
    → IsPlace 8 (encode_rows rows) (encode_int64 key) i found
    → i ≡ rank key rows
place-rank key rows i found hk hr p = elim (dec_lt i (rank key rows)) [
  | yes lo ↦ absurd (
      p.above i (omega arith) (omega (arith, rank-le key rows, length-encode_rows rows))
        (rank_below key rows i hk hr lo))
  | no a ↦ elim (dec_lt (rank key rows) i) [
    | yes hi ↦ absurd (
        rank_at key rows hk hr (omega (arith, p.bound, length-encode_rows rows))
          (p.below (rank key rows) hi))
    | no b ↦ omega arith
  ]
]

-- Inserting the encoded row at the rank inserts the row.
pub insert_at-rank :
    (key v : ℤ) (rows : List Row)
    → insert_at (rank key rows) (encode_row (key, v)) (encode_rows rows)
      ≡ encode_rows (insert_row key v rows)
unfolding insert_row
insert_at-rank key v [] = ap (λ i. insert_at i (encode_row (key, v)) []) rank_nil
  where
    rank_nil : rank key [] ≡ 0
    rank_nil = omega (arith, rank-le key [])
insert_at-rank key v ((k, w) ∷ rows) = elim (Bool-cases (ltb_ℤ k key)) [
  | inl t ↦
      rw (rank_step key k w rows t, t) (ap (◌∷◌ (encode_row (k, w))) (insert_at-rank key v rows))
  | inr f ↦ rw (rank_stop key k w rows f, f)
]

lookup_row_ge :
    (key k : ℤ) (rows : List Row) → ltb_ℤ key k ≡ true → AllGe k rows → lookup_row key rows ≡ none
unfolding lookup_row
lookup_row_ge key k [] h g = refl
lookup_row_ge key k ((j, v) ∷ rows) h g = ground (arith, lookup_row_ge key k rows h g.1)

-- A row that a scan finds stands at the rank, and is the one that is removed there.
pub lookup_row-some :
    (key v : ℤ) (rows : List Row)
    → Ascending rows
    → lookup_row key rows ≡ some v
    → (rank key rows < length rows)
      × (get_or (encode_rows rows) (rank key rows) [] ≡ encode_row (key, v))
      × (remove_at (rank key rows) (encode_rows rows) ≡ encode_rows (remove_row key rows))
unfolding lookup_row remove_row
lookup_row-some key v [] asc h = ground arith
lookup_row-some key v ((k, w) ∷ rows) asc h = elim (Bool-cases (eq_ℤ k key)) [
  | inl same ↦
      let stop = rank_stop key k w rows (ground arith) in
      let here : k ≡ key = eq_ℤ→eq k key same in
      let value : w ≡ v = ground arith in
      (omega (arith, stop), rw stop (ap₂ (λ a b. encode_row (a, b)) here value), rw (stop, same))
  | inr other ↦
      let later : lookup_row key rows ≡ some v = ground arith in
      elim (Bool-cases (ltb_ℤ k key)) [
        | inl t ↦
            let step = rank_step key k w rows t in
            let (inside, entry, removed) = lookup_row-some key v rows asc.1 later in
            (
              omega (arith, step),
              rw step entry,
              rw (step, other) (ap (◌∷◌ (encode_row (k, w))) removed),
            )
        | inr f ↦
            let above : ltb_ℤ key k ≡ true = ground arith in
            absurd (ground (arith, lookup_row_ge key k rows above asc.0))
      ]
]

-- A key that a scan does not find stands at no index.
pub lookup_row-none :
    (key : ℤ) (rows : List Row) (m : ℕ)
    → IsInt64 key
    → AreInt64 rows
    → lookup_row key rows ≡ none
    → m < length rows
    → key_at 8 (encode_rows rows) m ≢ encode_int64 key
unfolding lookup_row
lookup_row-none key [] m hk hr h b = absurd (omega arith)
lookup_row-none key ((k, v) ∷ rows) zero hk hr h b = λ e.
    let same : encode_int64 k ≡ encode_int64 key = sym (take-encode_row (k, v)) ∙ e in
    let equal : compare_ℤ k key ≡ Ordering.eq =
      sym (compare_keys-encode_int64 k key hr.0 hk)
      ∙ ap (λ a. compare_keys a (encode_int64 key)) same
      ∙ compare_keys_refl (encode_int64 key) in
    ground arith
lookup_row-none key ((k, v) ∷ rows) (suc m) hk hr h b =
    lookup_row-none key rows m hk hr.2 (ground arith) (omega arith)
