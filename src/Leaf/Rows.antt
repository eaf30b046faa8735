-- ===== src/Leaf/Rows.antt =====
-- What a leaf page stands for: its rows, pairs of a key and a record ID in ascending key order.
use Prim.Native.Nat.{Ordering}
use index_lab.Key.{IsInt64, encode_int64}
use index_lab.Prelude.{
  Bool-cases, inl, inr, ℕ, suc, ◌≡◌, refl, Bool, true, false, Option, none, some, List, [], ◌∷◌,
  ◌++◌, length, arith, if◌then◌else◌,
}
use index_lab.Prelude.Int.{ℤ, ◌≤ℤ◌, ltb_ℤ, compare_ℤ}

abbrev pub Row : Type 0
Row = ℤ × ℤ

abbrev pub encode_row : Row → List ℕ
encode_row (key, record_id) = encode_int64 key ++ encode_int64 record_id

abbrev pub encode_rows : List Row → List (List ℕ)
encode_rows [] = []
encode_rows (r ∷ rows) = encode_row r ∷ encode_rows rows

abbrev pub AreInt64 : List Row → Type 0
AreInt64 [] = Unit
AreInt64 ((key, record_id) ∷ rows) = IsInt64 key × IsInt64 record_id × AreInt64 rows

-- No key below `key`.
abbrev pub AllGe : ℤ → List Row → Type 0
AllGe key [] = Unit
AllGe key ((k, _) ∷ rows) = (key ≤ℤ k) × AllGe key rows

abbrev pub Ascending : List Row → Type 0
Ascending [] = Unit
Ascending ((key, _) ∷ rows) = AllGe key rows × Ascending rows

abbrev pub eq_ℤ : ℤ → ℤ → Bool
eq_ℤ a b = elim (compare_ℤ a b) [ Ordering.eq ↦ true | _ ↦ false ]

-- The record ID of the first row with the key, in a scan of all the rows.
unfoldable pub lookup_row : ℤ → List Row → Option ℤ
lookup_row key [] = none
lookup_row key ((k, v) ∷ rows) = if eq_ℤ k key then some v else lookup_row key rows

-- The rows with a new one before the first whose key is not smaller.
unfoldable pub insert_row : ℤ → ℤ → List Row → List Row
insert_row key v [] = (key, v) ∷ []
insert_row key v ((k, w) ∷ rows) =
    if ltb_ℤ k key then (k, w) ∷ insert_row key v rows else (key, v) ∷ (k, w) ∷ rows

-- The rows without the first one with the key.
unfoldable pub remove_row : ℤ → List Row → List Row
remove_row key [] = []
remove_row key ((k, v) ∷ rows) = if eq_ℤ k key then rows else (k, v) ∷ remove_row key rows

-- How many leading keys are smaller.
unfoldable pub rank : ℤ → List Row → ℕ
rank key [] = 0
rank key ((k, _) ∷ rows) = if ltb_ℤ k key then suc (rank key rows) else 0

pub eq_ℤ→eq : (a b : ℤ) → eq_ℤ a b ≡ true → a ≡ b
eq_ℤ→eq a b h = ground arith

pub eq_ℤ_refl : (a : ℤ) → eq_ℤ a a ≡ true
eq_ℤ_refl a = ground arith

pub length-encode_rows : (rows : List Row) → length (encode_rows rows) ≡ length rows
length-encode_rows [] = refl
length-encode_rows (r ∷ rows) = omega (arith, length-encode_rows rows)

AllGe-insert_row :
    (a key v : ℤ) (rows : List Row) → a ≤ℤ key → AllGe a rows → AllGe a (insert_row key v rows)
unfolding insert_row
AllGe-insert_row a key v [] h g = (h, tt)
AllGe-insert_row a key v ((k, w) ∷ rows) h g = ground (arith, AllGe-insert_row a key v rows h g.1)

AllGe-trans : (a b : ℤ) (rows : List Row) → a ≤ℤ b → AllGe b rows → AllGe a rows
AllGe-trans a b [] h g = tt
AllGe-trans a b ((k, w) ∷ rows) h g = (omega (arith, g.0), AllGe-trans a b rows h g.1)

AllGe-remove_row : (a key : ℤ) (rows : List Row) → AllGe a rows → AllGe a (remove_row key rows)
unfolding remove_row
AllGe-remove_row a key [] g = tt
AllGe-remove_row a key ((k, w) ∷ rows) g = ground (arith, AllGe-remove_row a key rows g.1)

pub insert_row-Ascending :
    (key v : ℤ) (rows : List Row) → Ascending rows → Ascending (insert_row key v rows)
unfolding insert_row
insert_row-Ascending key v [] h = (tt, tt)
insert_row-Ascending key v ((k, w) ∷ rows) h = elim (Bool-cases (ltb_ℤ k key)) [
  | inl t ↦
      let le : k ≤ℤ key = ground arith in
      rw t ((AllGe-insert_row k key v rows le h.0, insert_row-Ascending key v rows h.1))
  | inr f ↦ let le : key ≤ℤ k = ground arith in rw f (((le, AllGe-trans key k rows le h.0), h))
]

pub remove_row-Ascending :
    (key : ℤ) (rows : List Row) → Ascending rows → Ascending (remove_row key rows)
unfolding remove_row
remove_row-Ascending key [] h = tt
remove_row-Ascending key ((k, w) ∷ rows) h =
    ground (arith, AllGe-remove_row k key rows h.0, remove_row-Ascending key rows h.1)

pub insert_row-AreInt64 :
    (key v : ℤ) (rows : List Row)
    → IsInt64 key
    → IsInt64 v
    → AreInt64 rows
    → AreInt64 (insert_row key v rows)
unfolding insert_row
insert_row-AreInt64 key v [] hk hv h = (hk, hv, tt)
insert_row-AreInt64 key v ((k, w) ∷ rows) hk hv h =
    ground (arith, insert_row-AreInt64 key v rows hk hv h.2)

pub remove_row-AreInt64 :
    (key : ℤ) (rows : List Row) → AreInt64 rows → AreInt64 (remove_row key rows)
unfolding remove_row
remove_row-AreInt64 key [] h = tt
remove_row-AreInt64 key ((k, w) ∷ rows) h = ground (arith, remove_row-AreInt64 key rows h.2)
