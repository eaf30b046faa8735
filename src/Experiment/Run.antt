-- ===== src/Experiment/Run.antt =====
-- A run of a driver: it panics, returns an error, or returns a value. The state of the trees and heaps
-- is passed along, and lost with an error: the drivers then only close the files.
use index_lab.Errors.{Result, ok, err}
use index_lab.Page.{PageId}
use index_lab.Prelude.{
  ℕ, zero, suc, ◌+◌, ◌/◌, ◌%◌, Option, none, some, List, [], ◌∷◌, ◌++◌, ltb, if◌then◌else◌,
}
use index_lab.Prelude.Int.{ℤ}
use index_lab.Store
use index_lab.Tree.{Tree, Step}
use index_lab.Tree.Insert.{insert}

abbrev pub Run {ℓ} : Type ℓ → Type ℓ
Run A = Option (Result A)

abbrev pub return_ok {ℓ} : {A : Type ℓ} → A → Run A
return_ok a = some (ok a)

infixl 5 ◌>>=◌
abbrev pub ◌>>=◌ {ℓ κ} : {A : Type ℓ} {B : Type κ} → Run A → (A → Run B) → Run B
(m >>= f) = elim m [ none ↦ none | some r ↦ elim r [ err e ↦ some (err e) | ok a ↦ f a ] ]

infixl 5 ◌>>◌
abbrev pub ◌>>◌ {ℓ κ} : {A : Type ℓ} {B : Type κ} → Run A → Run B → Run B
m >> k = m >>= λ _. k

-- A call on a tree or a heap.
abbrev pub call {ℓ κ} : {S : Type ℓ} {A : Type κ} → Option (S × Result A) → Run (S × A)
call none = none
call (some (s, err e)) = some (err e)
call (some (s, ok a)) = some (ok (s, a))

-- `Sync` of a tree. The order in which Go walks the map of dirty pages is an argument.
unfoldable pub sync_tree : List PageId → Step (Unit {0})
sync_tree order t = let (s, r) = Store.sync t.store order in some (record t { store = s }, r)

-- `for _, key := range keys { tree.Insert(key, key) }`.
unfoldable pub insert_keys : ℕ → List ℤ → Tree → Run Tree
insert_keys fuel [] tree = return_ok tree
insert_keys fuel (key ∷ keys) tree = do
  (tree, _) ← call (insert fuel key key tree)
  insert_keys fuel keys tree

-- A value that the code computes, or panics on.
abbrev pub or_panic {ℓ} : {A : Type ℓ} → Option A → Run A
or_panic none = none
or_panic (some a) = some (ok a)

-- A call that returns no error.
abbrev pub call_total {ℓ κ} : {S : Type ℓ} {A : Type κ} → Option (S × A) → Run (S × A)
call_total m = or_panic m

-- The digits of a number, from the fuel `n + 1`, which its number of digits does not exceed. '0' is 48.
abbrev pub digits : ℕ → ℕ → List ℕ
digits zero n = []
digits (suc fuel) n =
    let front = digits fuel (n / 10) in
    if ltb n 10 then (48 + n) ∷ [] else front ++ ((48 + n % 10) ∷ [])

-- `fmt.Appendf(nil, "row-%d", i)`.
unfoldable pub row_text : ℕ → List ℕ
row_text i = 114 ∷ 111 ∷ 119 ∷ 45 ∷ digits (i + 1) i
