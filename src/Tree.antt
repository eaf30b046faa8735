-- ===== src/Tree.antt =====
-- The multi-page tree of internal/btree/btree.go: its state, the calls that it makes on its store,
-- and the descent to a leaf.
pub mod Insert
pub mod Delete
pub mod Rows
pub mod Scan
pub mod Range
pub mod Shape
pub mod Context
pub mod Focus
pub mod Path
pub mod Descent
pub mod Ordered
pub mod Change
pub mod SplitRows
pub mod SplitLeaf
pub mod SplitInsert
pub mod NewRoot
pub mod Grow
pub mod Refuse
use index_lab.Errors.{Error, Result, ok, err}
use index_lab.Key.{encode_int64}
use index_lab.Leaf
use index_lab.Node.{find_child_page_id}
use index_lab.Page.{
  Page, PageId, page_type, internal_page, new_leaf_page, new_metadata_page, root_page_id,
}
use index_lab.Prelude.{ℕ, zero, suc, Bool, true, false, Option, none, some, List, [], ◌∷◌, ◌==◌}
use index_lab.Prelude.Int.{ℤ, pos}
use index_lab.Storage.{File, page_count, set_next_page_id, open_file}
use index_lab.Store
use index_lab.Store.{Store, new_store, manager, with_manager, allocate}

pub record Tree : Type 0 where
  pub store : Store
  pub root_id : PageId
  pub entry_size : ℕ
  pub unique : Bool
  pub page_splits : ℕ
  pub page_merges : ℕ

-- Code that changes the tree, may panic, and may return an error.
abbrev pub Step {ℓ} : Type ℓ → Type ℓ
Step A = Tree → Option (Tree × Result A)

abbrev pub pure {ℓ} : {A : Type ℓ} → A → Step A
pure a t = some (t, ok a)

abbrev pub fail {ℓ} : {A : Type ℓ} → Error → Step A
fail e t = some (t, err e)

infixl 5 ◌>>=◌
abbrev pub ◌>>=◌ {ℓ κ} : {A : Type ℓ} {B : Type κ} → Step A → (A → Step B) → Step B
(m >>= f) t = elim (m t) [
  | none ↦ none
  | some (t', r) ↦ elim r [ err e ↦ some (t', err e) | ok a ↦ f a t' ]
]

infixl 5 ◌>>◌
abbrev pub ◌>>◌ {ℓ κ} : {A : Type ℓ} {B : Type κ} → Step A → Step B → Step B
m >> k = m >>= λ _. k

-- Code on pages that may panic.
abbrev pub lift {ℓ} : {A : Type ℓ} → Option A → Step A
lift none t = none
lift (some a) t = some (t, ok a)

abbrev pub lift_result {ℓ} : {A : Type ℓ} → Result A → Step A
lift_result r t = some (t, r)

unfoldable pub read_page : PageId → Step Page
read_page id t = let (s, r) = Store.read t.store id in some (record t { store = s }, r)

unfoldable pub write_page : Page → Step (Unit {0})
write_page pg t = let (s, r) = Store.write t.store pg in some (record t { store = s }, r)

-- `t.pm.AllocatePage()`.
unfoldable pub allocate_page : Step Page
allocate_page t =
    let (s, id) = allocate t.store in some (record t { store = s }, ok (new_leaf_page id))

unfoldable pub set_root_id : PageId → Step (Unit {0})
set_root_id id t = some (record t { root_id = id }, ok tt)

-- `openWith`, from a store that is open: the root ID that it finds or makes.
unfoldable pub open_root : Step PageId
open_root t = elim (page_count (manager t.store) == 0) [
  | true ↦
      (do
        first_leaf ← allocate_page
        write_page (new_metadata_page 0 first_leaf.id)
        write_page first_leaf
        pure first_leaf.id)
        (record t { store = with_manager t.store (set_next_page_id (manager t.store) 1) })
  | false ↦ (do meta ← read_page 0; pure (root_page_id meta)) t
]

-- `openWith`, from the file that `os.OpenFile` gives and the capacity of the pool, where there is one.
-- `Open` and `OpenUnique` are this with an entry size of 16.
unfoldable pub open_tree : File → Option ℤ → ℕ → Bool → Option (Result Tree)
open_tree f capacity entry_size unique = elim (open_file f) [
  | err e ↦ some (err e)
  | ok pm ↦
      let opened =
        (do id ← open_root; set_root_id id)
          (record {
            store = new_store pm capacity;
            root_id = 0;
            entry_size = entry_size;
            unique = unique;
            page_splits = 0;
            page_merges = 0;
          }) in
      elim opened [ none ↦ none | some (t, r) ↦ some (elim r [ err e ↦ err e | ok _ ↦ ok t ]) ]
]

-- The loop of `findLeafWithPath` from a page on. A damaged file may send it in a circle, so it has
-- fuel. The nearest ancestor comes first here, and last in the code.
unfoldable pub descend : ℕ → Page → List ℕ → List PageId → Step (Page × List PageId)
descend zero p key ancestors = lift none
descend (suc fuel) p key ancestors = elim (page_type p == internal_page) [
  | false ↦ pure (p, ancestors)
  | true ↦ do
    child_id ← lift (find_child_page_id p key)
    child ← read_page child_id
    descend fuel child key (p.id ∷ ancestors)
]

unfoldable pub find_leaf_with_path : ℕ → List ℕ → Step (Page × List PageId)
find_leaf_with_path fuel key t = (do root ← read_page t.root_id; descend fuel root key []) t

-- An error of the descent is answered like a key that is not there.
unfoldable pub search : ℕ → ℤ → Tree → Option (Tree × (ℤ × Bool))
search fuel key t = elim (find_leaf_with_path fuel (encode_int64 key) t) [
  | none ↦ none
  | some (t', r) ↦ elim r [
    | err e ↦ some (t', (pos 0, false))
    | ok (leaf, _) ↦ elim (Leaf.search leaf key) [ none ↦ none | some found ↦ some (t', found) ]
  ]
]
