-- ===== src/Tree/Shape.antt =====
-- The shape of a B+ tree of any height in a store, and the rows that it holds from left to right.
use index_lab.Bytes.{be_decode, read_bytes_congr}
use index_lab.Heap.Get.{some_injective}
use index_lab.Leaf.Correct.{IsLeaf}
use index_lab.Leaf.Rows.{Row, encode_rows}
use index_lab.Node.Child.{Branch, encode_branches, AreBranches, AscendingBranches}
use index_lab.Page.{
  Page, PageId, page_size, page_type, leaf_page, internal_page, leftmost_child_page_id, get_field,
}
use index_lab.Page.Header.{Layout-congr}
use index_lab.Page.Layout.{Layout}
use index_lab.Prelude.{
  ℕ, zero, suc, ◌<◌, ◌≡◌, sym, ap, ◌∙◌, Bool, true, false, Option, some, List, [], ◌∷◌, ◌++◌, arith,
  ◌==◌,
}
use index_lab.Prelude.Int.{ℤ}
use index_lab.Storage.ReadWrite.{IsAddressable}
use index_lab.Store.{Store}
use index_lab.Store.View.{Shows, byte}
use index_lab.Tree.Context.{InRange, AllIn, AllIn-append}
use mathlib.Core.Path.{subst}

IsLeaf-congr :
    (p q : Page) (rows : List Row)
    → ((i : ℕ) → i < page_size → q.bytes i ≡ p.bytes i)
    → IsLeaf p rows
    → IsLeaf q rows
IsLeaf-congr p q rows same l = record {
  stored = Layout-congr p q (encode_rows rows) (λ b h k. same b k) l.stored;
  int64 = l.int64;
  ascending = l.ascending;
}

pub page_type-congr : (p q : Page) → q.bytes 0 ≡ p.bytes 0 → page_type q ≡ page_type p
unfolding page_type
page_type-congr p q e = e

abbrev pub PageSet : Type 0
PageSet = PageId → Bool

abbrev pub Within : PageSet → PageSet → Type 0
Within a b = (id : PageId) → a id ≡ true → b id ≡ true

abbrev pub Apart : PageSet → PageSet → Type 0
Apart a b = (id : PageId) → a id ≡ true → b id ≡ false

-- The store shows the page under the ID.
pub record IsShown (s : Store) (id : PageId) (p : Page) : Type 0 where
  pub own : p.id ≡ id
  pub place : IsAddressable id
  pub shown : Shows s p

-- A leaf whose keys are in the range.
pub record IsLeafNode (p : Page) (lo hi : Option ℤ) (rows : List Row) : Type 0 where
  pub kind : page_type p ≡ leaf_page
  pub stored : IsLeaf p rows
  pub range : AllIn lo hi rows

pub record IsInternalNode (p : Page) (branches : List Branch) : Type 0 where
  pub kind : (page_type p == internal_page) ≡ true
  pub stored : Layout p (encode_branches branches)
  pub encoded : AreBranches branches
  pub ascending : AscendingBranches branches

-- A row of subtrees with a separator between one and the next. Keys left of a separator are smaller,
-- and those right of it are not. No two subtrees share a page.
abbrev pub IsForest :
    (PageId → Option ℤ → Option ℤ → List Row → PageSet → Type 0)
    → PageId
    → Option ℤ
    → Option ℤ
    → List Branch
    → List Row
    → PageSet
    → Type 0
IsForest Sub c lo hi [] rows ids = Sub c lo hi rows ids
IsForest Sub c lo hi ((k, d) ∷ branches) rows ids =
    (left : List Row) × (right : List Row) × (left_ids : PageSet) × (right_ids : PageSet) × (rows
      ≡ left ++ right)
    × InRange lo hi k
    × Sub c lo (some k) left left_ids
    × IsForest Sub d (some k) hi branches right right_ids
    × Within left_ids ids
    × Within right_ids ids
    × Apart left_ids right_ids

-- The tree of `n` levels of internal pages under page `c`: its keys lie in the range, and its pages
-- in the set.
abbrev pub IsTree : Store → ℕ → PageId → Option ℤ → Option ℤ → List Row → PageSet → Type 0
IsTree s zero c lo hi rows ids =
    (p : Page) × IsShown s c p × IsLeafNode p lo hi rows × (ids c ≡ true)
IsTree s (suc n) c lo hi rows ids =
    (p : Page) × (branches : List Branch) × (below : PageSet) × IsShown s c p
    × IsInternalNode p branches
    × (ids c ≡ true)
    × (below c ≡ false)
    × Within below ids
    × IsForest (IsTree s n) (leftmost_child_page_id p) lo hi branches rows below

-- The pages of the set read the same later.
abbrev pub KeepsIn : PageSet → Store → Store → Type 0
KeepsIn ids s t =
    (id : PageId) (i b : ℕ)
    → ids id ≡ true
    → IsAddressable id
    → i < page_size
    → byte s id i ≡ some b
    → byte t id i ≡ some b

pub IsShown-keep :
    (s t : Store) (ids : PageSet) (c : PageId) (p : Page)
    → KeepsIn ids s t
    → ids c ≡ true
    → IsShown s c p
    → IsShown t c p
IsShown-keep s t ids c p keeps own v = record {
  own = v.own;
  place = v.place;
  shown = λ i h.
      keeps p.id i (p.bytes i) (ap ids v.own ∙ own) (subst IsAddressable (sym v.own) v.place) h
        (v.shown i h);
}

pub IsForest-map :
    (Sub Sup : PageId → Option ℤ → Option ℤ → List Row → PageSet → Type 0) (all : PageSet)
    → ((c : PageId) (lo hi : Option ℤ) (rows : List Row) (ids : PageSet)
        → Within ids all
        → Sub c lo hi rows ids
        → Sup c lo hi rows ids)
    → (c : PageId) (lo hi : Option ℤ) (branches : List Branch) (rows : List Row) (ids : PageSet)
    → Within ids all
    → IsForest Sub c lo hi branches rows ids
    → IsForest Sup c lo hi branches rows ids
IsForest-map Sub Sup all f c lo hi [] rows ids w v = f c lo hi rows ids w v
IsForest-map Sub Sup all f c lo hi ((k, d) ∷ branches) rows ids w
      (left, right, left_ids, right_ids, e, range, first, rest, wl, wr, apart) =
    (
      left,
      right,
      left_ids,
      right_ids,
      e,
      range,
      f c lo (some k) left left_ids (λ id h. w id (wl id h)) first,
      IsForest-map Sub Sup all f d (some k) hi branches right right_ids (λ id h. w id (wr id h))
          rest,
      wl,
      wr,
      apart,
    )

-- A tree stays when its pages read the same.
pub IsTree-keep :
    (n : ℕ) (s t : Store) (all : PageSet)
    → KeepsIn all s t
    → (c : PageId) (lo hi : Option ℤ) (rows : List Row) (ids : PageSet) → Within ids all
    → IsTree s n c lo hi rows ids
    → IsTree t n c lo hi rows ids
IsTree-keep zero s t all keeps c lo hi rows ids w (p, shown, node, own) =
    (p, IsShown-keep s t all c p keeps (w c own) shown, node, own)
IsTree-keep (suc n) s t all keeps c lo hi rows ids w
      (p, branches, below, shown, node, own, out, wb, forest) =
    (
      p,
      branches,
      below,
      IsShown-keep s t all c p keeps (w c own) shown,
      node,
      own,
      out,
      wb,
      IsForest-map (IsTree s n) (IsTree t n) all (IsTree-keep n s t all keeps)
          (leftmost_child_page_id p) lo hi branches rows below (λ id h. w id (wb id h)) forest,
    )

pub IsForest-AllIn :
    (Sub : PageId → Option ℤ → Option ℤ → List Row → PageSet → Type 0)
    → ((c : PageId) (lo hi : Option ℤ) (rows : List Row) (ids : PageSet)
        → Sub c lo hi rows ids
        → AllIn lo hi rows)
    → (c : PageId) (lo hi : Option ℤ) (branches : List Branch) (rows : List Row) (ids : PageSet)
    → IsForest Sub c lo hi branches rows ids
    → AllIn lo hi rows
IsForest-AllIn Sub f c lo hi [] rows ids v = f c lo hi rows ids v
IsForest-AllIn Sub f c lo hi ((k, d) ∷ branches) rows ids
      (left, right, left_ids, right_ids, e, range, first, rest, wl, wr, apart) =
    subst (AllIn lo hi) (sym e) (
      AllIn-append lo hi k left right range (f c lo (some k) left left_ids first)
        (IsForest-AllIn Sub f d (some k) hi branches right right_ids rest))

-- The rows of a tree lie in its range.
pub IsTree-AllIn :
    (s : Store) (n : ℕ) (c : PageId) (lo hi : Option ℤ) (rows : List Row) (ids : PageSet)
    → IsTree s n c lo hi rows ids
    → AllIn lo hi rows
IsTree-AllIn s zero c lo hi rows ids (p, shown, node, own) = node.range
IsTree-AllIn s (suc n) c lo hi rows ids (p, branches, below, shown, node, own, out, wb, forest) =
    IsForest-AllIn (IsTree s n) (IsTree-AllIn s n) (leftmost_child_page_id p) lo hi branches rows
      below forest

-- Two pages that the store shows under one ID have the same bytes.
pub same_bytes :
    (s : Store) (c : PageId) (p q : Page)
    → IsShown s c p
    → q.id ≡ c
    → Shows s q
    → (i : ℕ) → i < page_size
    → q.bytes i ≡ p.bytes i
same_bytes s c p q v own now i h =
    some_injective (sym (now i h) ∙ ap (λ t. byte s t i) (own ∙ sym v.own) ∙ v.shown i h)

pub IsLeafNode-congr :
    (p q : Page) (lo hi : Option ℤ) (rows : List Row)
    → ((i : ℕ) → i < page_size → q.bytes i ≡ p.bytes i)
    → IsLeafNode p lo hi rows
    → IsLeafNode q lo hi rows
IsLeafNode-congr p q lo hi rows same v = record {
  kind = page_type-congr p q (same 0 (omega arith)) ∙ v.kind;
  stored = IsLeaf-congr p q rows same v.stored;
  range = v.range;
}

pub IsInternalNode-congr :
    (p q : Page) (branches : List Branch)
    → ((i : ℕ) → i < page_size → q.bytes i ≡ p.bytes i)
    → IsInternalNode p branches
    → IsInternalNode q branches
IsInternalNode-congr p q branches same v = record {
  kind = ap (λ k. k == internal_page) (page_type-congr p q (same 0 (omega arith))) ∙ v.kind;
  stored = Layout-congr p q (encode_branches branches) (λ b h k. same b k) v.stored;
  encoded = v.encoded;
  ascending = v.ascending;
}

pub leftmost-congr :
    (p q : Page)
    → ((i : ℕ) → i < page_size → q.bytes i ≡ p.bytes i)
    → leftmost_child_page_id q ≡ leftmost_child_page_id p
unfolding leftmost_child_page_id get_field
leftmost-congr p q same =
    ap be_decode (read_bytes_congr q.bytes p.bytes 5 8 (λ b i j. same b (omega arith)))

pub IsTree-place :
    (s : Store) (n : ℕ) (c : PageId) (lo hi : Option ℤ) (rows : List Row) (ids : PageSet)
    → IsTree s n c lo hi rows ids
    → IsAddressable c
IsTree-place s zero c lo hi rows ids (p, shown, node, own) = shown.place
IsTree-place s (suc n) c lo hi rows ids (p, branches, below, shown, node, own, out, wb, forest) =
    shown.place

-- The root page of a tree is whole in the store.
pub IsTree-byte :
    (s : Store) (n : ℕ) (c : PageId) (lo hi : Option ℤ) (rows : List Row) (ids : PageSet)
    → IsTree s n c lo hi rows ids
    → (b : ℕ) × (byte s c 0 ≡ some b)
IsTree-byte s zero c lo hi rows ids (p, v, node, own) =
    (p.bytes 0, ap (λ d. byte s d 0) (sym v.own) ∙ v.shown 0 (omega arith))
IsTree-byte s (suc n) c lo hi rows ids (p, branches, below, v, node, own, out, wb, forest) =
    (p.bytes 0, ap (λ d. byte s d 0) (sym v.own) ∙ v.shown 0 (omega arith))
