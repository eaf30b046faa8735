-- ===== src/Tree/Focus.antt =====
-- The descent of a tree of any height ends at the leaf that the key belongs to, and a change of that
-- leaf changes the rows of the tree in its place.
use index_lab.Errors.{Result, ok, err}
use index_lab.Leaf.Rows.{Row}
use index_lab.Node.Child.{Branch, child_of}
use index_lab.Page.{Page, PageId, leftmost_child_page_id}
use index_lab.Prelude.{
  ℕ, suc, ◌≡◌, refl, sym, ap, ◌∙◌, inl, inr, true, false, Option, some, List, [], ◌∷◌, ◌++◌, length,
  arith, Bool-cases, ◌==◌,
}
use index_lab.Prelude.Int.{ℤ, ◌≤ℤ◌, ◌<ℤ◌, ltb_ℤ}
use index_lab.Storage.ReadWrite.{IsAddressable}
use index_lab.Store.{Store}
use index_lab.Store.View.{KeepsAll, KeepsOthers, Shows}
use index_lab.Tree.Context.{
  InRange, IsContext, IsContext-refl, IsContext-trans, IsContext-left, IsContext-right,
}
use index_lab.Tree.Shape.{
  PageSet, Within, Apart, IsShown, IsLeafNode, IsInternalNode, IsForest, IsTree, KeepsIn,
  IsShown-keep, IsForest-map, IsTree-keep, IsTree-AllIn, IsForest-AllIn, same_bytes,
  IsLeafNode-congr,
}
use mathlib.Core.Path.{subst}

-- A write to a page outside of a set keeps the set.
pub KeepsOthers-KeepsIn :
    (x : PageId) (ids : PageSet) (s t : Store) → ids x ≡ false → KeepsOthers x s t → KeepsIn ids s t
KeepsOthers-KeepsIn x ids s t out keeps id i b own place h e =
    keeps id i b (λ same. absurd (ground (arith, sym out ∙ ap ids same ∙ own))) place h e

Apart-sym : (a b : PageSet) → Apart a b → Apart b a
Apart-sym a b apart id h = elim (Bool-cases (a id)) [
  | inl t ↦ absurd (ground (arith, sym (apart id t) ∙ h))
  | inr f ↦ f
]

-- The subtree of a forest that a key belongs to, and what a change of it does to the forest.
pub record Hole (s : Store) (n : ℕ) (c : PageId) (lo hi : Option ℤ) (branches : List Branch)
    (rows : List Row) (ids : PageSet) (key : ℤ) : Type 0 where
  pub child : PageId
  pub inner_lo : Option ℤ
  pub inner_hi : Option ℤ
  pub inner : List Row
  pub inner_ids : PageSet
  pub plug : List Row → List Row
  pub chosen : child_of c key branches ≡ child
  pub subtree : IsTree s n child inner_lo inner_hi inner inner_ids
  pub range : InRange inner_lo inner_hi key
  pub within : Within inner_ids ids
  pub whole : rows ≡ plug inner
  pub context : IsContext key plug
  pub refill :
      (t : Store) (x : PageId) (m : List Row)
      → inner_ids x ≡ true
      → KeepsOthers x s t
      → IsTree t n child inner_lo inner_hi m inner_ids
      → IsForest (IsTree t n) c lo hi branches (plug m) ids

module _ (s : Store) (n : ℕ) (key : ℤ) where
  pub hole :
      (c : PageId) (lo hi : Option ℤ) (branches : List Branch) (rows : List Row) (ids : PageSet)
      → IsForest (IsTree s n) c lo hi branches rows ids
      → InRange lo hi key
      → Hole s n c lo hi branches rows ids key
  unfolding child_of
  hole c lo hi [] rows ids v range = record {
    child = c;
    inner_lo = lo;
    inner_hi = hi;
    inner = rows;
    inner_ids = ids;
    plug = λ m. m;
    chosen = refl;
    subtree = v;
    range = range;
    within = λ id h. h;
    whole = refl;
    context = IsContext-refl key;
    refill = λ t x m own keeps w. w;
  }
  hole c lo hi ((k, d) ∷ branches) rows ids
        (left, right, left_ids, right_ids, e, bounds, first, rest, wl, wr, apart) range =
      let right_rows =
        IsForest-AllIn (IsTree s n) (IsTree-AllIn s n) d (some k) hi branches right right_ids
          rest in
      let left_rows = IsTree-AllIn s n c lo (some k) left left_ids first in
      elim (Bool-cases (ltb_ℤ key k)) [
        | inl below ↦
            let lt : key <ℤ k = ground arith in
            record {
              child = c;
              inner_lo = lo;
              inner_hi = some k;
              inner = left;
              inner_ids = left_ids;
              plug = λ m. m ++ right;
              chosen = ground (arith, below);
              subtree = first;
              range = (range.0, lt);
              within = wl;
              whole = e;
              context = IsContext-right key k hi lt right right_rows;
              refill = λ t x m own keeps w. (
                m,
                right,
                left_ids,
                right_ids,
                refl,
                bounds,
                w,
                IsForest-map (IsTree s n) (IsTree t n) right_ids
                    (IsTree-keep n s t right_ids
                      (KeepsOthers-KeepsIn x right_ids s t (apart x own) keeps))
                    d (some k) hi branches right right_ids (λ id h. h) rest,
                wl,
                wr,
                apart,
              );
            }
        | inr above ↦
            let le : k ≤ℤ key = ground arith in
            let r = hole d (some k) hi branches right right_ids rest (le, range.1) in
            record {
              child = r.child;
              inner_lo = r.inner_lo;
              inner_hi = r.inner_hi;
              inner = r.inner;
              inner_ids = r.inner_ids;
              plug = λ m. left ++ r.plug m;
              chosen = ground (arith, above, r.chosen);
              subtree = r.subtree;
              range = r.range;
              within = λ id h. wr id (r.within id h);
              whole = e ∙ ap (λ m. left ++ m) r.whole;
              context =
                  IsContext-trans key (λ m. left ++ m) r.plug
                    (IsContext-left key k lo le left left_rows) r.context;
              refill = λ t x m own keeps w. (
                left,
                r.plug m,
                left_ids,
                right_ids,
                refl,
                bounds,
                IsTree-keep n s t left_ids
                    (KeepsOthers-KeepsIn x left_ids s t
                      (Apart-sym left_ids right_ids apart x (r.within x own)) keeps)
                    c lo (some k) left left_ids (λ id h. h) first,
                r.refill t x m own keeps w,
                wl,
                wr,
                apart,
              );
            }
      ]

-- The leaf that a key belongs to, and what a change of it does to the tree.
pub record Focus (s : Store) (n : ℕ) (c : PageId) (lo hi : Option ℤ) (rows : List Row)
    (ids : PageSet) (key : ℤ) (leaf : Page) : Type 0 where
  pub inner_lo : Option ℤ
  pub inner_hi : Option ℤ
  pub inner : List Row
  pub plug : List Row → List Row
  pub member : ids leaf.id ≡ true
  pub place : IsAddressable leaf.id
  pub node : IsLeafNode leaf inner_lo inner_hi inner
  pub range : InRange inner_lo inner_hi key
  pub whole : rows ≡ plug inner
  pub context : IsContext key plug
  pub refill :
      (t : Store) (q : Page) (m : List Row)
      → q.id ≡ leaf.id
      → KeepsOthers leaf.id s t
      → Shows t q
      → IsLeafNode q inner_lo inner_hi m
      → IsTree t n c lo hi (plug m) ids

-- How a descent for the key from page `c` ends, with `most` ancestors.
abbrev pub IsFocus :
    Store
    → ℕ
    → PageId
    → Option ℤ
    → Option ℤ
    → List Row
    → PageSet
    → ℤ
    → ℕ
    → Result (Page × List PageId)
    → Type 0
IsFocus s n c lo hi rows ids key most (err x) = Unit
IsFocus s n c lo hi rows ids key most (ok (leaf, ancestors)) =
    Focus s n c lo hi rows ids key leaf × (length ancestors ≡ most)

-- The page of a tree of height zero is the leaf.
pub leaf-Focus :
    (s : Store) (c : PageId) (lo hi : Option ℤ) (rows : List Row) (ids : PageSet) (key : ℤ)
    (q : Page)
    → IsTree s 0 c lo hi rows ids
    → q.id ≡ c
    → Shows s q
    → InRange lo hi key
    → Focus s 0 c lo hi rows ids key q
leaf-Focus s c lo hi rows ids key q (p, v, node, member) own now range = record {
  inner_lo = lo;
  inner_hi = hi;
  inner = rows;
  plug = λ m. m;
  member = ap ids own ∙ member;
  place = subst IsAddressable (sym own) v.place;
  node = IsLeafNode-congr p q lo hi rows (same_bytes s c p q v own now) node;
  range = range;
  whole = refl;
  context = IsContext-refl key;
  refill = λ t r m same keeps shown fresh.
      (r, record { own = same ∙ own; place = v.place; shown = shown }, fresh, member);
}

-- A focus in the subtree of a hole is one in the whole tree, also after reads.
pub Hole-Focus :
    (s r : Store) (n : ℕ) (c : PageId) (lo hi : Option ℤ) (rows : List Row) (ids below : PageSet)
    (p : Page) (branches : List Branch) (key : ℤ) (leaf : Page)
    → KeepsAll s r
    → IsShown s c p
    → IsInternalNode p branches
    → ids c ≡ true
    → below c ≡ false
    → Within below ids
    → (h : Hole s n (leftmost_child_page_id p) lo hi branches rows below key)
    → Focus r n h.child h.inner_lo h.inner_hi h.inner h.inner_ids key leaf
    → Focus r (suc n) c lo hi rows ids key leaf
Hole-Focus s r n c lo hi rows ids below p branches key leaf all v node member out within h f =
    let inside : below leaf.id ≡ true = h.within leaf.id f.member in
    let since : (t : Store) → KeepsOthers leaf.id r t → KeepsOthers leaf.id s t =
      λ t keeps id i b other place k e. keeps id i b other place k (all id i b place k e) in
    record {
      inner_lo = f.inner_lo;
      inner_hi = f.inner_hi;
      inner = f.inner;
      plug = λ m. h.plug (f.plug m);
      member = within leaf.id inside;
      place = f.place;
      node = f.node;
      range = f.range;
      whole = h.whole ∙ ap h.plug f.whole;
      context = IsContext-trans key h.plug f.plug h.context f.context;
      refill = λ t q m same keeps shown fresh. (
        p,
        branches,
        below,
        IsShown-keep s t (λ id. id == c) c p
            (λ id i b own. since t keeps id i b (λ e. ground (arith, inside, out, own, ap below e)))
            (ground arith) v,
        node,
        member,
        out,
        within,
        h.refill t leaf.id (f.plug m) f.member (since t keeps)
            (f.refill t q m same keeps shown fresh),
      );
    }
