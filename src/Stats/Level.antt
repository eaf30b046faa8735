-- ===== src/Stats/Level.antt =====
-- The levels of a tree, and the reads that lead from one to the next.
use index_lab.Composite.{read_direct}
use index_lab.Errors.{ok}
use index_lab.Leaf.Rows.{Row}
use index_lab.Node.Child.{Branch, children}
use index_lab.Page.{Page, PageId}
use index_lab.Prelude.{
  ℕ, zero, suc, ◌+◌, ◌<◌, ◌≡◌, refl, sym, ap, ◌∙◌, Option, some, List, [], ◌∷◌, ◌++◌, length, arith,
}
use index_lab.Prelude.Int.{ℤ}
use index_lab.Stats.{child_page_ids, read_children}
use index_lab.Storage.{PageManager}
use index_lab.Storage.ReadWrite.{IsAddressable}
use index_lab.Store.{Store, direct}
use index_lab.Store.View.{KeepsAll, Shows, IsReadFrom}
use index_lab.Tree.{Tree, pure, ◌>>=◌}
use index_lab.Tree.Shape.{
  PageSet, IsForest, IsForest-map, IsTree, IsTree-keep, IsTree-place, IsTree-byte,
}
use mathlib.Core.List.{append_assoc, append-nil}
use mathlib.Core.Path.{subst}
use index_lab.Stats.Reads.{Reads, Reads-pure, Reads-bind, read_direct-Reads}

-- The pages of one level, from left to right, and the rows below them.
abbrev pub IsLevel : Store → ℕ → List Page → List Row → Type 0
IsLevel s n [] rows = rows ≡ []
IsLevel s n (p ∷ ps) rows =
    (lo : Option ℤ) × (hi : Option ℤ) × (left : List Row) × (right : List Row) × (ids : PageSet)
    × IsTree s n p.id lo hi left ids
    × Shows s p
    × (rows ≡ left ++ right)
    × IsLevel s n ps right

abbrev pub page_ids : List Page → List PageId
page_ids [] = []
page_ids (p ∷ ps) = p.id ∷ page_ids ps

-- The level below, page by page: those that the entries of each page of a level name.
abbrev pub AreChildren : List Page → List Page → Type 0
AreChildren [] next = next ≡ []
AreChildren (p ∷ ps) next =
    (here : List Page) × (rest : List Page) × (next ≡ here ++ rest)
    × (child_page_ids p ≡ some (page_ids here))
    × AreChildren ps rest

-- The levels of a tree from one down to the leaves, with the number of leaves and of the pages above.
abbrev pub AreLevels : Store → ℕ → List Page → List Row → ℕ → ℕ → Type 0
AreLevels s zero ps rows leaves inner = IsLevel s 0 ps rows × (leaves ≡ length ps) × (inner ≡ 0)
AreLevels s (suc n) ps rows leaves inner =
    (next : List Page) × (below : ℕ) × IsLevel s (suc n) ps rows
    × AreChildren ps next
    × (inner ≡ length ps + below)
    × AreLevels s n next rows leaves below

pub IsLevel-keep :
    (s t : Store) (n : ℕ) (ps : List Page) (rows : List Row)
    → KeepsAll s t
    → IsLevel s n ps rows
    → IsLevel t n ps rows
IsLevel-keep s t n [] rows keeps v = v
IsLevel-keep s t n (p ∷ ps) rows keeps (lo, hi, left, right, ids, tree, shown, e, rest) = (
  lo,
  hi,
  left,
  right,
  ids,
  IsTree-keep n s t ids (λ id i b o. keeps id i b) p.id lo hi left ids (λ id h. h) tree,
  λ i h. keeps p.id i (p.bytes i) (IsTree-place s n p.id lo hi left ids tree) h (shown i h),
  e,
  IsLevel-keep s t n ps right keeps rest,
)

pub IsLevel-append :
    (s : Store) (n : ℕ) (ps qs : List Page) (xs ys : List Row)
    → IsLevel s n ps xs
    → IsLevel s n qs ys
    → IsLevel s n (ps ++ qs) (xs ++ ys)
IsLevel-append s n [] qs xs ys v w = subst (λ m. IsLevel s n qs (m ++ ys)) (sym v) w
IsLevel-append s n (p ∷ ps) qs xs ys (lo, hi, left, right, ids, tree, shown, e, rest) w = (
  lo,
  hi,
  left,
  right ++ ys,
  ids,
  tree,
  shown,
  ap (λ m. m ++ ys) e ∙ append_assoc left right ys,
  IsLevel-append s n ps qs right ys rest w,
)

pub IsLevel-cons :
    (s : Store) (n : ℕ) (c : PageId) (p : Page) (ps : List Page) (lo hi : Option ℤ)
    (left right rows : List Row) (ids : PageSet)
    → IsReadFrom s c (ok p)
    → IsTree s n c lo hi left ids
    → rows ≡ left ++ right
    → IsLevel s n ps right
    → IsLevel s n (p ∷ ps) rows
IsLevel-cons s n c p ps lo hi left right rows ids (own, shown) tree e rest = (
  lo,
  hi,
  left,
  right,
  ids,
  subst (λ d. IsTree s n d lo hi left ids) (sym own) tree,
  shown,
  e,
  rest,
)

-- The children of an internal page are the next level.
pub read_children-Reads :
    (t : Tree) (pm : PageManager) (n : ℕ) (c : PageId) (lo hi : Option ℤ) (branches : List Branch)
    (rows : List Row) (ids : PageSet)
    → IsForest (IsTree (direct pm) n) c lo hi branches rows ids
    → Reads t pm
        (λ s ps. IsLevel s n ps rows × (0 < length ps) × (page_ids ps ≡ c ∷ children branches))
        (read_children (c ∷ children branches))
unfolding read_children
read_children-Reads t pm n c lo hi [] rows ids tree =
    Reads-bind t pm (λ s p. IsReadFrom s c (ok p))
      (λ s ps. IsLevel s n ps rows × (0 < length ps) × (page_ids ps ≡ c ∷ [])) (read_direct c)
      (λ p. read_children [] >>= λ ps. pure (p ∷ ps))
      (read_direct-Reads t pm c (IsTree-place (direct pm) n c lo hi rows ids tree)
        (IsTree-byte (direct pm) n c lo hi rows ids tree))
      (λ pm1 p keeps got.
        Reads-pure t pm1 (λ s ps. IsLevel s n ps rows × (0 < length ps) × (page_ids ps ≡ c ∷ []))
          (p ∷ [])
          (
            IsLevel-cons (direct pm1) n c p [] lo hi rows [] rows ids got
                (IsTree-keep n (direct pm) (direct pm1) ids (λ id i b o. keeps id i b) c lo hi rows
                  ids (λ id h. h) tree)
                (sym (append-nil rows)) refl,
            omega arith,
            ap (λ k. k ∷ []) got.0,
          ))
read_children-Reads t pm n c lo hi ((k, d) ∷ branches) rows ids
      (left, right, left_ids, right_ids, e, range, first, rest, wl, wr, apart) =
    let Q : Store → List Page → Type 0 =
      λ s ps. IsLevel s n ps rows × (0 < length ps) × (page_ids ps ≡ c ∷ d ∷ children branches) in
    Reads-bind t pm (λ s p. IsReadFrom s c (ok p)) Q (read_direct c)
      (λ p. read_children (d ∷ children branches) >>= λ ps. pure (p ∷ ps))
      (read_direct-Reads t pm c (IsTree-place (direct pm) n c lo (some k) left left_ids first)
        (IsTree-byte (direct pm) n c lo (some k) left left_ids first))
      (λ pm1 p keeps (own, shown).
        Reads-bind t pm1
          (λ s ps. IsLevel s n ps right × (0 < length ps) × (page_ids ps ≡ d ∷ children branches)) Q
          (read_children (d ∷ children branches)) (λ ps. pure (p ∷ ps))
          (read_children-Reads t pm1 n d (some k) hi branches right right_ids (
            IsForest-map (IsTree (direct pm) n) (IsTree (direct pm1) n) right_ids
              (IsTree-keep n (direct pm) (direct pm1) right_ids (λ id i b o. keeps id i b)) d
              (some k) hi branches right right_ids (λ id h. h) rest))
          (λ pm2 ps keeps2 (level, _, named).
            let all : KeepsAll (direct pm) (direct pm2) =
              λ id i b a j seen. keeps2 id i b a j (keeps id i b a j seen) in
            let place = IsTree-place (direct pm) n c lo (some k) left left_ids first in
            Reads-pure t pm2 Q (p ∷ ps) (
              IsLevel-cons (direct pm2) n c p ps lo (some k) left right rows left_ids
                  (
                    own,
                    λ i h.
                        keeps2 p.id i (p.bytes i) (subst IsAddressable (sym own) place) h
                          (shown i h),
                  )
                  (IsTree-keep n (direct pm) (direct pm2) left_ids (λ id i b o. all id i b) c lo
                    (some k) left left_ids (λ id h. h) first)
                  e level,
              omega arith,
              ap (◌∷◌ p.id) named ∙ ap (λ k. k ∷ d ∷ children branches) own,
            )))
