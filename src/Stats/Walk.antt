-- ===== src/Stats/Walk.antt =====
-- What the walk over one level counts.
use index_lab.Leaf.Rows.{Row, length-encode_rows}
use index_lab.Node.Child.{children}
use index_lab.Page.{Page, PageId, page_type, leaf_page, num_entries, leftmost_child_page_id}
use index_lab.Prelude.{
  ℕ, zero, suc, ◌+◌, ◌≤◌, ◌<◌, ◌≡◌, refl, sym, ap, ◌∙◌, false, Option, some, List, [], ◌∷◌, ◌++◌,
  length, length-append, arith, ◌==◌,
}
use index_lab.Prelude.Int.{ℤ}
use index_lab.Stats.{
  TreeStats, child_page_ids, read_children, count_leaf, count_internal, walk_level,
}
use index_lab.Storage.{PageManager}
use index_lab.Store.{Store, direct}
use index_lab.Store.View.{Shows}
use index_lab.Tree.{Tree, Step, pure, lift, ◌>>=◌}
use index_lab.Tree.Shape.{
  PageSet, IsTree, same_bytes, IsLeafNode-congr, IsInternalNode-congr, leftmost-congr,
}
use mathlib.Core.Path.{subst}
use index_lab.Stats.Children.{child_page_ids-children}
use index_lab.Stats.Reads.{Reads, Reads-pure, Reads-bind, Reads-mono}
use index_lab.Stats.Level.{
  page_ids, AreChildren, IsLevel, IsLevel-keep, IsLevel-append, read_children-Reads,
}

-- What a level adds to the statistics, which is `leaves` of its pages and `entries` in them.
pub record Counted (before after : TreeStats) (pages leaves entries : ℕ) : Type 0 where
  pub height : after.height ≡ before.height
  pub total_pages : after.total_pages ≡ before.total_pages + pages
  pub leaf_pages : after.leaf_pages ≡ before.leaf_pages + leaves
  pub internal_pages : after.internal_pages + leaves ≡ before.internal_pages + pages
  pub total_entries : after.total_entries ≡ before.total_entries + entries
  pub page_splits : after.page_splits ≡ before.page_splits
  pub page_merges : after.page_merges ≡ before.page_merges
  pub page_reads : after.page_reads ≡ before.page_reads
  pub page_writes : after.page_writes ≡ before.page_writes

pub Counted-none : (st : TreeStats) → Counted st st 0 0 0
Counted-none st = record {
  height = refl;
  total_pages = omega arith;
  leaf_pages = omega arith;
  internal_pages = omega arith;
  total_entries = omega arith;
  page_splits = refl;
  page_merges = refl;
  page_reads = refl;
  page_writes = refl;
}

-- The leaves of a level, and the rows in leaves.
abbrev pub at_leaves : ℕ → ℕ → ℕ
at_leaves zero k = k
at_leaves (suc n) k = 0

-- The level below, where there is one.
abbrev pub IsBelow : Store → ℕ → List Page → List Page → List Row → Type 0
IsBelow s zero ps next rows = next ≡ []
IsBelow s (suc n) ps next rows =
    IsLevel s n next rows × (length ps ≤ length next) × AreChildren ps next

abbrev pub WalkedLevel :
    ℕ → List Page → List Row → TreeStats → Store → TreeStats × List Page → Type 0
WalkedLevel n ps rows st s (st', next) =
    Counted st st' (length ps) (at_leaves n (length ps)) (at_leaves n (length rows))
    × IsBelow s n ps next rows

-- A leaf of the level.
pub leaf_page-IsLevel :
    (s : Store) (p : Page) (lo hi : Option ℤ) (rows : List Row) (ids : PageSet)
    → IsTree s 0 p.id lo hi rows ids
    → Shows s p
    → (page_type p ≡ leaf_page) × (num_entries p ≡ length rows)
leaf_page-IsLevel s p lo hi rows ids (q, v, node, own) shown =
    let here = IsLeafNode-congr q p lo hi rows (same_bytes s p.id q p v refl shown) node in
    (here.kind, here.stored.stored.count ∙ length-encode_rows rows)

pub walk_level-leaves :
    (t : Tree) (pm : PageManager) (ps : List Page) (rows : List Row) (st : TreeStats)
    → IsLevel (direct pm) 0 ps rows
    → Reads t pm (WalkedLevel 0 ps rows st) (walk_level ps st)
unfolding walk_level
walk_level-leaves t pm [] rows st e =
    Reads-pure t pm (WalkedLevel 0 [] rows st) (st, [])
      (subst (λ k. Counted st st 0 0 k) (sym (ap length e)) (Counted-none st), refl)
walk_level-leaves t pm (p ∷ ps) rows st (lo, hi, left, right, ids, tree, shown, e, rest) =
    let (kind, count) = leaf_page-IsLevel (direct pm) p lo hi left ids tree shown in
    let size : length rows ≡ length left + length right = ap length e ∙ length-append left right in
    let step : walk_level (p ∷ ps) st ≡ walk_level ps (count_leaf st p) = ground (arith, kind) in
    subst (Reads t pm (WalkedLevel 0 (p ∷ ps) rows st)) (sym step) (
      Reads-mono t pm (WalkedLevel 0 ps right (count_leaf st p)) (WalkedLevel 0 (p ∷ ps) rows st)
        (walk_level ps (count_leaf st p))
        (λ s (st', next) keeps (c, below). (
          record {
            height = c.height;
            total_pages = omega (arith, c.total_pages);
            leaf_pages = omega (arith, c.leaf_pages);
            internal_pages = omega (arith, c.internal_pages);
            total_entries = omega (arith, c.total_entries, count, size);
            page_splits = c.page_splits;
            page_merges = c.page_merges;
            page_reads = c.page_reads;
            page_writes = c.page_writes;
          },
          below,
        ))
        (walk_level-leaves t pm ps right (count_leaf st p) rest))

pub walk_level-inner :
    (t : Tree) (pm : PageManager) (n : ℕ) (ps : List Page) (rows : List Row) (st : TreeStats)
    → IsLevel (direct pm) (suc n) ps rows
    → Reads t pm (WalkedLevel (suc n) ps rows st) (walk_level ps st)
unfolding walk_level
walk_level-inner t pm n [] rows st e =
    Reads-pure t pm (WalkedLevel (suc n) [] rows st) (st, [])
      (Counted-none st, (e, omega arith, refl))
walk_level-inner t pm n (p ∷ ps) rows st
      (
        lo,
        hi,
        left,
        right,
        ids,
        (q, branches, below, v, node, own, out, wb, forest),
        shown,
        e,
        rest,
      ) =
    let Q = WalkedLevel (suc n) (p ∷ ps) rows st in
    let same = same_bytes (direct pm) p.id q p v refl shown in
    let here = IsInternalNode-congr q p branches same node in
    let all = leftmost_child_page_id q ∷ children branches in
    let ids_here : child_page_ids p ≡ some all =
      child_page_ids-children p branches here
      ∙ ap (λ c. some (c ∷ children branches)) (leftmost-congr q p same) in
    let kind : (page_type p == leaf_page) ≡ false = ground (arith, here.kind) in
    let after : List PageId → Step (TreeStats × List Page) = λ ids'. read_children ids' >>= λ cs.
    walk_level ps (count_internal st) >>= λ (st', next). pure (st', cs ++ next) in
    let step : walk_level (p ∷ ps) st ≡ (lift (child_page_ids p) >>= after) =
      ground (arith, kind) in
    subst (Reads t pm Q) (sym (step ∙ ap (λ o. lift o >>= after) ids_here)) (
      Reads-bind t pm (λ s cs. IsLevel s n cs left × (0 < length cs) × (page_ids cs ≡ all)) Q
        (read_children all)
        (λ cs. walk_level ps (count_internal st) >>= λ (st', next). pure (st', cs ++ next))
        (read_children-Reads t pm n (leftmost_child_page_id q) lo hi branches left below forest)
        (λ pm1 cs keeps (level, some_there, named).
          Reads-bind t pm1 (WalkedLevel (suc n) ps right (count_internal st)) Q
            (walk_level ps (count_internal st)) (λ (st', next). pure (st', cs ++ next))
            (walk_level-inner t pm1 n ps right (count_internal st)
              (IsLevel-keep (direct pm) (direct pm1) (suc n) ps right keeps rest))
            (λ pm2 (st', next) keeps2 (c, (lower, more, apart)).
              Reads-pure t pm2 Q (st', cs ++ next)
                (
                  record {
                    height = c.height;
                    total_pages = omega (arith, c.total_pages);
                    leaf_pages = omega (arith, c.leaf_pages);
                    internal_pages = omega (arith, c.internal_pages);
                    total_entries = omega (arith, c.total_entries);
                    page_splits = c.page_splits;
                    page_merges = c.page_merges;
                    page_reads = c.page_reads;
                    page_writes = c.page_writes;
                  },
                  (
                    subst (IsLevel (direct pm2) n (cs ++ next)) (sym e) (
                        IsLevel-append (direct pm2) n cs next left right
                          (IsLevel-keep (direct pm1) (direct pm2) n cs left keeps2 level) lower),
                    omega (arith, length-append cs next),
                    (cs, next, refl, ids_here ∙ ap some (sym named), apart),
                  ),
                ))))
