-- ===== src/Tree/Path.antt =====
-- The pages from the root of a tree down to the leaf of a key.
use index_lab.Errors.{Result, ok, err}
use index_lab.Key.{encode_int64}
use index_lab.Node.{find_child_page_id}
use index_lab.Page.{Page, PageId}
use index_lab.Prelude.{◌≡◌, refl, true, some, List, [], ◌∷◌}
use index_lab.Prelude.Int.{ℤ}
use index_lab.Store.{Store}
use index_lab.Store.View.{KeepsAll}
use index_lab.Tree.Shape.{IsShown, IsShown-keep}

-- The ancestors of page `d`, the nearest first and the last one `top`: each is a page of the store
-- that sends the key to the page before.
abbrev pub Chain : Store → ℤ → PageId → List PageId → PageId → Type 0
Chain s key top [] d = d ≡ top
Chain s key top (a ∷ ancestors) d =
    (p : Page) × IsShown s a p
    × (find_child_page_id p (encode_int64 key) ≡ some d)
    × Chain s key top ancestors a

-- A descent that succeeds answers the ancestors of the leaf.
abbrev pub IsPath : Store → ℤ → PageId → Result (Page × List PageId) → Type 0
IsPath s key top (err x) = Unit
IsPath s key top (ok (leaf, ancestors)) = Chain s key top ancestors leaf.id

pub Chain-keep :
    (s t : Store) (key : ℤ) (top : PageId) (ancestors : List PageId) (d : PageId)
    → KeepsAll s t
    → Chain s key top ancestors d
    → Chain t key top ancestors d
Chain-keep s t key top [] d keeps e = e
Chain-keep s t key top (a ∷ ancestors) d keeps (p, shown, e, rest) = (
  p,
  IsShown-keep s t (λ id. true) a p (λ id i b own. keeps id i b) refl shown,
  e,
  Chain-keep s t key top ancestors a keeps rest,
)
