-- ===== src/Page/Suffix.antt =====
-- The entries of a page from one index on, as the loops over a page see them.
use index_lab.Page.{Page, get_entry}
use index_lab.Page.Layout.{Layout, get_entry-Layout}
use index_lab.Prelude.{
  ℕ, zero, suc, ◌+◌, ◌<◌, ◌≤◌, ◌≡◌, refl, ap, ◌∙◌, List, [], ◌∷◌, some, length, length-drop, get_or,
  drop, arith,
}

-- `xs` is what `es` holds from index `from` on.
abbrev pub Suffix : List (List ℕ) → ℕ → List (List ℕ) → Type 0
Suffix es from xs =
    (from + length xs ≡ length es)
    × ((k : ℕ) → k < length xs → get_or es (from + k) [] ≡ get_or xs k [])

pub Suffix-tail :
    (es : List (List ℕ)) (from : ℕ) (x : List ℕ) (xs : List (List ℕ))
    → Suffix es from (x ∷ xs)
    → Suffix es (from + 1) xs
Suffix-tail es from x xs s =
    (omega (arith, s.0), λ k h. ap (λ t. get_or es t []) (omega arith) ∙ s.1 (suc k) (omega arith))

pub Suffix-head :
    (p : Page) (es : List (List ℕ)) (l : Layout p es) (from : ℕ) (x : List ℕ) (xs : List (List ℕ))
    → Suffix es from (x ∷ xs)
    → get_entry p from ≡ some x
Suffix-head p es l from x xs s =
    get_entry-Layout p es from l (omega (arith, s.0))
    ∙ ap some (ap (λ t. get_or es t []) (omega arith) ∙ s.1 0 (omega arith))

pub get_or-drop :
    (from k : ℕ) (es : List (List ℕ)) → get_or es (from + k) [] ≡ get_or (drop from es) k []
get_or-drop zero k es = ap (λ t. get_or es t []) (omega arith)
get_or-drop (suc from) k [] = refl
get_or-drop (suc from) k (x ∷ es) =
    let shift : suc from + k ≡ suc (from + k) = omega arith in
    ap (λ t. get_or (x ∷ es) t []) shift ∙ get_or-drop from k es

pub Suffix-drop : (from : ℕ) (es : List (List ℕ)) → from ≤ length es → Suffix es from (drop from es)
Suffix-drop from es h = (omega (arith, length-drop from es), λ k m. get_or-drop from k es)

pub Suffix-whole : (es : List (List ℕ)) → Suffix es 0 es
Suffix-whole es = (omega arith, λ k m. ap (λ t. get_or es t []) (omega arith))
