-- ===== src/Stats/Reads.antt =====
-- Steps on a file without a pool that only read.
use index_lab.Composite.{read_direct}
use index_lab.Errors.{Result, ok, err}
use index_lab.Page.{PageId}
use index_lab.Pool.Access.{result_cases}
use index_lab.Prelude.{ℕ, ◌≡◌, refl, sym, ◌∙◌, inl, inr, some, arith}
use index_lab.Storage
use index_lab.Storage.{PageManager}
use index_lab.Storage.ReadWrite.{IsAddressable}
use index_lab.Store
use index_lab.Store.{Store, direct}
use index_lab.Store.Failure.{ErrsOnly, Consumes, ErrsOnly-after, read-Consumes, read_err}
use index_lab.Store.View.{byte, KeepsAll, IsReadFrom, read-IsReadFrom}
use index_lab.Tree.{Tree, Step, pure, ◌>>=◌}
use mathlib.Core.Path.{subst}

abbrev pub OnOk : {A : Type 0} → (A → Type 0) → Result A → Type 0
OnOk P (err x) = Unit
OnOk P (ok a) = P a

-- A step on the file that only reads, what holds of a value that it answers, and that it errs only
-- because a call of the file fails.
abbrev pub Reads : {A : Type 0} → Tree → PageManager → (Store → A → Type 0) → Step A → Type 0
Reads {A = A} t pm P m =
    (pm' : PageManager) × (r : Result A) × (m (record t { store = direct pm })
      ≡ some (record t { store = direct pm' }, r))
    × KeepsAll (direct pm) (direct pm')
    × OnOk (P (direct pm')) r
    × ErrsOnly (direct pm) r
    × Consumes (direct pm) (direct pm')

pub Reads-pure :
    {A : Type 0} (t : Tree) (pm : PageManager) (P : Store → A → Type 0) (a : A)
    → P (direct pm) a
    → Reads t pm P (pure a)
Reads-pure t pm P a h = (pm, ok a, refl, λ id i b k j e. e, h, tt, λ f. f)

pub Reads-bind :
    {A B : Type 0} (t : Tree) (pm : PageManager) (P : Store → A → Type 0) (Q : Store → B → Type 0)
    (m : Step A) (f : A → Step B)
    → Reads t pm P m
    → ((pm' : PageManager) (a : A)
        → KeepsAll (direct pm) (direct pm')
        → P (direct pm') a
        → Reads t pm' Q (f a))
    → Reads t pm Q (m >>= f)
Reads-bind {A = A} t pm P Q m f (pm1, r, run, keeps, h, errs, consumes) next = go r run h errs
  where
    go :
        (r : Result A)
        → m (record t { store = direct pm }) ≡ some (record t { store = direct pm1 }, r)
        → OnOk (P (direct pm1)) r
        → ErrsOnly (direct pm) r
        → Reads t pm Q (m >>= f)
    go (err x) run h errs = (pm1, err x, ground (arith, run), keeps, tt, errs, consumes)
    go (ok a) run h errs =
        let (pm2, r2, run2, keeps2, h2, errs2, consumes2) = next pm1 a keeps h in
        (
          pm2,
          r2,
          ground (arith, run) ∙ run2,
          λ id i b k j e. keeps2 id i b k j (keeps id i b k j e),
          h2,
          ErrsOnly-after (direct pm) (direct pm1) r2 consumes errs2,
          λ f. consumes (consumes2 f),
        )

-- `t.pm.ReadPage`.
pub read_direct-Reads :
    (t : Tree) (pm : PageManager) (id : PageId)
    → IsAddressable id
    → (b : ℕ) × (byte (direct pm) id 0 ≡ some b)
    → Reads t pm (λ s p. IsReadFrom s id (ok p)) (read_direct id)
unfolding read_direct Store.read
read_direct-Reads t pm id place (b, there) =
    let (_, keeps, got) = read-IsReadFrom (direct pm) id tt place in
    let loaded = Storage.read_page pm id in
    (
      loaded.0,
      loaded.1,
      refl,
      keeps,
      elim (result_cases loaded.1) [
        | inr (x, e) ↦ subst (OnOk (λ p. IsReadFrom (direct loaded.0) id (ok p))) (sym e) tt
        | inl (p, e) ↦
            let (own, shown) : IsReadFrom (direct pm) id (ok p) =
              subst (IsReadFrom (direct pm) id) e got in
            subst (OnOk (λ q. IsReadFrom (direct loaded.0) id (ok q))) (sym e) (
              own,
              λ i h. keeps p.id i (p.bytes i) (subst IsAddressable (sym own) place) h (shown i h),
            )
      ],
      elim (result_cases loaded.1) [
        | inr (x, e) ↦
            subst (ErrsOnly (direct pm)) (sym e) (read_err (direct pm) id b x tt place there e)
        | inl (p, e) ↦ subst (ErrsOnly (direct pm)) (sym e) tt
      ],
      read-Consumes (direct pm) id,
    )

pub Reads-mono :
    {A : Type 0} (t : Tree) (pm : PageManager) (P Q : Store → A → Type 0) (m : Step A)
    → ((s : Store) (a : A) → KeepsAll (direct pm) s → P s a → Q s a)
    → Reads t pm P m
    → Reads t pm Q m
Reads-mono {A = A} t pm P Q m f (pm', r, run, keeps, h, errs, consumes) =
    (pm', r, run, keeps, weaken r h, errs, consumes)
  where
    weaken : (r : Result A) → OnOk (P (direct pm')) r → OnOk (Q (direct pm')) r
    weaken (err x) h = tt
    weaken (ok a) h = f (direct pm') a keeps h
