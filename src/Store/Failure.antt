-- ===== src/Store/Failure.antt =====
-- A read or a write of a store errs only if a coming call of the file fails.
use index_lab.Errors.{Error, Result, ok, err}
use index_lab.Page.{Page, PageId}
use index_lab.Pool.Failure.{get_page-Failing, get_page_err, put-Failing, put_err}
use index_lab.Prelude.{ℕ, ◌≡◌, some}
use index_lab.Storage.Failure.{
  Failing, read_page-Failing, read_page_err, write_page-Failing, write_page_err,
}
use index_lab.Storage.ReadWrite.{IsAddressable}
use index_lab.Store.{Store, direct, pooled, manager, read, write}
use index_lab.Store.View.{IsStore, byte}

-- One of the coming calls of the store's file fails.
abbrev pub CanFail : Store → Type 0
CanFail s = Failing (manager s)

-- An error is answered only where a call of the file fails.
abbrev pub ErrsOnly {ℓ} : {A : Type ℓ} → Store → Result A → Type 0
ErrsOnly s (ok a) = Unit
ErrsOnly s (err x) = CanFail s

-- Later calls fail only if they were to fail before.
abbrev pub Consumes : Store → Store → Type 0
Consumes s t = CanFail t → CanFail s

pub ErrsOnly-after {ℓ} :
    {A : Type ℓ} (s t : Store) (r : Result A) → Consumes s t → ErrsOnly t r → ErrsOnly s r
ErrsOnly-after s t (ok a) before h = tt
ErrsOnly-after s t (err x) before h = before h

pub read-Consumes : (s : Store) (id : PageId) → Consumes s (read s id).0
unfolding read
read-Consumes (direct pm) id = read_page-Failing pm id
read-Consumes (pooled p) id = get_page-Failing p id

pub write-Consumes : (s : Store) (pg : Page) → Consumes s (write s pg).0
unfolding write
write-Consumes (direct pm) pg = write_page-Failing pm pg
write-Consumes (pooled p) pg = put-Failing p pg.id pg

pub read_err :
    (s : Store) (id : PageId) (b : ℕ) (x : Error)
    → IsStore s
    → IsAddressable id
    → byte s id 0 ≡ some b
    → (read s id).1 ≡ err x
    → CanFail s
unfolding read
read_err (direct pm) id b x v place there e = read_page_err pm id b x place there e
read_err (pooled p) id b x v place there e = get_page_err p id v place b x there e

pub write_err :
    (s : Store) (pg : Page) (x : Error)
    → IsStore s
    → IsAddressable pg.id
    → (write s pg).1 ≡ err x
    → CanFail s
unfolding write
write_err (direct pm) pg x v place e = write_page_err pm pg x place e
write_err (pooled p) pg x v place e = put_err p pg.id v place pg x e
