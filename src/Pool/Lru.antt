-- ===== src/Pool/Lru.antt =====
-- The list of cached entries: each ID stands in it once.
use native.Mathlib.Decide.{ℕ_discrete}
use index_lab.Page.{PageId}
use index_lab.Pool.{Entry, mem_id, delete_id, find_entry, remove_entry, back, remove_back}
use index_lab.Prelude.{
  sym, ap, ◌∙◌, suc, ◌≡◌, ◌≢◌, refl, true, false, none, some, List, [], ◌∷◌, length, arith, ◌==◌,
  if◌then◌else◌,
}
use index_lab.Storage.ReadWrite.{IsAddressable}

abbrev pub ids : List Entry → List PageId
ids [] = []
ids (e ∷ es) = e.page_id ∷ ids es

-- Every ID occurs once, is the ID of its own page, and has a place in a file.
abbrev pub AreEntries : List Entry → Type 0
AreEntries [] = Unit
AreEntries (e ∷ es) =
    (mem_id e.page_id (ids es) ≡ false)
    × (e.page.id ≡ e.page_id)
    × IsAddressable e.page_id
    × AreEntries es

pub find_entry-mem_id :
    (id : PageId) (es : List Entry) → mem_id id (ids es) ≡ false → find_entry id es ≡ none
unfolding mem_id find_entry
find_entry-mem_id id [] h = refl
find_entry-mem_id id (e ∷ es) h = ground (arith, find_entry-mem_id id es)

pub mem_id-find_entry :
    (id : PageId) (es : List Entry) → find_entry id es ≡ none → mem_id id (ids es) ≡ false
unfolding mem_id find_entry
mem_id-find_entry id [] h = refl
mem_id-find_entry id (e ∷ es) h = ground (arith, mem_id-find_entry id es)

-- An entry that is found has the ID, and is sound like its list.
pub find_entry_sound :
    (id : PageId) (es : List Entry) (e : Entry)
    → AreEntries es
    → find_entry id es ≡ some e
    → (e.page_id ≡ id) × (e.page.id ≡ id) × IsAddressable id
unfolding find_entry
find_entry_sound id [] e a h = ground arith
find_entry_sound id (x ∷ es) e a h = ground (arith, find_entry_sound id es e a.3)

pub find_entry-remove_entry :
    (id other : PageId) (es : List Entry)
    → AreEntries es
    → find_entry other (remove_entry id es) ≡ (if id == other then none else find_entry other es)
unfolding find_entry remove_entry
find_entry-remove_entry id other [] a = ground arith
find_entry-remove_entry id other (e ∷ es) a =
    ground (arith, find_entry-remove_entry id other es a.3, find_entry-mem_id e.page_id es a.0, a.0)

pub mem_id-remove_entry :
    (id other : PageId) (es : List Entry)
    → AreEntries es
    → mem_id other (ids (remove_entry id es))
      ≡ (if id == other then false else mem_id other (ids es))
unfolding mem_id remove_entry
mem_id-remove_entry id other [] a = ground arith
mem_id-remove_entry id other (e ∷ es) a = ground (arith, mem_id-remove_entry id other es a.3, a.0)

pub remove_entry-AreEntries :
    (id : PageId) (es : List Entry) → AreEntries es → AreEntries (remove_entry id es)
unfolding remove_entry
remove_entry-AreEntries id [] a = tt
remove_entry-AreEntries id (e ∷ es) a =
    ground (arith, remove_entry-AreEntries id es a.3, mem_id-remove_entry id e.page_id es a.3)

pub length-remove_entry :
    (id : PageId) (es : List Entry) (e : Entry)
    → find_entry id es ≡ some e
    → suc (length (remove_entry id es)) ≡ length es
unfolding find_entry remove_entry
length-remove_entry id [] e h = ground arith
length-remove_entry id (x ∷ es) e h = ground (arith, length-remove_entry id es e)

-- An ID that is found is in the list.
pub mem_id-found :
    (id : PageId) (es : List Entry) (e : Entry)
    → find_entry id es ≡ some e
    → mem_id id (ids es) ≡ true
unfolding mem_id find_entry
mem_id-found id [] e h = ground arith
mem_id-found id (x ∷ es) e h = ground (arith, mem_id-found id es e)

back_one :
    (x e : Entry)
    → x ≡ e
    → (find_entry e.page_id (x ∷ []) ≡ some e) × ([] ≡ remove_entry e.page_id (x ∷ []))
unfolding remove_entry find_entry
back_one x e h = ground arith

back_cons_ne :
    (x : Entry) (es : List Entry) (e : Entry)
    → mem_id x.page_id (ids es) ≡ false
    → find_entry e.page_id es ≡ some e
    → (find_entry e.page_id (x ∷ es) ≡ some e)
      × (remove_entry e.page_id (x ∷ es) ≡ x ∷ remove_entry e.page_id es)
unfolding remove_entry find_entry
back_cons_ne x es e h k = elim (ℕ_discrete x.page_id e.page_id) [
  | yes same ↦
      absurd (ground (arith, mem_id-found e.page_id es e k, ap (λ t. mem_id t (ids es)) same))
  | no ne ↦ ground arith
]

-- The last entry is found under its ID, and taking it off the end is removing it by that ID.
pub remove_back-remove_entry :
    (es : List Entry) (e : Entry)
    → AreEntries es
    → back es ≡ some e
    → (find_entry e.page_id es ≡ some e) × (remove_back es ≡ remove_entry e.page_id es)
unfolding back remove_back
remove_back-remove_entry [] e a h = ground arith
remove_back-remove_entry (x ∷ []) e a h = back_one x e (ground arith)
remove_back-remove_entry (x ∷ y ∷ es) e a h =
    let (found, taken) = remove_back-remove_entry (y ∷ es) e a.3 h in
    let (found', taken') = back_cons_ne x (y ∷ es) e a.0 found in
    (found', ap (◌∷◌ x) taken ∙ sym taken')

pub back-some : (es : List Entry) → back es ≡ none → length es ≡ 0
unfolding back
back-some [] h = refl
back-some (x ∷ []) h = ground arith
back-some (x ∷ y ∷ es) h = ground (arith, back-some (y ∷ es))

pub mem_id-delete_id :
    (id other : PageId) (ks : List PageId)
    → id ≢ other
    → mem_id other (delete_id id ks) ≡ mem_id other ks
unfolding mem_id delete_id
mem_id-delete_id id other [] h = refl
mem_id-delete_id id other (k ∷ ks) h = ground (arith, mem_id-delete_id id other ks h)

pub length-delete_id :
    (id : PageId) (ks : List PageId)
    → mem_id id ks ≡ true
    → suc (length (delete_id id ks)) ≡ length ks
unfolding mem_id delete_id
length-delete_id id [] h = ground arith
length-delete_id id (k ∷ ks) h = ground (arith, length-delete_id id ks)
