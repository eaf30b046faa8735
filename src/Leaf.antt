-- ===== src/Leaf.antt =====
-- The operations of internal/btree/tree.go on a single leaf page.
pub mod Rows
pub mod Place
pub mod Correct
use index_lab.Errors.{Error, Result, ok, err, page_full, key_not_found}
use index_lab.Key.{encode_int64, decode_int64}
use index_lab.Node.{find_key_index, suffix}
use index_lab.Page.{Page, has_space_for, get_entry, insert_entry, delete_entry}
use index_lab.Prelude.{Bool, true, false, Option, some, ◌++◌, length, if◌then◌else◌, ◌>>=◌}
use index_lab.Prelude.Int.{ℤ, pos}

-- The page is changed in place: the new page is the result.
unfoldable pub insert : Page → ℤ → ℤ → Option (Result Page)
insert p key record_id = do
  let encoded_key = encode_int64 key
  let entry = encoded_key ++ encode_int64 record_id
  (index, _) ← find_key_index p encoded_key
  elim (has_space_for p (length entry)) [
    | false ↦ some (err page_full)
    | true ↦ do p' ← insert_entry p index entry; some (ok p')
  ]

unfoldable pub search : Page → ℤ → Option (ℤ × Bool)
search p key = do
  (index, found) ← find_key_index p (encode_int64 key)
  elim found [
    | false ↦ some (pos 0, false)
    | true ↦ do
      entry ← get_entry p index
      value_bytes ← suffix entry (pos 8)
      value ← decode_int64 value_bytes
      some (value, true)
  ]

unfoldable pub delete : Page → ℤ → Option (Result Page)
delete p key = do
  (index, found) ← find_key_index p (encode_int64 key)
  elim found [
    | false ↦ some (err key_not_found)
    | true ↦ do p' ← delete_entry p index; some (ok p')
  ]
