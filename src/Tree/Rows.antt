-- ===== src/Tree/Rows.antt =====
-- What `Scan` of internal/btree/btree.go takes from one leaf.
use index_lab.Key.{decode_int64}
use index_lab.Node.{entry_prefix, suffix}
use index_lab.Page.{Page, get_entry}
use index_lab.Prelude.{ℕ, zero, suc, ◌+◌, Bool, true, false, Option, some, List, [], ◌∷◌, ◌>>=◌}
use index_lab.Prelude.Int.{ℤ, pos, ltb_ℤ}

pub record ScanResult : Type 0 where
  pub key : ℤ
  pub record_id : ℤ

-- `DecodeInt64(entry[:8])`.
unfoldable pub decode_key : Page → ℕ → Option ℤ
decode_key p i = do key_bytes ← entry_prefix p i (pos 8); decode_int64 key_bytes

-- `DecodeInt64(entry[8:])`.
unfoldable pub decode_record_id : Page → ℕ → Option ℤ
decode_record_id p i = do
  entry ← get_entry p i
  value_bytes ← suffix entry (pos 8)
  decode_int64 value_bytes

-- The inner loop for the `rounds` entries from `i` on: what it appends, and whether a key beyond the
-- end was met.
unfoldable pub scan_page : ℕ → Page → ℕ → ℤ → Option (List ScanResult × Bool)
scan_page zero p i end_key = some ([], false)
scan_page (suc rounds) p i end_key = do
  key ← decode_key p i
  elim (ltb_ℤ end_key key) [
    | true ↦ some ([], true)
    | false ↦ do
      record_id ← decode_record_id p i
      (rest, done) ← scan_page rounds p (i + 1) end_key
      some (record { key = key; record_id = record_id } ∷ rest, done)
  ]
