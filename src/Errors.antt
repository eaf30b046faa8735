-- ===== src/Errors.antt =====
-- The errors of packages btree and heap as values. `setup_problem` is that of the drivers in reads.go,
-- and `io` stands for an error of the file system.

pub data Error : Type 0 where
  page_full key_not_found invalid_range duplicate_key : Error
  row_too_large slot_out_of_range : Error
  io : Error
  setup_problem : Error

pub data Result {ℓ} (A : Type ℓ) : Type ℓ where
  ok : A → Result A
  err : Error → Result A
