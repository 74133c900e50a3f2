-- ===== src/Kern/EntryPgdir.antt =====
-- kern/entrypgdir.c: the directory and the two page tables that the kernel starts with, as functions
-- of the index.
pub mod Mapping
mod Tests
use oscourse.Base.{ℕ, ◌+◌, ◌*◌, ◌^◌, Bool, ◌==◌, if◌then◌else◌}

-- KERNBASE
abbrev pub kernbase : ℕ
kernbase = 0xf000_0000

-- `entry_pgdir`, where the tables lie in the frames `f0` and `f1`
pub entry_pgdir : (f0 f1 d : ℕ) → ℕ
entry_pgdir f0 f1 d =
    if d == 0
    then f0 * 2 ^ 12 + 1
    else if d == 960
    then f0 * 2 ^ 12 + 3
    else if d == 961
    then f1 * 2 ^ 12 + 3
    else 0

-- `entry_pgtable0`, whose first entry is not present, and `entry_pgtable1`
pub entry_pgtable0 : ℕ → ℕ
entry_pgtable0 i = if i == 0 then 0 else i * 2 ^ 12 + 3

pub entry_pgtable1 : ℕ → ℕ
entry_pgtable1 i = (1024 + i) * 2 ^ 12 + 3
