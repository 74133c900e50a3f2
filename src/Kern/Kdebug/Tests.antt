-- ===== src/Kern/Kdebug/Tests.antt =====
-- The search in small tables: functions (0x24) at the addresses 100, 200 and 300 with a line (0x44)
-- after each, and functions at all of the addresses.
use oscourse.Base.{ℕ, ◌+◌, ◌*◌, ◌/◌, ◌%◌, ◌≡◌, refl, some, arith, ◌==◌, if◌then◌else◌}
use oscourse.Kern.Kdebug.{Stab, Region, find_back, compared, stab_binsearch}
use oscourse.Kern.Kdebug.Rounds.{stab_binsearch-ends}
use oscourse.Kern.Kdebug.Nearest.{Brackets, stab_binsearch-Brackets}

abbrev functions : ℕ → Stab
functions i = record {
  n_strx = 0;
  n_type = if i % 2 == 0 then 0x24 else 0x44;
  n_other = 0;
  n_desc = i;
  n_value = (i / 2 + 1) * 100;
}

abbrev every_address : ℕ → Stab
every_address i = record { n_strx = 0; n_type = 0x24; n_other = 0; n_desc = i; n_value = i }

stab_binsearch-Brackets_example :
    (g : Region) × (stab_binsearch functions 0x24 0 6 230 ≡ some g)
    × Brackets functions 0x24 230 6 g
stab_binsearch-Brackets_example =
    stab_binsearch-Brackets functions 0x24 230 0 6 2 (λ i j a b c d e. omega arith)
      (λ j a b c. omega arith) (omega arith) (omega arith) (omega arith) refl (omega arith)

stab_binsearch-ends_example : (g : Region) × (stab_binsearch every_address 0x24 0 6 2 ≡ some g)
stab_binsearch-ends_example = stab_binsearch-ends every_address 0x24 0 6 2

-- the function from 200 on, up to the entry before the one at 300
second_function :
    stab_binsearch functions 0x24 0 6 230 ≡ some (record { left_next = 3; right_next = 4 })
unfolding stab_binsearch compared find_back
second_function = refl

-- With an entry at every address, the search for 2 ends at the entry of 5.
run_of_addresses :
    stab_binsearch every_address 0x24 0 6 2 ≡ some (record { left_next = 6; right_next = 6 })
unfolding stab_binsearch compared find_back
run_of_addresses = refl

-- Below the first entry the left end becomes -1.
below_all : stab_binsearch functions 0x24 0 6 50 ≡ some (record { left_next = 0; right_next = 0 })
unfolding stab_binsearch compared find_back
below_all = refl
