-- ===== src/Kern/Kdebug/Info/Tests.antt =====
-- An address in the second function of a small table.
use oscourse.Base.{ℕ, ◌==◌, if◌then◌else◌, ◌≡◌, refl, true, some}
use oscourse.User.Strings.{strfind}
use oscourse.Kern.Kdebug.{Stab, find_back, compared, stab_binsearch}
use oscourse.Kern.Kdebug.Info.{Tables, look_up}

-- a header, a file, a function `f:` with an argument and a line, and the next function
abbrev table : ℕ → Stab
table i =
    if i == 1
    then record { n_strx = 1; n_type = 0x64; n_other = 0; n_desc = 0; n_value = 0x1000 }
    else if i == 2
    then record { n_strx = 3; n_type = 0x24; n_other = 0; n_desc = 0; n_value = 0x1000 }
    else if i == 3
    then record { n_strx = 0; n_type = 0xa0; n_other = 0; n_desc = 0; n_value = 8 }
    else if i == 4
    then record { n_strx = 0; n_type = 0x44; n_other = 0; n_desc = 21; n_value = 4 }
    else if i == 5
    then record { n_strx = 3; n_type = 0x24; n_other = 0; n_desc = 0; n_value = 0x2000 }
    else record { n_strx = 0; n_type = 0; n_other = 0; n_desc = 0; n_value = 0 }

abbrev tables : Tables
tables = record {
  stabs = table;
  count = 6;
  stabstr = 100;
  stabstr_end = 106;
  mem = λ a. if a == 104 then b':' else if a == 105 then 0 else if a == 102 then 0 else b'f';
}

in_f :
    look_up tables 0x1008
    ≡ some (
      true,
      record {
        eip_file = some 101;
        eip_line = 21;
        eip_fn_name = some 103;
        eip_fn_namelen = 1;
        eip_fn_addr = 0x1000;
        eip_fn_narg = 1;
      },
    )
unfolding look_up stab_binsearch compared find_back strfind
in_f = refl
