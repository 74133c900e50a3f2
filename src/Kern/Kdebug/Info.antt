-- ===== src/Kern/Kdebug/Info.antt =====
-- kern/kdebug.c: `debuginfo_eip`, which looks an address up in the debugging entries.
mod Tests
use oscourse.Base.{
  ℕ, zero, suc, ◌+◌, ◌-◌, ◌%◌, ◌^◌, Bool, true, false, not, ◌&&◌, ◌||◌, Option, none, some, ltb,
  leb, ◌==◌, if◌then◌else◌,
}
use oscourse.User.Memory.{Memory}
use oscourse.User.Strings.{strfind}
use oscourse.Kern.Pmap.{Phys}
use oscourse.Kern.UserMem.{ulim, user_mem_check}
use oscourse.Kern.Kdebug.{Stab, Region, stab_binsearch}

-- The stabs, `stab_end - stabs` of them, and the string table in memory.
pub record Tables : Type 0 where
  pub stabs : ℕ → Stab
  pub count : ℕ
  pub stabstr : ℕ
  pub stabstr_end : ℕ
  pub mem : Memory

-- `struct Eipdebuginfo`; `none` is "<unknown>"
pub record Eipdebuginfo : Type 0 where
  pub eip_file : Option ℕ
  pub eip_line : ℕ
  pub eip_fn_name : Option ℕ
  pub eip_fn_namelen : ℕ
  pub eip_fn_addr : ℕ
  pub eip_fn_narg : ℕ

abbrev pub unknown_info : ℕ → Eipdebuginfo
unknown_info addr = record {
  eip_file = none;
  eip_line = 0;
  eip_fn_name = none;
  eip_fn_namelen = 9;
  eip_fn_addr = addr;
  eip_fn_narg = 0;
}

-- whether 0 is returned, with the information; `none` stands for behaviour that is undefined
abbrev pub Looked : Type 0
Looked = Option (Bool × Eipdebuginfo)

-- the string of an entry, if it lies within the table
abbrev pub string_of : Tables → Stab → Option ℕ
string_of t e =
    if ltb e.n_strx (t.stabstr_end - t.stabstr) then some (t.stabstr + e.n_strx) else none

-- `strfind(name, ':') - name`, within a string table that ends in a NUL
name_len : Tables → Option ℕ → Option ℕ
name_len t none = some 9
name_len t (some p) = length_to (strfind (t.stabstr_end - p) p b':' t.mem)
  where
    length_to : Option ℕ → Option ℕ
    length_to none = none
    length_to (some q) = some (q - p)

-- the loop back to the file, over the `n` entries from `lfile` on
pub file_back : Tables → (lfile n : ℕ) → Option ℕ
file_back t lfile zero = none
file_back t lfile (suc n) =
    let rest = file_back t lfile n in
    let e = t.stabs (lfile + n) in
    if not (e.n_type == 0x84) && (not (e.n_type == 0x64) || (e.n_value == 0))
    then rest
    else string_of t e

-- the loop over the arguments, at most `n` of them, from the entry `l` on
pub count_args : Tables → (n l : ℕ) → ℕ
count_args t zero l = 0
count_args t (suc n) l =
    let rest = count_args t n (l + 1) in if (t.stabs l).n_type == 0xa0 then rest + 1 else 0

-- the end, for the region of the line
line_found : Tables → (lfile : ℕ) → (fun line : Region) → Eipdebuginfo → Looked
unfolding file_back count_args
line_found t lfile fun line i =
    if ltb line.right_next line.left_next
    then some (false, i)
    else if line.left_next == 0
    then none
    else some (
      true,
      record i {
        eip_line = (t.stabs (line.left_next - 1)).n_desc;
        eip_file = file_back t lfile (line.left_next - lfile);
        eip_fn_narg = count_args t (fun.right_next - 1 - fun.left_next) fun.left_next;
      },
    )

line_search : Tables → (lfile : ℕ) → (fun : Region) → Eipdebuginfo → Option Region → Looked
unfolding line_found
line_search t lfile fun i none = none
line_search t lfile fun i (some line) = line_found t lfile fun line i

-- the length of the name, and the search for the line from `l` up to `r_next` for `addr`
named_function :
    Tables → (lfile : ℕ) → (fun : Region) → (l r_next addr : ℕ) → Eipdebuginfo → Option ℕ → Looked
unfolding line_search
named_function t lfile fun l r_next addr i none = none
named_function t lfile fun l r_next addr i (some n) =
    line_search t lfile fun (record i { eip_fn_namelen = n })
      (stab_binsearch t.stabs 0x44 l r_next addr)

-- what follows the search for the function
function_found : Tables → (addr : ℕ) → (file fun : Region) → Looked
unfolding named_function name_len
function_found t addr file fun =
    let lfile = file.left_next - 1 in
    let e = t.stabs (fun.left_next - 1) in
    if leb fun.left_next fun.right_next
    then named_function t lfile fun (fun.left_next - 1) fun.right_next
        ((addr + (2 ^ 32 - e.n_value)) % 2 ^ 32)
        (record (unknown_info addr) { eip_fn_name = string_of t e; eip_fn_addr = e.n_value })
        (name_len t (string_of t e))
    else named_function t lfile fun lfile file.right_next addr (unknown_info addr) (some 9)

function_search : Tables → (addr : ℕ) → (file : Region) → Option Region → Looked
unfolding function_found
function_search t addr file none = none
function_search t addr file (some fun) = function_found t addr file fun

-- What follows the search for the file. An index of -1 is read from.
file_found : Tables → (addr : ℕ) → Option Region → Looked
unfolding function_search
file_found t addr none = none
file_found t addr (some file) =
    if file.left_next == 1
    then some (false, unknown_info addr)
    else if file.left_next == 0
    then none
    else function_search t addr file
        (stab_binsearch t.stabs 0x24 (file.left_next - 1) file.right_next addr)

-- the search, behind the checks on the string table
pub look_up : Tables → (addr : ℕ) → Looked
unfolding file_found
look_up t addr =
    if leb t.stabstr_end t.stabstr || not (t.mem (t.stabstr_end - 1) == 0)
    then some (false, unknown_info addr)
    else file_found t addr (stab_binsearch t.stabs 0x64 0 t.count addr)

-- a check of user memory, and what follows it
checked : (addr : ℕ) → Option (Option ℕ) → Looked → Looked
checked addr none rest = none
checked addr (some none) rest = rest
checked addr (some (some a)) rest = some (false, unknown_info addr)

-- `debuginfo_eip`, where `pd` is the directory of `curenv`; `user` are the tables that the header at
-- USTABDATA names, whose stabs begin at `stabs_at`
unfoldable pub debuginfo_eip :
    (kernel user : Tables) → (pd stabs_at : ℕ) → Phys → (addr : ℕ) → Looked
unfolding look_up checked
debuginfo_eip kernel user pd stabs_at s addr =
    if leb ulim addr
    then look_up kernel addr
    else checked addr (user_mem_check pd 0x20_0000 16 4 s) (
        checked addr (user_mem_check pd stabs_at 12 4 s) (
          checked addr
            (user_mem_check pd user.stabstr ((user.stabstr_end + (2 ^ 32 - user.stabstr)) % 2 ^ 32)
              4 s)
            (look_up user addr)))
