-- ===== src/Kern/Trap/Frame.antt =====
-- kern/trap.c: the `struct UTrapframe` that page_fault_handler stores on the exception stack. The
-- kernel writes at user addresses through the page directory of the running environment; CR0_WP is
-- set, so that an entry that is not writable stops it.
pub mod Stored
use oscourse.Base.{
  ℕ, zero, suc, ◌+◌, ◌-◌, ◌*◌, ◌/◌, ◌%◌, ◌^◌, Bool, true, false, ◌&&◌, Option, none, some, List, [],
  ◌∷◌, leb, ◌==◌, if◌then◌else◌,
}
use oscourse.Base.Bits.{test_bit}
use oscourse.Kern.Pmap.{Phys, set_word}
use oscourse.Kern.Paging.{pdx, ptx, pgnum, pgoff, pte_p, pte_w}
use oscourse.Kern.Env.{Trapframe}
use oscourse.Kern.Syscall.{utop}

-- `sizeof(struct UTrapframe)`
abbrev pub utf_size : ℕ
utf_size = 52

-- UXSTACKTOP and `utf_addr`
abbrev pub uxstacktop : ℕ
uxstacktop = utop

unfoldable pub utf_addr : (esp : ℕ) → ℕ
utf_addr esp =
    if leb (uxstacktop - 2 ^ 12) esp && leb esp (uxstacktop - 1)
    then esp - utf_size - 4
    else uxstacktop - utf_size

-- the words of the `struct UTrapframe` for the frame `tf`, in their order
abbrev pub utf_words : (fault_va : ℕ) → Trapframe → List ℕ
utf_words fault_va tf =
    let r = tf.tf_regs in
    fault_va ∷ tf.tf_err ∷ r.reg_edi ∷ r.reg_esi ∷ r.reg_ebp ∷ r.reg_oesp ∷ r.reg_ebx ∷ r.reg_edx
    ∷ r.reg_ecx ∷ r.reg_eax ∷ tf.tf_eip ∷ tf.tf_eflags ∷ tf.tf_esp ∷ []

-- a page-table entry through which the kernel can write
abbrev pub lets_write : ℕ → Bool
lets_write entry = test_bit entry pte_p && test_bit entry pte_w

-- the frame that the address `va` leads to, for a write
unfoldable pub write_frame : (pd va : ℕ) → Phys → Option ℕ
write_frame pd va m =
    let table = pgnum (m.words pd (pdx va)) in
    if lets_write (m.words pd (pdx va)) && lets_write (m.words table (ptx va))
    then some (pgnum (m.words table (ptx va)))
    else none

-- the word `w` with byte `k` replaced
abbrev with_byte : (w k b : ℕ) → ℕ
with_byte w k b = w / 2 ^ (8 * (k + 1)) * 2 ^ (8 * (k + 1)) + b * 2 ^ (8 * k) + w % 2 ^ (8 * k)

byte_in : Option ℕ → (va b : ℕ) → Phys → Option Phys
byte_in none va b m = none
byte_in (some f) va b m =
    some (set_word m f (pgoff va / 4) (with_byte (m.words f (pgoff va / 4)) (va % 4) b))

abbrev pub then_store : Option Phys → (Phys → Option Phys) → Option Phys
then_store none k = none
then_store (some m) k = k m

-- the low `n` bytes of `v`, for a word that is not aligned, from `va` on
store_unaligned : (n pd va v : ℕ) → Phys → Option Phys
unfolding byte_in
store_unaligned zero pd va v m = some m
store_unaligned (suc n) pd va v m =
    then_store (byte_in (write_frame pd va m) va (v % 2 ^ 8) m)
      (store_unaligned n pd (va + 1) (v / 2 ^ 8))

pub word_in : Option ℕ → (va v : ℕ) → Phys → Option Phys
word_in none va v m = none
word_in (some f) va v m = some (set_word m f (pgoff va / 4) v)

-- a store of the word `v` at the address `va`; `none` is a page fault of the kernel, and its panic
unfoldable pub store_at : (pd va v : ℕ) → Phys → Option Phys
unfolding word_in store_unaligned
store_at pd va v m =
    if va % 4 == 0 then word_in (write_frame pd va m) va v m else store_unaligned 4 pd va v m

-- words one after the other, as the members of `utf`
unfoldable pub store_words : (pd va : ℕ) → List ℕ → Phys → Option Phys
store_words pd va [] m = some m
store_words pd va (v ∷ vs) m = then_store (store_at pd va v m) (store_words pd (va + 4) vs)

unfoldable pub store_frame : Option ℕ → (va : ℕ) → List ℕ → Phys → Option Phys
store_frame none va vs m = none
store_frame (some pd) va vs m = store_words pd va vs m
