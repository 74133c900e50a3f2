-- ===== src/Kern/Boot/Chunks.antt =====
-- The chunks that `boot_alloc` hands out.
use oscourse.Base.{
  ℕ, ◌+◌, ◌-◌, ◌*◌, ◌/◌, ◌%◌, ◌^◌, ◌≤◌, ◌<◌, ◌≡◌, refl, false, none, some, leb, ◌==◌, if◌then◌else◌,
  arith,
}
use oscourse.Kern.EntryPgdir.{kernbase}
use oscourse.Kern.UserMem.{round_up}
use oscourse.Kern.Boot.{boot_alloc}

-- the limit of `boot_alloc`
abbrev pub limit : ℕ → ℕ
limit npages = (kernbase + npages * 2 ^ 12) % 2 ^ 32

-- For a request of `n` bytes, not 0, from the page boundary `nextfree`, that ends a page before the
-- end of the address space: `boot_alloc` returns `nextfree` and moves it to the first page boundary
-- that is not before the end of the request, or it panics, if that boundary is not below the limit.
pub boot_alloc-chunk :
    (kernel_end npages n q : ℕ)
    → 0 < q
    → 0 < n
    → q * 2 ^ 12 + n + 2 ^ 12 ≤ 2 ^ 32
    → let f = q * 2 ^ 12 in
      let next = (q + (n + 2 ^ 12 - 1) / 2 ^ 12) * 2 ^ 12 in
      (boot_alloc kernel_end npages n f
        ≡ (if leb (limit npages) next then none else some (f, next)))
      × (f + n ≤ next)
      × (next < f + n + 2 ^ 12)
unfolding boot_alloc
boot_alloc-chunk kernel_end npages n q p h room =
    let f = q * 2 ^ 12 in
    let started : (f == 0) ≡ false = ground arith in
    let some_bytes : (n == 0) ≡ false = ground arith in
    let next : (f + round_up n) % 2 ^ 32 ≡ (q + (n + 2 ^ 12 - 1) / 2 ^ 12) * 2 ^ 12 = omega arith in
    (rw (started, some_bytes, next) refl, omega arith, omega arith)
