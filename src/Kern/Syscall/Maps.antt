-- ===== src/Kern/Syscall/Maps.antt =====
-- Page directories of environments: what the system calls need of a source and a target address.
use oscourse.Base.{
  ℕ, ◌^◌, ◌≤◌, ◌<◌, ◌≡◌, ap, ◌∙◌, ◌≢◌, true, false, Option, none, some, List, arith,
}
use oscourse.Base.Bits.{test_bit}
use oscourse.Kern.Pmap.{Phys}
use oscourse.Kern.Pmap.FreeList.{IsFreeList}
use oscourse.Kern.Paging.{ptx}
use oscourse.Kern.Paging.Lookup.{HasTable, IsMapped, page_lookup-IsMapped}
use oscourse.Kern.Paging.Insert.{CanRefer, Inserted, page_insert-unmapped}
use oscourse.Kern.Syscall.{good_perm, insert_in, lookup_in}

-- In the directory `pd` a present table `f`, apart from it, does not map `va`.
pub record IsVacant (s : Phys) (dir : Option ℕ) (pd va f : ℕ) : Type 0 where
  pub directory : dir ≡ some pd
  pub table : HasTable s pd va f
  pub unmapped : test_bit (s.words f (ptx va)) 0 ≡ false
  pub apart : f ≢ pd
  pub small : s.npages ≤ 2 ^ 20

-- The directory `pd` maps the page `pg` at `va`, through the table `f`.
pub record IsShown (s : Phys) (dir : Option ℕ) (pd va f pg : ℕ) : Type 0 where
  pub directory : dir ≡ some pd
  pub mapped : IsMapped s pd va f pg

pub good_perm-lt : (perm : ℕ) → good_perm perm ≡ true → perm < 2 ^ 12
good_perm-lt perm h = ground arith

pub lookup_in-IsShown :
    (s : Phys) (dir : Option ℕ) (pd va f pg : ℕ)
    → IsShown s dir pd va f pg
    → lookup_in dir va s ≡ some (some (pg, (f, ptx va)), s)
lookup_in-IsShown s dir pd va f pg h =
    ap (λ d. lookup_in d va s) h.directory ∙ page_lookup-IsMapped s pd va f pg h.mapped

pub insert_in-IsVacant :
    (s : Phys) (dir : Option ℕ) (pd pp va perm f : ℕ) (xs : List ℕ)
    → IsVacant s dir pd va f
    → good_perm perm ≡ true
    → IsFreeList s xs
    → CanRefer s xs pp
    → (s' : Phys) × (insert_in dir pp va perm s ≡ some (true, s'))
      × Inserted s s' pd pp va perm f none
      × IsFreeList s' xs
insert_in-IsVacant s dir pd pp va perm f xs v good free can =
    let r =
      page_insert-unmapped s pd pp va perm f xs v.table v.unmapped v.apart v.small
        (good_perm-lt perm good) free can in
    (r.0, ap (λ d. insert_in d pp va perm s) v.directory ∙ r.1, r.2, r.3)
