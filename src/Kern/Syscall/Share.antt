-- ===== src/Kern/Syscall/Share.antt =====
-- What `sys_page_alloc` and `sys_page_map` map when they succeed, and the permissions that
-- `sys_page_map` does not grant.
use oscourse.Base.{
  ℕ, ◌<◌, ◌≡◌, refl, ap, ◌∙◌, ◌≢◌, true, false, not, ◌||◌, Option, none, some, List, ◌∷◌, arith,
  ltb, update, update_self, if◌then◌else◌, lt→ltb,
}
use oscourse.Base.Bits.{test_bit}
use oscourse.Kern.Pmap.{Phys, page_alloc}
use oscourse.Kern.Pmap.FreeList.{IsFreeList, Allocated, idle, page_alloc-cons}
use oscourse.Kern.Paging.{ptx, pdx, page_lookup}
use oscourse.Kern.Paging.Insert.{CanRefer, Inserted}
use oscourse.Kern.Env.{Kernel, ok, err, inval, envid2env}
use oscourse.Kern.Syscall.{
  utop, good_perm, good_map, on_env, exceeds, lookup_in, after_insert, map_found, map_new,
  mapped_new, sys_page_alloc, sys_page_map,
}
use oscourse.Kern.Syscall.Maps.{IsVacant, IsShown, lookup_in-IsShown, insert_in-IsVacant}

-- `sys_page_map` once its identifiers, addresses and permissions are accepted
map_accepted :
    (s : Kernel) (srcenvid srcva dstenvid dstva perm i j pd f pg : ℕ)
    → envid2env srcenvid true s ≡ ok (some i)
    → envid2env dstenvid true s ≡ ok (some j)
    → good_map srcva dstva perm ≡ true
    → IsShown s.phys (s.envs i).env_pgdir pd srcva f pg
    → sys_page_map srcenvid srcva dstenvid dstva perm s
      ≡ map_found dstva perm j s (some (some (pg, (f, ptx srcva)), s.phys))
unfolding sys_page_map
map_accepted s srcenvid srcva dstenvid dstva perm i j pd f pg src dst good shown =
    ap
      (on_env s (λ i.
        on_env s
          (λ j.
            if good_map srcva dstva perm
            then map_found dstva perm j s (lookup_in (s.envs i).env_pgdir srcva s.phys)
            else some (err inval, s))
          (envid2env dstenvid true s)))
      src
    ∙ ap
        (on_env s (λ j.
          if good_map srcva dstva perm
          then map_found dstva perm j s (lookup_in (s.envs i).env_pgdir srcva s.phys)
          else some (err inval, s)))
        dst
    ∙ rw good (
        ap (map_found dstva perm j s)
          (lookup_in-IsShown s.phys (s.envs i).env_pgdir pd srcva f pg shown))

-- Let both identifiers resolve for the caller, the addresses and permissions be accepted, the
-- source map the page `pg` with at least these permissions, the target be an address that a present
-- table does not map, the free list be well formed, and `pg` not be on it and have room for another
-- reference. Then `sys_page_map` succeeds: a lookup in the target finds `pg`, only
-- that entry changes, only `pg` gains a reference, and the free list stays.
pub sys_page_map-Shared :
    (s : Kernel) (srcenvid srcva dstenvid dstva perm i j pd f pg pd' f' : ℕ) (xs : List ℕ)
    → envid2env srcenvid true s ≡ ok (some i)
    → envid2env dstenvid true s ≡ ok (some j)
    → good_map srcva dstva perm ≡ true
    → IsShown s.phys (s.envs i).env_pgdir pd srcva f pg
    → exceeds s perm (f, ptx srcva) ≡ false
    → IsVacant s.phys (s.envs j).env_pgdir pd' dstva f'
    → IsFreeList s.phys xs
    → CanRefer s.phys xs pg
    → (m : Phys) × (sys_page_map srcenvid srcva dstenvid dstva perm s
        ≡ some (ok 0, record s { phys = m }))
      × Inserted s.phys m pd' pg dstva perm f' none
      × IsFreeList m xs
unfolding map_found
sys_page_map-Shared s srcenvid srcva dstenvid dstva perm i j pd f pg pd' f' xs src dst good shown
      fits vacant free can =
    let ok_perm : good_perm perm ≡ true = ground arith in
    let r =
      insert_in-IsVacant s.phys (s.envs j).env_pgdir pd' pg dstva perm f' xs vacant ok_perm free
        can in
    (
      r.0,
      map_accepted s srcenvid srcva dstenvid dstva perm i j pd f pg src dst good shown
          ∙ rw fits (ap (after_insert s (λ t. t)) r.1),
      r.2,
      r.3,
    )

-- If `perm` asks to write and the source's entry is read-only, `sys_page_map` reports -E_INVAL and
-- changes nothing, though identifiers, addresses and permissions are otherwise accepted.
pub sys_page_map-read_only :
    (s : Kernel) (srcenvid srcva dstenvid dstva perm i j pd f pg : ℕ)
    → envid2env srcenvid true s ≡ ok (some i)
    → envid2env dstenvid true s ≡ ok (some j)
    → good_map srcva dstva perm ≡ true
    → IsShown s.phys (s.envs i).env_pgdir pd srcva f pg
    → test_bit perm 1 ≡ true
    → test_bit (s.phys.words f (ptx srcva)) 1 ≡ false
    → sys_page_map srcenvid srcva dstenvid dstva perm s ≡ some (err inval, s)
unfolding map_found
sys_page_map-read_only s srcenvid srcva dstenvid dstva perm i j pd f pg src dst good shown asks
      read_only =
    map_accepted s srcenvid srcva dstenvid dstva perm i j pd f pg src dst good shown
    ∙ rw (asks, read_only) refl

Allocated-IsVacant :
    (s m : Phys) (dir : Option ℕ) (pd va f p : ℕ) (xs : List ℕ)
    → Allocated s m true p xs
    → p ≢ pd
    → p ≢ f
    → IsVacant s dir pd va f
    → IsVacant m dir pd va f
Allocated-IsVacant s m dir pd va f p xs a apart apart' v =
    let e : m.words pd (pdx va) ≡ s.words pd (pdx va) = ground (arith, a.words_after pd (pdx va)) in
    let e' : m.words f (ptx va) ≡ s.words f (ptx va) = ground (arith, a.words_after f (ptx va)) in
    record {
      directory = v.directory;
      table = record {
        present = rw e v.table.present;
        frame = rw e v.table.frame;
        inside = rw a.npages_kept v.table.inside;
      };
      unmapped = rw e' v.unmapped;
      apart = v.apart;
      small = rw a.npages_kept v.small;
    }

new_page :
    (s m m' : Phys) (pd va perm f p : ℕ) (xs : List ℕ)
    → Allocated s m true p xs
    → p ≢ f
    → Inserted m m' pd p va perm f none
    → ((k : ℕ) → m'.words p k ≡ 0) × ((m'.pages p).pp_ref ≡ 1)
unfolding update
new_page s m m' pd va perm f p xs a apart ins = (
  λ k. ground (arith, ins.entries p k, a.words_after p k),
  ground (arith, ins.counts p, a.pages_after p),
)

-- Let `envid` resolve for the caller to an environment whose present table does not map `va` below
-- UTOP, `perm` be accepted, the free list be well formed, and `p` be the first free page, apart from that directory and table.
-- Then `sys_page_alloc` succeeds: a lookup finds `p`, filled with zeros and with one reference, and
-- the other free pages stay free. Nothing is asked of the alignment of `va`.
pub sys_page_alloc-Mapped :
    (s : Kernel) (envid va perm i pd f p : ℕ) (xs : List ℕ)
    → envid2env envid true s ≡ ok (some i)
    → va < utop
    → good_perm perm ≡ true
    → IsVacant s.phys (s.envs i).env_pgdir pd va f
    → IsFreeList s.phys (p ∷ xs)
    → p ≢ pd
    → p ≢ f
    → (m : Phys) × (sys_page_alloc envid va perm s ≡ some (ok 0, record s { phys = m }))
      × (page_lookup pd va m ≡ some (some (p, (f, ptx va)), m))
      × ((k : ℕ) → m.words p k ≡ 0)
      × ((m.pages p).pp_ref ≡ 1)
      × IsFreeList m xs
unfolding sys_page_alloc
sys_page_alloc-Mapped s envid va perm i pd f p xs found low good vacant free apart apart' =
    let got = page_alloc-cons s.phys p xs true free in
    let a = got.2 in
    let at = a.pages_after p ∙ update_self s.phys.pages p idle in
    let can : CanRefer got.0 xs p = record {
      inside = rw a.npages_kept free.bounded.0;
      out = a.out;
      room = rw at (omega arith);
    } in
    let r =
      insert_in-IsVacant got.0 (s.envs i).env_pgdir pd p va perm f xs
        (Allocated-IsVacant s.phys got.0 (s.envs i).env_pgdir pd va f p xs a apart apart' vacant)
        good a.rest can in
    let n = new_page s.phys got.0 r.0 pd va perm f p xs a apart' r.2 in
    (
      r.0,
      ap
            (on_env s (λ i.
              if not (ltb va utop) || not (good_perm perm)
              then some (err inval, s)
              else map_new va perm i s (page_alloc true s.phys)))
            found
          ∙ rw (lt→ltb va utop low, good)
              (ap (map_new va perm i s) got.1 ∙ ap (mapped_new s p) r.1),
      r.2.found,
      n.0,
      n.1,
      r.3,
    )
