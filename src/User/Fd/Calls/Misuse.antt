-- ===== src/User/Fd/Calls/Misuse.antt =====
-- lib/fd.c: duplicates of descriptors onto themselves and onto numbers that are out of range.
use oscourse.Base.{
  ℕ, ◌+◌, ◌<◌, Option, none, some, ◌≡◌, ap, subst, sym, ◌∙◌, arith, update, update_self, update_ne,
}
use oscourse.User.Fd.{
  Space, Failure, inval, ok, err, max_fd, index2fd, index2data, fd2data, fd_lookup, Devices, unmap,
  map_from, map_page, close,
}
use oscourse.User.Fd.Close.{IsLocal, fd_lookup-unmapped, close-closed, close-out_of_range}
use oscourse.User.Fd.Calls.{dup, dup_closed, dup_fd, dup_end}
use oscourse.User.Fd.Calls.Dup.{IsOpen, dup_data-DataShared, dup_closed-Shared, dup_found-ok}

map_page-unmapped :
    (refuses : ℕ → Option Failure) (from to : ℕ) (s : Space)
    → s.page from ≡ none
    → map_page refuses from to s ≡ err inval
unfolding map_page
map_page-unmapped refuses from to s e = ap (λ o. map_from (refuses to) to o s) e

module _ (devices : Devices) (refuses : ℕ → Option Failure) where
  -- If the devices unmap at most the page of the descriptor that they close and its data page, and
  -- the kernel does not refuse to map that data page, then `dup` of an open descriptor to itself
  -- reports -E_INVAL and leaves the descriptor closed.
  pub dup-itself :
      (fdnum p : ℕ) (s : Space)
      → IsLocal devices
      → IsOpen s fdnum p
      → refuses (index2data fdnum) ≡ none
      → (s' : Space) × (dup devices refuses fdnum fdnum s ≡ (err inval, s'))
        × (fd_lookup fdnum s' ≡ err inval)
  unfolding dup_closed dup_fd dup_end
  dup-itself fdnum p s local is_open r =
      let (m, got, fds, pages, _) =
        dup_data-DataShared devices refuses (fd2data (index2fd fdnum)) fdnum
          (close devices fdnum s).1 r in
      let gone : m.page (index2fd fdnum) ≡ none =
        pages (index2fd fdnum) (λ e. omega (arith, is_open.inside))
        ∙ close-closed devices local fdnum s is_open.inside in
      (
        unmap (index2data fdnum) (unmap (index2fd fdnum) m),
        dup_found-ok devices refuses fdnum fdnum p s is_open
            ∙ ap (λ k. dup_fd devices refuses (index2fd fdnum) fdnum k (close devices fdnum s).1)
                got
            ∙ ap (λ k. dup_end devices refuses fdnum k m)
                (map_page-unmapped refuses (index2fd fdnum) (index2fd fdnum) m gone),
        fd_lookup-unmapped fdnum _ is_open.inside (
            update_ne (update m.page (index2fd fdnum) none) (index2data fdnum) (index2fd fdnum) none
              (λ e. omega (arith, is_open.inside))
            ∙ update_self m.page (index2fd fdnum) none),
      )

  -- `dup` of an open descriptor to a number from MAXFD to 2 * MAXFD - 1, where the kernel refuses
  -- neither mapping, succeeds and maps the descriptor's page as the data page of a descriptor.
  pub dup-out_of_range :
      (oldfdnum p j : ℕ) (s : Space)
      → IsOpen s oldfdnum p
      → j < max_fd
      → refuses (index2data (max_fd + j)) ≡ none
      → refuses (index2fd (max_fd + j)) ≡ none
      → (s' : Space) × (dup devices refuses oldfdnum (max_fd + j) s ≡ (ok (max_fd + j), s'))
        × (s'.page (index2data j) ≡ some p)
  dup-out_of_range oldfdnum p j s is_open below r r' =
      let (s', done, fds, pages, _) =
        dup_closed-Shared devices refuses p (index2fd oldfdnum) (max_fd + j) s is_open.mapped
          (λ e. omega (arith, is_open.inside)) r r' in
      let same : index2fd (max_fd + j) ≡ index2data j = omega arith in
      (
        s',
        dup_found-ok devices refuses oldfdnum (max_fd + j) p s is_open
            ∙ ap (dup_closed devices refuses (index2fd oldfdnum) (max_fd + j))
                (close-out_of_range devices (max_fd + j) s (omega arith))
            ∙ done,
        pages (index2data j) (λ e. omega arith)
            ∙ subst (λ k. update s.page k (some p) (index2data j) ≡ some p) (sym same)
                (update_self s.page (index2data j) (some p)),
      )
