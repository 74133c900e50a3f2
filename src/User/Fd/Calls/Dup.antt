-- ===== src/User/Fd/Calls/Dup.antt =====
-- Duplicates of descriptors: what dup does to the table of descriptors.
use oscourse.Base.{
  ℕ, ◌<◌, ◌≢◌, Option, none, some, ◌≡◌, inl, inr, refl, sym, ap, subst, ◌∙◌, arith, Bool-cases,
  Option-cases, ◌==◌, ==_iff, if◌then◌else◌, update, update_self, update_ne,
}
use oscourse.User.Fd.{
  Space, Failure, ok, max_fd, index2fd, index2data, fd2data, has_page, is_mapped, Devices, map_page,
  close,
}
use oscourse.User.Fd.Close.{IsLocal, fd_lookup-mapped, close-kept}
use oscourse.User.Fd.Calls.{dup, dup_found, dup_closed, dup_data, dup_fd, dup_end}

-- A descriptor below MAXFD is open on the physical page `p`.
pub record IsOpen (s : Space) (fdnum p : ℕ) : Type 0 where
  pub inside : fdnum < max_fd
  pub mapped : s.page (index2fd fdnum) ≡ some p

map_page-mapped :
    (refuses : ℕ → Option Failure) (from to p : ℕ) (s : Space)
    → s.page from ≡ some p
    → refuses to ≡ none
    → map_page refuses from to s ≡ ok (record s { page = update s.page to (some p) })
unfolding map_page
map_page-mapped refuses from to p s e r = rw (e, r) refl

updated :
    (t t' : ℕ → Option ℕ) (i u : ℕ) (v : Option ℕ) → t' u ≡ t u → update t' i v u ≡ update t i v u
unfolding update
updated t t' i u v e = ap (λ o. if u == i then v else o) e

-- The data page of descriptor `k` after `dup`: that of the old descriptor, if `k` is the new one and
-- the old one has any, and what it was for every other `k`.
abbrev pub DataAssigned : (oldfdnum newfdnum k : ℕ) → (s s' : Space) → Type 0
DataAssigned oldfdnum newfdnum k s s' =
    (if k == newfdnum
      then if is_mapped (index2data oldfdnum) s then s'.page (index2data newfdnum) else none
      else s'.page (index2data k))
    ≡ (if k == newfdnum then s.page (index2data oldfdnum) else s.page (index2data k))

module _ (devices : Devices) (refuses : ℕ → Option Failure) where
  -- Mapping the data page changes that page only, which becomes the page at `ova` if there is one.
  abbrev pub DataShared : (ova newfdnum : ℕ) → Space → Type 0
  DataShared ova newfdnum s =
      (s' : Space) × (dup_data devices refuses ova newfdnum s ≡ ok s')
      × (s'.fds ≡ s.fds)
      × ((u : ℕ) → u ≢ index2data newfdnum → s'.page u ≡ s.page u)
      × ((if is_mapped ova s then s'.page (index2data newfdnum) else none) ≡ s.page ova)

  pub dup_data-DataShared :
      (ova newfdnum : ℕ) (s : Space)
      → refuses (index2data newfdnum) ≡ none
      → DataShared ova newfdnum s
  unfolding dup_data
  dup_data-DataShared ova newfdnum s r = elim (Option-cases (s.page ova)) [
    | inl e ↦ (s, rw e refl, refl, λ u n. refl, rw e refl)
    | inr (p, e) ↦ (
      record s { page = update s.page (index2data newfdnum) (some p) },
      rw e (map_page-mapped refuses ova (index2data newfdnum) p s e r),
      refl,
      λ u n. update_ne s.page (index2data newfdnum) u (some p) n,
      rw e (update_self s.page (index2data newfdnum) (some p)),
    )
  ]

  -- `dup` behind `close`: the new descriptor is the page of the old one, and so is the data page if
  -- the old one has any.
  abbrev pub Shared : (p oldfd newfdnum : ℕ) → Space → Type 0
  Shared p oldfd newfdnum s =
      (s' : Space) × (dup_closed devices refuses oldfd newfdnum s ≡ (ok newfdnum, s'))
      × (s'.fds ≡ s.fds)
      × ((u : ℕ)
          → u ≢ index2data newfdnum
          → s'.page u ≡ update s.page (index2fd newfdnum) (some p) u)
      × ((if is_mapped (fd2data oldfd) s then s'.page (index2data newfdnum) else none)
          ≡ s.page (fd2data oldfd))

  pub dup_closed-Shared :
      (p oldfd newfdnum : ℕ) (s : Space)
      → s.page oldfd ≡ some p
      → oldfd ≢ index2data newfdnum
      → refuses (index2data newfdnum) ≡ none
      → refuses (index2fd newfdnum) ≡ none
      → Shared p oldfd newfdnum s
  unfolding dup_closed
  dup_closed-Shared p oldfd newfdnum s e apart r r' =
      let (m, got, same, kept, data_page) = dup_data-DataShared (fd2data oldfd) newfdnum s r in
      (
        record m { page = update m.page (index2fd newfdnum) (some p) },
        ap (λ k. dup_fd devices refuses oldfd newfdnum k s) got
            ∙ ap (λ k. dup_end devices refuses newfdnum k m)
                (map_page-mapped refuses oldfd (index2fd newfdnum) p m (kept oldfd apart ∙ e) r'),
        same,
        λ u n. updated s.page m.page (index2fd newfdnum) u (some p) (kept u n),
        ap (λ o. if is_mapped (fd2data oldfd) s then o else none)
              (update_ne m.page (index2fd newfdnum) (index2data newfdnum) (some p)
                (λ e. omega arith))
            ∙ data_page,
      )

  pub dup_found-ok :
      (oldfdnum newfdnum p : ℕ) (s : Space)
      → IsOpen s oldfdnum p
      → dup devices refuses oldfdnum newfdnum s
        ≡ dup_closed devices refuses (index2fd oldfdnum) newfdnum (close devices newfdnum s).1
  unfolding dup dup_found
  dup_found-ok oldfdnum newfdnum p s is_open =
      ap (λ a. dup_found devices refuses a newfdnum s)
        (fd_lookup-mapped oldfdnum p s is_open.inside is_open.mapped)

  -- what closing and mapping the descriptor's page do to the other descriptors
  page-dup :
      (newfdnum p k : ℕ) (s : Space) (o : Option ℕ)
      → IsLocal devices
      → newfdnum < max_fd
      → k < max_fd
      → o ≡ some p
      → update (close devices newfdnum s).1.page (index2fd newfdnum) (some p) (index2fd k)
        ≡ update (λ i. s.page (index2fd i)) newfdnum o k
  page-dup newfdnum p k s o local inside below e = elim (Bool-cases (k == newfdnum)) [
    | inl same ↦
        let at : k ≡ newfdnum = ground arith in
        subst
          (λ i.
            update (close devices newfdnum s).1.page (index2fd newfdnum) (some p) (index2fd i)
            ≡ update (λ j. s.page (index2fd j)) newfdnum o i)
          (sym at)
          (update_self (close devices newfdnum s).1.page (index2fd newfdnum) (some p)
            ∙ sym e
            ∙ sym (update_self (λ j. s.page (index2fd j)) newfdnum o))
    | inr other ↦
        let ne : k ≢ newfdnum = λ at. ground arith in
        let apart : index2fd k ≢ index2fd newfdnum = λ at. omega arith in
        let apart_data : index2fd k ≢ index2data newfdnum = λ at. omega arith in
        update_ne (close devices newfdnum s).1.page (index2fd newfdnum) (index2fd k) (some p) apart
        ∙ close-kept devices local newfdnum (index2fd k) s apart apart_data
        ∙ sym (update_ne (λ j. s.page (index2fd j)) newfdnum k o ne)
  ]

  -- what closing, and mapping the data page, do to the data pages
  data_page-dup :
      (oldfdnum newfdnum p k : ℕ) (s s' : Space)
      → IsLocal devices
      → oldfdnum < max_fd
      → newfdnum < max_fd
      → oldfdnum ≢ newfdnum
      → k < max_fd
      → ((u : ℕ)
          → u ≢ index2data newfdnum
          → s'.page u ≡ update (close devices newfdnum s).1.page (index2fd newfdnum) (some p) u)
      → (if is_mapped (fd2data (index2fd oldfdnum)) (close devices newfdnum s).1
          then s'.page (index2data newfdnum)
          else none)
        ≡ (close devices newfdnum s).1.page (fd2data (index2fd oldfdnum))
      → DataAssigned oldfdnum newfdnum k s s'
  data_page-dup oldfdnum newfdnum p k s s' local old inside apart below pages data_page =
      elim (Bool-cases (k == newfdnum)) [
        | inl same ↦
            let place : fd2data (index2fd oldfdnum) ≡ index2data oldfdnum = omega arith in
            let kept : (close devices newfdnum s).1.page (fd2data (index2fd oldfdnum))
                ≡ s.page (index2data oldfdnum) =
              close-kept devices local newfdnum (fd2data (index2fd oldfdnum)) s (λ at. omega arith)
                (λ at. apart (omega arith))
              ∙ ap s.page place in
            let at : k ≡ newfdnum = (==_iff k newfdnum).0 same in
            rw same (
              subst (λ o. (if has_page o then s'.page (index2data newfdnum) else none) ≡ o) kept
                data_page)
        | inr other ↦
            let ne : k ≢ newfdnum = λ at. ground (arith, other, at) in
            rw other (
              pages (index2data k) (λ at. ne (omega arith))
              ∙ update_ne (close devices newfdnum s).1.page (index2fd newfdnum) (index2data k)
                  (some p) (λ at. omega arith)
              ∙ close-kept devices local newfdnum (index2data k) s (λ at. omega arith)
                  (λ at. ne (omega arith)))
      ]

  -- If the old descriptor is open, the new one is another below MAXFD, the devices unmap at most the
  -- page of the descriptor that they close and its data page, and the kernel refuses neither mapping,
  -- then `dup` returns the new number, and on the table of descriptors it is one assignment: the new
  -- entry becomes the old one, and every other entry stays. So it is on the data pages, if the old
  -- descriptor has one; if it has none, those of the other descriptors stay.
  pub dup-assigns :
      (oldfdnum newfdnum p k : ℕ) (s : Space)
      → IsLocal devices
      → IsOpen s oldfdnum p
      → newfdnum < max_fd
      → oldfdnum ≢ newfdnum
      → refuses (index2data newfdnum) ≡ none
      → refuses (index2fd newfdnum) ≡ none
      → k < max_fd
      → (s' : Space) × (dup devices refuses oldfdnum newfdnum s ≡ (ok newfdnum, s'))
        × (s'.page (index2fd k)
            ≡ update (λ i. s.page (index2fd i)) newfdnum (s.page (index2fd oldfdnum)) k)
        × DataAssigned oldfdnum newfdnum k s s'
  dup-assigns oldfdnum newfdnum p k s local is_open inside apart r r' below =
      let kept : (close devices newfdnum s).1.page (index2fd oldfdnum) ≡ some p =
        close-kept devices local newfdnum (index2fd oldfdnum) s (λ e. omega (arith, is_open.inside))
          (λ e. omega (arith, is_open.inside))
        ∙ is_open.mapped in
      let (s', done, fds, pages, data_page) =
        dup_closed-Shared p (index2fd oldfdnum) newfdnum (close devices newfdnum s).1 kept
          (λ e. omega (arith, is_open.inside)) r r' in
      (
        s',
        dup_found-ok oldfdnum newfdnum p s is_open ∙ done,
        pages (index2fd k) (λ e. omega arith)
            ∙ page-dup newfdnum p k s (s.page (index2fd oldfdnum)) local inside below
                is_open.mapped,
        data_page-dup oldfdnum newfdnum p k s s' local is_open.inside inside apart below pages
            data_page,
      )
