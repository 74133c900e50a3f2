-- ===== src/User/Fd/Close.antt =====
-- What closing descriptors leaves mapped.
use oscourse.Base.{
  ℕ, zero, suc, ◌+◌, ◌<◌, ◌≤◌, ◌≢◌, true, Option, none, some, ◌≡◌, inl, inr, refl, sym, ap, subst,
  ◌∙◌, arith, Bool-cases, Option-cases, ◌==◌, update_self, update_ne, lt→ltb, le→ltb, ==_refl,
}
use oscourse.User.Fd.{
  Fd, Space, inval, Answer, ok, err, max_fd, index2fd, index2data, fd2num, fd2data, is_mapped,
  fd_lookup, fd_at, Dev, dev_lookup, Devices, close_op, close_dev, close_file, close_found,
  fd_close, close_number, close, close_from, close_all,
}

-- Closing a descriptor, the devices unmap at most its page and its data page.
unfoldable pub IsLocal : Devices → Type 0
IsLocal devices =
    (dev : Dev) (op : ℕ → Space → Answer ℕ × Space)
    → devices.dev_close dev ≡ some op
    → (v u : ℕ) (s : Space) → u ≢ v
    → u ≢ fd2data v
    → (op v s).1.page u ≡ s.page u

pub fd_lookup-ok :
    (i v : ℕ) (s : Space)
    → fd_lookup i s ≡ ok v
    → (i < max_fd) × (v ≡ index2fd i) × (is_mapped (index2fd i) s ≡ true)
unfolding fd_lookup
fd_lookup-ok i v s h = (ground arith, ground arith, ground arith)

pub fd_lookup-mapped :
    (i p : ℕ) (s : Space)
    → i < max_fd
    → s.page (index2fd i) ≡ some p
    → fd_lookup i s ≡ ok (index2fd i)
unfolding fd_lookup
fd_lookup-mapped i p s inside e = rw (lt→ltb i max_fd inside, e) refl

pub fd_lookup-unmapped :
    (i : ℕ) (s : Space) → i < max_fd → s.page (index2fd i) ≡ none → fd_lookup i s ≡ err inval
unfolding fd_lookup
fd_lookup-unmapped i s inside e = rw (lt→ltb i max_fd inside, e) refl

pub close-out_of_range :
    (devices : Devices) (i : ℕ) (s : Space) → max_fd ≤ i → (close devices i s).1 ≡ s
unfolding close fd_lookup close_number
close-out_of_range devices i s h = rw (le→ltb i max_fd h) refl

fd2num-index2fd : (i : ℕ) → i < max_fd → fd2num (index2fd i) ≡ i
fd2num-index2fd i h = omega arith

fd2data-index2fd : (i : ℕ) → i < max_fd → fd2data (index2fd i) ≡ index2data i
fd2data-index2fd i h = omega arith

module _ (devices : Devices) (local : IsLocal devices) where
  close_op-kept :
      (dev : Dev) (o : Option (ℕ → Space → Answer ℕ × Space)) (v u : ℕ) (s : Space)
      → devices.dev_close dev ≡ o
      → u ≢ v
      → u ≢ fd2data v
      → (close_op devices o v s).1.page u ≡ s.page u
  unfolding close_op IsLocal
  close_op-kept dev none v u s e n m = refl
  close_op-kept dev (some op) v u s e n m = local dev op e v u s n m

  close_dev-kept :
      (a : Answer Dev) (v u : ℕ) (s : Space)
      → u ≢ v
      → u ≢ fd2data v
      → (close_dev devices a v s).1.page u ≡ s.page u
  unfolding close_dev
  close_dev-kept (err e) v u s n m = refl
  close_dev-kept (ok dev) v u s n m = close_op-kept dev (devices.dev_close dev) v u s refl n m

  close_file-kept :
      (o : Option Fd) (v u : ℕ) (s : Space)
      → u ≢ v
      → u ≢ fd2data v
      → (close_file devices o v s).1.page u ≡ s.page u
  unfolding close_file
  close_file-kept none v u s n m = refl
  close_file-kept (some fd) v u s n m = close_dev-kept (dev_lookup fd.fd_dev_id) v u s n m

  close_found-kept :
      (a : Answer ℕ) (v u : ℕ) (s : Space)
      → u ≢ v
      → u ≢ fd2data v
      → (close_found devices a v true s).1.page u ≡ s.page u
  unfolding close_found
  close_found-kept (err e) v u s n m = refl
  close_found-kept (ok w) v u s n m = elim (Bool-cases (v == w)) [
    | inl e ↦ rw e (
        update_ne (close_file devices (fd_at v s) v s).1.page v u none n
        ∙ close_file-kept (fd_at v s) v u s n m)
    | inr e ↦ rw e refl
  ]

  close_number-kept :
      (a : Answer ℕ) (i u : ℕ) (s : Space)
      → fd_lookup i s ≡ a
      → u ≢ index2fd i
      → u ≢ index2data i
      → (close_number devices a s).1.page u ≡ s.page u
  unfolding close_number fd_close fd_lookup
  close_number-kept (err e) i u s h n m = refl
  close_number-kept (ok v) i u s h n m =
      let (inside, at, mapped) = fd_lookup-ok i v s h in
      let at_data : fd2data v ≡ index2data i = omega arith in
      close_found-kept (fd_lookup (fd2num v) s) v u s (λ e. n (e ∙ at)) (λ e. m (e ∙ at_data))

  -- `close` leaves every page mapped but the descriptor's and its data.
  pub close-kept :
      (i u : ℕ) (s : Space)
      → u ≢ index2fd i
      → u ≢ index2data i
      → (close devices i s).1.page u ≡ s.page u
  unfolding close
  close-kept i u s n m = close_number-kept (fd_lookup i s) i u s refl n m

  close_found-closed : (v : ℕ) (s : Space) → (close_found devices (ok v) v true s).1.page v ≡ none
  unfolding close_found
  close_found-closed v s =
      rw (==_refl v) (update_self (close_file devices (fd_at v s) v s).1.page v none)

  close_number-closed :
      (a : Answer ℕ) (i : ℕ) (s : Space)
      → fd_lookup i s ≡ a
      → i < max_fd
      → (close_number devices a s).1.page (index2fd i) ≡ none
  unfolding close_number fd_close
  close_number-closed (err e) i s h inside = elim (Option-cases (s.page (index2fd i))) [
    | inl o ↦ o
    | inr (p, o) ↦ absurd (ground (arith, sym (fd_lookup-mapped i p s inside o) ∙ h))
  ]
  close_number-closed (ok v) i s h inside =
      let (below, at, mapped) = fd_lookup-ok i v s h in
      let num : fd2num v ≡ i = omega arith in
      let found : fd_lookup (fd2num v) s ≡ ok v = ap (λ k. fd_lookup k s) num ∙ h in
      subst (λ k. (fd_close devices v true s).1.page k ≡ none) at
        (ap (λ a. (close_found devices a v true s).1.page v) found ∙ close_found-closed v s)

  pub close-closed :
      (i : ℕ) (s : Space) → i < max_fd → (close devices i s).1.page (index2fd i) ≡ none
  unfolding close
  close-closed i s inside = close_number-closed (fd_lookup i s) i s refl inside

  close_from-kept :
      (n i u : ℕ) (s : Space)
      → i + n ≤ max_fd
      → u < i
      → (close_from devices n i s).page (index2fd u) ≡ s.page (index2fd u)
  unfolding close_from
  close_from-kept zero i u s fits before = refl
  close_from-kept (suc n) i u s fits before =
      let apart : index2fd u ≢ index2fd i = λ e. omega arith in
      let apart_data : index2fd u ≢ index2data i = λ e. omega arith in
      close_from-kept n (i + 1) u (close devices i s).1 (omega arith) (omega arith)
      ∙ close-kept i (index2fd u) s apart apart_data

  close_from-closed :
      (n i u : ℕ) (s : Space)
      → i + n ≤ max_fd
      → i ≤ u
      → u < i + n
      → (close_from devices n i s).page (index2fd u) ≡ none
  unfolding close_from
  close_from-closed zero i u s fits from below = absurd (omega arith)
  close_from-closed (suc n) i u s fits from below = elim (Bool-cases (u == i)) [
    | inl e ↦
        let at : u ≡ i = ground arith in
        close_from-kept n (i + 1) u (close devices i s).1 (omega arith) (omega arith)
        ∙ ap (λ k. (close devices i s).1.page (index2fd k)) at
        ∙ close-closed i s (omega arith)
    | inr e ↦
        let next : i + 1 ≤ u = ground arith in
        close_from-closed n (i + 1) u (close devices i s).1 (omega arith) next (omega arith)
  ]

  -- If the devices unmap at most the page of the descriptor that they close and its data page, then
  -- no descriptor below MAXFD is mapped after `close_all`.
  pub close_all-closed :
      (s : Space) (i : ℕ) → i < max_fd → (close_all devices s).page (index2fd i) ≡ none
  unfolding close_all
  close_all-closed s i inside =
      close_from-closed max_fd 0 i s (omega arith) (omega arith) (omega arith)
