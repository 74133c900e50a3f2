-- ===== src/User/Fd/Calls/Seek.antt =====
-- What `seek` on one descriptor does to the others.
use oscourse.Base.{ℕ, some, ◌≡◌, ap, ◌∙◌, update, update_self}
use oscourse.User.Fd.{Space, ok, index2fd, at_page, fd_at}
use oscourse.User.Fd.Close.{fd_lookup-mapped}
use oscourse.User.Fd.Calls.{seek, seek_found, set_offset}
use oscourse.User.Fd.Calls.Dup.{IsOpen}

sought : (offset p : ℕ) → Space → Space
sought offset p s = record s { fds = update s.fds p (record (s.fds p) { fd_offset = offset }) }

-- If two descriptors are open on the same page, then `seek` on the first succeeds and the second has
-- the new offset, and otherwise what it held.
pub seek-shared :
    (a b offset p : ℕ) (s : Space)
    → IsOpen s a p
    → IsOpen s b p
    → (s' : Space) × (seek a offset s ≡ (ok 0, s'))
      × (fd_at (index2fd b) s' ≡ some (record (s.fds p) { fd_offset = offset }))
unfolding seek seek_found set_offset sought
seek-shared a b offset p s first second = (
  sought offset p s,
  ap (λ r. seek_found r offset s) (fd_lookup-mapped a p s first.inside first.mapped)
      ∙ ap (λ o. (ok 0, set_offset o offset s)) first.mapped,
  ap (λ o. at_page o (sought offset p s)) second.mapped
      ∙ ap some (update_self s.fds p (record (s.fds p) { fd_offset = offset })),
)
