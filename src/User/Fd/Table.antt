-- ===== src/User/Fd/Table.antt =====
-- Which descriptor `fd_alloc` finds.
use oscourse.Base.{
  ℕ, zero, suc, ◌+◌, ◌<◌, Bool, true, false, ◌&&◌, ◌≡◌, ◌⊎◌, inl, inr, refl, subst, arith,
  Bool-cases,
}
use oscourse.User.Fd.{Space, max_open, ok, err, max_fd, index2fd, is_mapped, alloc_rounds, fd_alloc}

-- the descriptors `i`, `i + 1`, ..., `n` of them, are all in use
pub all_mapped : (n i : ℕ) → Space → Bool
all_mapped zero i s = true
all_mapped (suc n) i s = is_mapped (index2fd i) s && all_mapped n (i + 1) s

-- The rounds from `i` on end at the first descriptor that is not in use, `d` after `i`, or find all
-- in use.
Found : (n i : ℕ) → Space → Type 0
Found n i s =
    ((d : ℕ) × (d < n)
      × (all_mapped d i s ≡ true)
      × (is_mapped (index2fd (i + d)) s ≡ false)
      × (alloc_rounds n i s ≡ ok (index2fd (i + d))))
    ⊎ ((all_mapped n i s ≡ true) × (alloc_rounds n i s ≡ err max_open))

alloc_rounds-Found : (n i : ℕ) (s : Space) → Found n i s
unfolding Found alloc_rounds all_mapped
alloc_rounds-Found zero i s = inr (refl, refl)
alloc_rounds-Found (suc n) i s = elim (Bool-cases (is_mapped (index2fd i) s)) [
  | inr e ↦
      let z : i + 0 ≡ i = omega arith in inl (0, omega arith, refl, rw (z, e) refl, rw (z, e) refl)
  | inl e ↦ elim (alloc_rounds-Found n (i + 1) s) [
    | inl (d, lt, used, free_one, got) ↦
        let z : i + suc d ≡ i + 1 + d = omega arith in
        inl (suc d, omega arith, rw (e, used) refl, rw (z, free_one) refl, rw (z, e) got)
    | inr (used, got) ↦ inr (rw (e, used) refl, rw e got)
  ]
]

-- `fd_alloc` returns the smallest descriptor that is not in use, or reports
-- -E_MAX_OPEN if all MAXFD are in use.
pub fd_alloc-smallest :
    (s : Space)
    → ((d : ℕ) × (d < max_fd)
        × (all_mapped d 0 s ≡ true)
        × (is_mapped (index2fd d) s ≡ false)
        × (fd_alloc s ≡ ok (index2fd d)))
      ⊎ ((all_mapped max_fd 0 s ≡ true) × (fd_alloc s ≡ err max_open))
unfolding fd_alloc Found
fd_alloc-smallest s = elim (alloc_rounds-Found max_fd 0 s) [
  | inl (d, lt, used, free_one, got) ↦
      let z : 0 + d ≡ d = omega arith in
      inl (
        d,
        lt,
        used,
        subst (λ k. is_mapped (index2fd k) s ≡ false) z free_one,
        subst (λ k. alloc_rounds max_fd 0 s ≡ ok (index2fd k)) z got,
      )
  | inr r ↦ inr r
]
