-- ===== src/Kern/Lock/Exclusion.antt =====
-- At most one processor holds a spin lock, and nobody gets one that is locked from the start.
use oscourse.Base.{
  ℕ, ◌≢◌, ◌⊎◌, ◌==◌, if◌then◌else◌, ◌≡◌, inl, inr, refl, sym, ap, subst, ◌∙◌, arith, update,
  update_self, Bool-cases,
}
use oscourse.Kern.Lock.{
  Stage, outside, spinning, holding, LockState, spin_initlock, exchanged, spin_unlock, LockStep,
  enter, exchange, unlock, LockReach, begin, after,
}

-- A processor that holds the lock keeps it locked, and is the only one.
pub record IsExclusive (s : LockState) : Type 0 where
  pub keeps : (c : ℕ) → s.stage c ≡ holding → s.locked ≡ 1
  pub alone : (c d : ℕ) → s.stage c ≡ holding → s.stage d ≡ holding → c ≡ d

-- A processor that holds the lock after a step that makes `c` something else held it before.
held :
    (f : ℕ → Stage) (c d : ℕ) (g : Stage) → g ≢ holding → update f c g d ≡ holding → f d ≡ holding
unfolding update
held f c d g other h = ground arith

-- the one that leaves the loop, or one that held the lock before
held_or_new :
    (s : LockState) (c d : ℕ)
    → (exchanged c s).stage d ≡ holding
    → ((s.locked ≡ 0) × (c ≡ d)) ⊎ (s.stage d ≡ holding)
unfolding exchanged update
held_or_new s c d h = elim (Bool-cases (s.locked == 0)) [
  | inl e ↦
      let g : (if d == c then holding else s.stage d) ≡ holding =
        sym (ap (λ b. (if b then update s.stage c holding else s.stage) d) e) ∙ h in
      elim (Bool-cases (d == c)) [
        | inl same ↦ inl (ground arith, ground arith)
        | inr differ ↦ inr (sym (rw differ refl) ∙ g)
      ]
  | inr e ↦ inr (sym (ap (λ b. (if b then update s.stage c holding else s.stage) d) e) ∙ h)
]

step-IsExclusive : (s t : LockState) → LockStep s t → IsExclusive s → IsExclusive t
unfolding spin_unlock exchanged
step-IsExclusive s t (enter c out) x = record {
  keeps = λ d h. x.keeps d (held s.stage c d spinning (λ e. ground arith) h);
  alone = λ d e h g.
      x.alone d e (held s.stage c d spinning (λ q. ground arith) h)
        (held s.stage c e spinning (λ q. ground arith) g);
}
step-IsExclusive s t (exchange c spins) x = record {
  keeps = λ d h. refl;
  alone = λ d e h g. elim (held_or_new s c d h) [
    | inl (l, a) ↦ elim (held_or_new s c e g) [
      | inl (m, b) ↦ sym a ∙ b
      | inr b ↦ absurd (ground (arith, x.keeps e b))
    ]
    | inr a ↦ elim (held_or_new s c e g) [
      | inl (m, b) ↦ absurd (ground (arith, x.keeps d a))
      | inr b ↦ x.alone d e a b
    ]
  ];
}
step-IsExclusive s t (unlock c holds) x = record {
  keeps = λ d h.
      let before = held s.stage c d outside (λ q. ground arith) h in
      let same = x.alone c d holds before in
      absurd (
        ground (
          arith,
          sym (update_self s.stage c outside)
              ∙ subst (λ k. update s.stage c outside k ≡ holding) (sym same) h,
        ));
  alone = λ d e h g.
      x.alone d e (held s.stage c d outside (λ q. ground arith) h)
        (held s.stage c e outside (λ q. ground arith) g);
}

LockReach-IsExclusive : (s t : LockState) → LockReach s t → IsExclusive s → IsExclusive t
LockReach-IsExclusive s t begin x = x
LockReach-IsExclusive s t (after r step) x =
    step-IsExclusive _ t step (LockReach-IsExclusive s _ r x)

initial-IsExclusive : IsExclusive spin_initlock
unfolding spin_initlock
initial-IsExclusive = record {
  keeps = λ c h. absurd (ground arith);
  alone = λ c d h g. absurd (ground arith);
}

-- In every state that steps lead to from an initialised lock, in any order of the processors, two
-- processors that hold the lock are the same.
pub LockReach-exclusive :
    (t : LockState) (c d : ℕ)
    → LockReach spin_initlock t
    → t.stage c ≡ holding
    → t.stage d ≡ holding
    → c ≡ d
LockReach-exclusive t c d r h g =
    (LockReach-IsExclusive spin_initlock t r initial-IsExclusive).alone c d h g

-- The lock is locked, and nobody holds it.
pub record IsStuck (s : LockState) : Type 0 where
  pub stays_locked : s.locked ≡ 1
  pub nobody : (c : ℕ) → s.stage c ≢ holding

step-IsStuck : (s t : LockState) → LockStep s t → IsStuck s → IsStuck t
unfolding exchanged
step-IsStuck s t (enter c out) x = record {
  stays_locked = x.stays_locked;
  nobody = λ d h. x.nobody d (held s.stage c d spinning (λ e. ground arith) h);
}
step-IsStuck s t (exchange c spins) x = record {
  stays_locked = refl;
  nobody = λ d h. elim (held_or_new s c d h) [
    | inl (l, a) ↦ ground (arith, x.stays_locked)
    | inr a ↦ x.nobody d a
  ];
}
step-IsStuck s t (unlock c holds) x = absurd (x.nobody c holds)

-- From a lock that is locked while nobody holds it, no processor ever gets out of `spin_lock`.
pub LockReach-stuck : (s t : LockState) (c : ℕ) → IsStuck s → LockReach s t → t.stage c ≢ holding
LockReach-stuck s t c x begin = x.nobody c
LockReach-stuck s t c x (after r step) = (step-IsStuck _ t step (before r)).nobody c
  where
    before : {u : LockState} → LockReach s u → IsStuck u
    before begin = x
    before (after q st) = step-IsStuck _ _ st (before q)
