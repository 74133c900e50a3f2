-- ===== src/Kern/Env/Lookup.antt =====
-- `envid2env`: which identifiers resolve, and to what; and the arithmetic of new identifiers.
use oscourse.Base.{
  ℕ, ◌+◌, ◌*◌, ◌/◌, ◌%◌, ◌^◌, ◌<◌, ◌≡◌, ap, sym, ◌∙◌, bit_or, ◌≢◌, Bool, false, not, ◌&&◌, some,
  arith,
}
use oscourse.Base.BitOr.{bit_or-fields}
use oscourse.Kern.Env.{Kernel, ok, is_free, envx, nenv, may_change, envid2env, generation, next_id}

-- An identifier that resolves is that of a live environment in the slot that it names, and passes
-- the permission test if that is asked for.
pub record Resolves (s : Kernel) (envid : ℕ) (checkperm : Bool) (i : ℕ) : Type 0 where
  pub slot : i ≡ envx envid
  pub current_id : (s.envs i).env_id ≡ envid
  pub live : is_free (s.envs i).env_status ≡ false
  pub allowed : (checkperm && not (may_change s i)) ≡ false

-- A nonzero identifier that `envid2env` resolves is that of a live environment in the slot that it
-- names, which passes the permission test if that is asked for.
pub envid2env_sound :
    (s : Kernel) (envid : ℕ) (checkperm : Bool) (i : ℕ)
    → envid ≢ 0
    → envid2env envid checkperm s ≡ ok (some i)
    → Resolves s envid checkperm i
unfolding envid2env
envid2env_sound s envid checkperm i nonzero h = ground arith

-- `envid2env` resolves every nonzero identifier of a live environment in the slot that it names,
-- if the permission test is passed or not asked for.
pub envid2env_complete :
    (s : Kernel) (envid : ℕ) (checkperm : Bool) (i : ℕ)
    → envid ≢ 0
    → Resolves s envid checkperm i
    → envid2env envid checkperm s ≡ ok (some i)
unfolding envid2env
envid2env_complete s envid checkperm i nonzero r =
    ground (arith, r.slot, r.current_id, r.live, r.allowed)

generation-multiple : (id : ℕ) → generation id % 2 ^ 10 ≡ 0
generation-multiple id = ground arith

pub next_id-sum : (id i : ℕ) → i < nenv → next_id id i ≡ generation id + i
unfolding next_id
next_id-sum id i h =
    let q = generation id / 2 ^ 10 in
    let e : generation id ≡ q * 2 ^ 10 = omega (arith, generation-multiple id) in
    ap (λ g. bit_or g i) e ∙ bit_or-fields 10 q i h ∙ ap (λ g. g + i) (sym e)

-- For a slot of the table whose last identifier is not negative as an int32_t, the new identifier
-- is positive, names its slot, and differs from the last one, after a wrap-around too.
pub next_id-fresh :
    (id i : ℕ)
    → i < nenv
    → id < 2 ^ 31
    → (0 < next_id id i) × (next_id id i < 2 ^ 31) × (envx (next_id id i) ≡ i) × (next_id id i ≢ id)
next_id-fresh id i h k = ground (arith, next_id-sum id i)
