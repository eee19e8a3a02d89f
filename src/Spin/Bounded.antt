-- ===== src/Spin/Bounded.antt =====
-- How often the two loops poll.
use chess_rts.Base.{
  ap, ◌∙◌, ℕ, zero, suc, ◌+◌, ◌-◌, ◌≡◌, refl, Bool, true, false, some, if◌then◌else◌, arith, leb,
}
use chess_rts.Spin.{init_wait, drain_wait, vx_spin_wait}

-- One of the polls `k`, …, `k + n - 1` sees the flags clear.
pub idle_within : ℕ → (ℕ → Bool) → ℕ → Bool
idle_within zero busy k = false
idle_within (suc n) busy k = if busy k then idle_within n busy (k + 1) else true

init_wait_from :
    (fuel : ℕ) (busy : ℕ → Bool) (k timeout : ℕ)
    → suc fuel + k ≡ 4000
    → timeout ≡ 2000 - (k - 2000)
    → init_wait (suc fuel) busy k timeout k ≡ some (idle_within (suc fuel) busy k)
unfolding init_wait vx_spin_wait idle_within
init_wait_from zero busy k timeout e t = ground arith
init_wait_from (suc fuel) busy k timeout e t =
    ground (arith, init_wait_from fuel busy (k + 1) (if leb 2000 k then timeout - 1 else timeout))

-- 4,000 polls are enough fuel: the loop ends, and it has seen the flags clear exactly if one of
-- these polls did.
pub init_wait_lem :
    (busy : ℕ → Bool) → init_wait 4000 busy 0 2000 0 ≡ some (idle_within 4000 busy 0)
init_wait_lem busy = init_wait_from 3999 busy 0 2000 refl refl

-- The first poll already sees them clear.
pub init_wait_at_once :
    (busy : ℕ → Bool) → busy 0 ≡ false → init_wait 4000 busy 0 2000 0 ≡ some true
unfolding idle_within
init_wait_at_once busy e = init_wait_lem busy ∙ ap some (first busy 3999 e)
  where
    first : (busy : ℕ → Bool) (n : ℕ) → busy 0 ≡ false → idle_within (suc n) busy 0 ≡ true
    first busy n e = rw e refl

drain_wait_from :
    (fuel : ℕ) (busy : ℕ → Bool) (k timeout : ℕ)
    → suc fuel + k ≡ 4001
    → timeout ≡ 2000 - (k - 2000)
    → drain_wait (suc fuel) busy k timeout k ≡ some (idle_within (suc fuel) busy k)
unfolding drain_wait vx_spin_wait idle_within
drain_wait_from zero busy k timeout e t = ground arith
drain_wait_from (suc fuel) busy k timeout e t =
    ground (arith, drain_wait_from fuel busy (k + 1) (if leb 2000 k then timeout - 1 else timeout))

-- 4,001 polls are enough fuel for the wait before a window is closed or rebuilt: the loop ends, and
-- it has seen the flags clear exactly if one of these polls did.
pub drain_wait_lem :
    (busy : ℕ → Bool) → drain_wait 4001 busy 0 2000 0 ≡ some (idle_within 4001 busy 0)
drain_wait_lem busy = drain_wait_from 4000 busy 0 2000 refl refl
