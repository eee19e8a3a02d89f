-- ===== src/Host/Finish.antt =====
-- The wait for the Lua thread at the end of the program.
use chess_rts.Base.{
  ℕ, zero, suc, ◌+◌, ◌<◌, ◌≡◌, refl, true, false, none, some, arith, Bool-cases, inl, inr, ap, ◌∙◌,
}
use chess_rts.Base.Int.{ℤ, pos, eqb_ℤ}
use chess_rts.Spin.{vx_spin_wait}
use chess_rts.Host.{finish_wait}

finish_from :
    (n fuel : ℕ) (lua_finished : ℕ → ℤ) (k spin_count : ℕ)
    → eqb_ℤ (lua_finished (k + n)) (pos 0) ≡ false
    → n < fuel
    → (last : ℕ) × (finish_wait fuel lua_finished k spin_count ≡ some last)
unfolding finish_wait
finish_from n zero lf k c e lt = absurd (omega arith)
finish_from zero (suc fuel) lf k c e lt =
    let e' : eqb_ℤ (lf k) (pos 0) ≡ false =
      ap (λ i. eqb_ℤ (lf i) (pos 0)) {x = k} {y = k + 0} (omega arith) ∙ e in
    rw e' (c, refl)
finish_from (suc n) (suc fuel) lf k c e lt = elim (Bool-cases (eqb_ℤ (lf k) (pos 0))) [
  | inl clear ↦ rw clear (
      finish_from n fuel lf (k + 1) (vx_spin_wait c).1
        (ap (λ i. eqb_ℤ (lf i) (pos 0)) {x = k + 1 + n} {y = k + suc n} (omega arith) ∙ e)
        (omega arith))
  | inr set ↦ rw set (c, refl)
]

never_from :
    (fuel : ℕ) (lua_finished : ℕ → ℤ) (k spin_count : ℕ)
    → ((i : ℕ) → eqb_ℤ (lua_finished i) (pos 0) ≡ true)
    → finish_wait fuel lua_finished k spin_count ≡ none
unfolding finish_wait
never_from zero lf k c never = refl
never_from (suc fuel) lf k c never = rw (never k) (never_from fuel lf (k + 1) _ never)

-- The wait ends as soon as a poll sees the flag of the Lua thread: if poll `n` does, `n + 1` polls
-- are enough. If no poll sees it, the wait does not end, however long it goes on.
pub finish_wait_lem :
    (lua_finished : ℕ → ℤ)
    → ((n fuel : ℕ)
        → eqb_ℤ (lua_finished n) (pos 0) ≡ false
        → n < fuel
        → (last : ℕ) × (finish_wait fuel lua_finished 0 0 ≡ some last))
      × (((n : ℕ) → eqb_ℤ (lua_finished n) (pos 0) ≡ true)
          → (fuel : ℕ) → finish_wait fuel lua_finished 0 0 ≡ none)
finish_wait_lem lf = (
  λ n fuel e lt.
      finish_from n fuel lf 0 0
        (ap (λ i. eqb_ℤ (lf i) (pos 0)) {x = 0 + n} {y = n} (omega arith) ∙ e) lt,
  λ never fuel. never_from fuel lf 0 0 never,
)
