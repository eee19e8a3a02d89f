-- ===== src/Host/Ledger.antt =====
-- How often a window is made and destroyed, and how many cells of the main loop's array hold it.
pub mod Rounds
use chess_rts.Base.{
  ℕ, zero, suc, ◌+◌, ◌≤◌, ◌<◌, ◌≡◌, ◌≢◌, ◌⊎◌, refl, inl, inr, Bool, true, false, ◌&&◌, not, Option,
  none, some, List, [], ◌∷◌, ◌++◌, if◌then◌else◌, ◌>>=◌, ◌==◌, ==_iff, arith, ap, ◌∙◌, sym,
  Bool-cases, update, update_self, update_ne, at_or_after,
}
use mathlib.Core.Path.{subst}
use chess_rts.Base.Int.{ℤ, pos, eqb_ℤ}
use chess_rts.State.{max_windows, Floats, Globals}
use chess_rts.Spin.Bounded.{drain_wait_lem}
use chess_rts.Boot.{vx_init_mailbox}
use chess_rts.Tenant.Loop.{
  Answers, Main, boot_window, kill_window, wants_boot, wants_kill, serve_command, notice_close,
  main_round,
}
use chess_rts.Host.{
  WindowCall, created, destroyed, window_calls, main_windows, MainRound, is_down, main_loop,
  finish_wait, close_windows, host_main,
}
use chess_rts.Host.Finish.{finish_wait_lem}

abbrev pub one_if : ℕ → ℕ → ℕ
one_if h x = if h == x then 1 else 0

-- How often window `h` is made and destroyed.
abbrev pub makes : ℕ → List WindowCall → ℕ
makes h [] = 0
makes h (created x ∷ calls) = one_if h x + makes h calls
makes h (destroyed x ∷ calls) = makes h calls

abbrev pub destroys : ℕ → List WindowCall → ℕ
destroys h [] = 0
destroys h (created x ∷ calls) = destroys h calls
destroys h (destroyed x ∷ calls) = one_if h x + destroys h calls

pub makes-append : (h : ℕ) (xs ys : List WindowCall) → makes h (xs ++ ys) ≡ makes h xs + makes h ys
makes-append h [] ys = omega arith
makes-append h (created x ∷ xs) ys = omega (arith, makes-append h xs ys)
makes-append h (destroyed x ∷ xs) ys = makes-append h xs ys

pub destroys-append :
    (h : ℕ) (xs ys : List WindowCall) → destroys h (xs ++ ys) ≡ destroys h xs + destroys h ys
destroys-append h [] ys = omega arith
destroys-append h (created x ∷ xs) ys = destroys-append h xs ys
destroys-append h (destroyed x ∷ xs) ys = omega (arith, destroys-append h xs ys)

-- How many of the windows from `i` on, with `left` of them, are `h`.
abbrev pub open_from : ℕ → ℕ → ℕ → (ℕ → ℕ) → ℕ
open_from h zero i windows = 0
open_from h (suc left) i windows = one_if h (windows i) + open_from h left (i + 1) windows

open_outside :
    (h left i id x : ℕ) (f : ℕ → ℕ)
    → (id < i) ⊎ (i + left ≤ id)
    → open_from h left i (update f id x) ≡ open_from h left i f
open_outside h zero i id x f out = refl
open_outside h (suc left) i id x f out =
    let rest = open_outside h left (i + 1) id x f (ground arith) in ground (arith, rest)

open_here :
    (h left i x : ℕ) (f : ℕ → ℕ)
    → open_from h (suc left) i (update f i x) + one_if h (f i)
      ≡ open_from h (suc left) i f + one_if h x
open_here h left i x f =
    rw (update_self f i x, open_outside h left (i + 1) i x f (inl (omega arith))) (omega arith)

-- A cell that changes changes the count.
pub open_update :
    (h left i id x : ℕ) (f : ℕ → ℕ)
    → i ≤ id
    → id < i + left
    → open_from h left i (update f id x) + one_if h (f id) ≡ open_from h left i f + one_if h x
open_update h zero i id x f lo hi = absurd (omega arith)
open_update h (suc left) i id x f lo hi = elim (at_or_after i id lo) [
  | inl here ↦
      subst
        (λ k.
          open_from h (suc left) i (update f k x) + one_if h (f k)
          ≡ open_from h (suc left) i f + one_if h x)
        here (open_here h left i x f)
  | inr after ↦
      let rest = open_update h left (i + 1) id x f after (omega arith) in
      rw (update_ne f id i x (λ e. absurd (omega (arith, e)))) (omega (arith, rest))
]

abbrev pub open_windows : ℕ → (ℕ → ℕ) → ℕ
open_windows h windows = open_from h max_windows 0 windows

-- What was open and is made is what is destroyed and is left open.
abbrev pub Balanced : {fl : Floats} → ℕ → Main fl → Main fl → List WindowCall → Type 0
Balanced h m m' calls =
    open_windows h m.windows + makes h calls ≡ destroys h calls + open_windows h m'.windows
