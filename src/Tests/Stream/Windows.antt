-- ===== src/Tests/Stream/Windows.antt =====
-- Two windows of the shared ring at work.
use chess_rts.Base.{ℕ, ◌+◌, ◌*◌, ◌<◌, refl, none, some, [], arith}
use chess_rts.Base.Bits.{bit_at-zero}
use chess_rts.State.{max_windows}
use chess_rts.Ring.{slot_of_round, try_slot, acquire_loop, vx_stream_acquire}
use chess_rts.Render.{frame_slots}
use chess_rts.Render.Fifo.System.{IsFresh, Reach, acquire}
use chess_rts.Render.Fifo.Windows.{Windows, view, put, AllReach, start, later, own}
use chess_rts.Render.Fifo.Windows.Alone.{AllReach-Reach}
use chess_rts.Tests.{fresh_ring}

abbrev pub all_fresh : Windows
all_fresh = record {
  ring = fresh_ring;
  t_frame = λ _. 0;
  holding = λ _. none;
  committed = λ _. [];
  taken = λ _. [];
}

pub view-IsFresh : (w : ℕ) → w < max_windows → IsFresh w 2 (view w all_fresh)
unfolding frame_slots
view-IsFresh w lt = record {
  ready = refl;
  read = refl;
  active = λ f below. refl;
  bits = λ j below. bit_at-zero (w * 4 + j);
  frame = omega arith;
  holding = refl;
  committed = refl;
  taken = refl;
}

-- The window's state once it holds its first slot, with the mask that is left.
abbrev pub with_slot : ℕ → ℕ → Windows → Windows
with_slot w mask s =
    put w
      (record (view w s) { ring = record (s.ring) { locked_mask = mask }; holding = some (w * 4) })
      s

-- The Lua thread holds slot 4 of window 1, and then slot 0 of window 0.
abbrev two_held : Windows
two_held = with_slot 0 17 (with_slot 1 16 all_fresh)

AllReach-two : AllReach (λ _. 2) two_held
unfolding vx_stream_acquire acquire_loop slot_of_round try_slot
AllReach-two =
    let one =
      later (start {s = all_fresh} view-IsFresh)
        (own {w = 1} (omega arith) (acquire refl refl) tt) in
    later one (own {w = 0} (omega arith) (acquire refl refl) tt)

AllReach-Reach_example : Reach 1 2 (view 1 two_held)
AllReach-Reach_example =
    AllReach-Reach {frames = λ _. 2} {s = two_held} {w = 1} (omega arith) AllReach-two
