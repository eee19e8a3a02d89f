-- ===== src/Tests/Stream.antt =====
-- The packet ring at work: a slot acquired, a packet committed, and the round that takes it.
mod Scan
mod Contents
mod Windows
mod Rounds
mod Handshake
use chess_rts.Base.{
  ℕ, ◌+◌, ◌*◌, ◌<◌, ◌≤◌, ◌≡◌, ◌≢◌, refl, Bool, true, false, none, some, ◌⊎◌, inl, List, [], ◌∷◌,
  ◌++◌, arith, length, if◌then◌else◌, ltb,
}
use chess_rts.Base.Int.{ℤ, pos, minus_one}
use chess_rts.Base.Bits.{bit_at, bit_at-zero}
use chess_rts.State.{RenderRing, Globals}
use chess_rts.Ring.{
  moved, Round, quiet, slot_of_round, try_slot, acquire_loop, vx_stream_acquire, vx_stream_commit,
}
use chess_rts.Ring.Acquire.{AcquiredOk, Returns, acquire-AcquiredOk}
use chess_rts.Render.{frame_slots, idle, took, render_take}
use chess_rts.Render.Frame.{is_defined, image, FrameAnswers, Rendered, render_window}
use chess_rts.Render.Fifo.System.{System, IsFresh, Reach, start, later, acquire, commit}
use chess_rts.Render.Fifo.Order.{NotIn, taken-IsPrefix, holding_exclusive}
use chess_rts.Render.Fifo.Window.{Served, render_window-Served}
use chess_rts.Spin.Bounded.{idle_within, init_wait_lem, drain_wait_lem}
use chess_rts.Spin.{init_wait, drain_wait}
use chess_rts.Boot.{vx_init_mailbox, vx_stream_init}
use chess_rts.Boot.Fresh.{at_rest, Restarted, init_mailbox-IsFresh, stream_init-Restarted}
use chess_rts.Tests.{whole, fresh_ring, a_wsi, some_globals}

-- Another thread locks slot 5 just before the exchange.
abbrev interference : ℕ → Round
interference _ = record { loaded = none; attempts = moved 32 ∷ [] }

acquire-AcquiredOk_example :
    Returns
      (λ a.
        AcquiredOk (λ m. bit_at 1 m ≡ 0) 0 a.0 a.1.locked_mask
        × (a.1 ≡ record fresh_ring { locked_mask = a.1.locked_mask }))
      (vx_stream_acquire (pos 0) fresh_ring interference)
unfolding bit_at
acquire-AcquiredOk_example =
    acquire-AcquiredOk (λ m. bit_at 1 m ≡ 0) 0 0 fresh_ring interference (omega arith)
      (inl (refl, refl)) (bit_at-zero 1) (λ i. (refl, tt)) (λ i. tt)

fresh : IsFresh 0 2 (at_rest fresh_ring 0)
unfolding frame_slots
fresh = record {
  ready = refl;
  read = refl;
  active = λ f below. refl;
  bits = λ j below. bit_at-zero (0 * 4 + j);
  frame = omega arith;
  holding = refl;
  committed = refl;
  taken = refl;
}

acquired :
    vx_stream_acquire (pos 0) fresh_ring quiet ≡ some (pos 0, record fresh_ring { locked_mask = 1 })
unfolding vx_stream_acquire acquire_loop slot_of_round try_slot
acquired = refl

-- The Lua thread holds slot 0.
abbrev holding_one : System
holding_one = record (at_rest fresh_ring 0) {
  ring = record fresh_ring { locked_mask = 1 };
  holding = some 0;
}

Reach-holding : Reach 0 2 holding_one
Reach-holding = later (start fresh) (acquire refl acquired)

-- Slot 0 is committed and waits.
abbrev one_waiting : System
one_waiting = record holding_one {
  ring = vx_stream_commit (pos 0) (pos 0) holding_one.ring;
  holding = none;
  committed = pos 0 ∷ [];
}

Reach-waiting : Reach 0 2 one_waiting
Reach-waiting = later Reach-holding (commit refl)

taken-IsPrefix_example :
    (waiting : List ℤ) × (pos 0 ∷ [] ≡ one_waiting.taken ++ waiting) × (length waiting ≤ 4)
taken-IsPrefix_example =
    taken-IsPrefix {w = 0} {m = 2} {s = one_waiting} (omega arith) Reach-waiting

holding_exclusive_example :
    (bit_at 0 1 ≡ 1)
    × ((f : ℕ) → f < frame_slots 2 → minus_one ≢ pos 0)
    × ((waiting : List ℤ) × ([] ≡ [] ++ waiting) × NotIn (pos 0) waiting)
holding_exclusive_example =
    holding_exclusive {w = 0} {m = 2} {g = 0} {s = holding_one} (omega arith) Reach-holding refl

abbrev pub answers : FrameAnswers
answers = record { wait_times_out = false; acquire = image 1; submit_ok = true }

abbrev waiting_globals : Globals whole
waiting_globals = record some_globals { ring = one_waiting.ring }

answers-is_defined : is_defined answers.acquire ≡ true
unfolding is_defined
answers-is_defined = refl

render_window-Served_example :
    (r : Rendered whole) × (render_window answers 0 0 waiting_globals ≡ some r)
    × (((pos 0 ∷ [] ≡ []) × (r.globals ≡ waiting_globals) × (r.t_frame ≡ 0))
        ⊎ ((i : ℤ) × (rest : List ℤ) × (pos 0 ∷ [] ≡ i ∷ rest) × Served 0 i r))
render_window-Served_example =
    render_window-Served {w = 0} {s = one_waiting} answers waiting_globals answers-is_defined
      (omega arith) Reach-waiting refl

-- The flags are clear from the third poll on.
abbrev third_poll : ℕ → Bool
third_poll k = if ltb k 2 then true else false

stream_init-Restarted_example :
    (g' : Globals whole) × (vx_stream_init third_poll (pos 1) a_wsi some_globals ≡ some g')
    × Restarted 1 a_wsi some_globals g' (idle_within 4000 third_poll 0)
stream_init-Restarted_example = stream_init-Restarted third_poll 1 a_wsi some_globals (omega arith)
