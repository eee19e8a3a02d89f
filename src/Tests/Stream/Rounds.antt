-- ===== src/Tests/Stream/Rounds.antt =====
-- A round of the render thread, and the loop of four, with a packet waiting in window 0.
use chess_rts.Base.{◌≡◌, refl, false, some, none, List, [], ◌∷◌, arith}
use chess_rts.Base.Int.{pos}
use chess_rts.Ring.{slot_of_round, try_slot, acquire_loop, vx_stream_acquire, vx_stream_commit}
use chess_rts.State.{Globals}
use chess_rts.Render.Fifo.System.{acquire, commit}
use chess_rts.Render.Fifo.Windows.{Windows, view, put, AllReach, start, later, own}
use chess_rts.Render.Frame.{is_defined}
use chess_rts.Render.Round.{
  Rounded, RoundAnswers, AllDefined, render_round, is_stopped, render_thread_loop,
}
use chess_rts.Render.Round.Window.{Matches}
use chess_rts.Render.Round.Take.{RoundOk, render_round-RoundOk}
use chess_rts.Render.Round.Drain.{undisturbed, EachDefined, Drained, render_thread_loop-Drained}
use chess_rts.Render.Round.Acquire.{Refilled, vx_stream_acquire-render_thread_loop}
use chess_rts.Tests.{whole, some_globals}
use chess_rts.Tests.Stream.{answers}
use chess_rts.Tests.Stream.Windows.{all_fresh, view-IsFresh, with_slot}

-- Slot 4 of window 1 is committed.
abbrev one_committed : Windows
one_committed =
    put 1
      (record (view 1 (with_slot 1 16 all_fresh)) {
        ring = vx_stream_commit (pos 1) (pos 4) (with_slot 1 16 all_fresh).ring;
        holding = none;
        committed = pos 4 ∷ [];
      })
      (with_slot 1 16 all_fresh)

AllReach-one : AllReach (λ _. 2) one_committed
unfolding vx_stream_acquire acquire_loop slot_of_round try_slot
AllReach-one =
    let held =
      later (start {s = all_fresh} view-IsFresh)
        (own {w = 1} (omega arith) (acquire refl refl) tt) in
    later held (own {w = 1} (omega arith) (commit refl) tt)

abbrev globals_one : Globals whole
globals_one = record some_globals { ring = one_committed.ring }

globals-Matches : Matches (λ _. 2) one_committed (λ _. 0) globals_one
globals-Matches = record { ring = refl; wsi = λ v. refl; frame = λ v. ground arith }

abbrev idle_waits : RoundAnswers
idle_waits = record { busy = λ _ _. false; frames = λ _. answers }

idle_waits-AllDefined : AllDefined idle_waits
unfolding is_defined
idle_waits-AllDefined w = refl

render_round-RoundOk_example :
    (r : Rounded whole) × (after : Windows) × (render_round idle_waits (λ _. 0) globals_one
      ≡ some r)
    × RoundOk (λ _. 2) one_committed after globals_one r
render_round-RoundOk_example =
    render_round-RoundOk {s = one_committed} idle_waits globals_one idle_waits-AllDefined
      AllReach-one globals-Matches

is_running : is_stopped globals_one ≡ false
unfolding is_stopped
is_running = refl

abbrev four_rounds : List RoundAnswers
four_rounds = idle_waits ∷ idle_waits ∷ idle_waits ∷ idle_waits ∷ []

four_rounds-EachDefined : EachDefined four_rounds
four_rounds-EachDefined = let all = idle_waits-AllDefined in (all, (all, (all, (all, tt))))

render_thread_loop-Drained_example :
    Drained
      (λ _. 2)
      one_committed
      (render_thread_loop (undisturbed four_rounds) (λ _. 0) globals_one)
render_thread_loop-Drained_example =
    render_thread_loop-Drained {s = one_committed} four_rounds (λ _. 0) globals_one
      four_rounds-EachDefined (omega arith) is_running AllReach-one globals-Matches

vx_stream_acquire-render_thread_loop_example :
    Refilled 1 (render_thread_loop (undisturbed four_rounds) (λ _. 0) globals_one)
vx_stream_acquire-render_thread_loop_example =
    vx_stream_acquire-render_thread_loop {s = one_committed} 1 four_rounds (λ _. 0) globals_one
      (omega arith) refl four_rounds-EachDefined (omega arith) is_running AllReach-one
      globals-Matches
