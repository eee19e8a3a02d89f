-- ===== src/Tests/Stream/Scan.antt =====
-- A call of `vx_stream_acquire` that is overtaken by the render thread.
use chess_rts.Base.{◌<◌, ◌≡◌, refl, none, [], ◌∷◌, arith, inr}
use chess_rts.Base.Int.{pos}
use chess_rts.Ring.{slot_of_round, try_slot, vx_stream_commit}
use chess_rts.Render.{frame_slots, new_local_read, finish_slot, unlock, store_active, take_oldest}
use chess_rts.Render.Fifo.System.{Reach}
use chess_rts.Render.Fifo.Scan.{
  Scanning, ScanReach, start, later, begin, hit, miss, commit, look, take,
}
use chess_rts.Render.Fifo.Scan.Refine.{ScanReach-Reach}
use chess_rts.Boot.Fresh.{at_rest}
use chess_rts.Tests.{fresh_ring}
use chess_rts.Tests.Stream.{fresh, holding_one}

Reach-hit : ScanReach 0 2 1 (record { sys = holding_one; scan = none; seen = none })
unfolding slot_of_round try_slot
Reach-hit = later (later (start fresh) (begin refl refl)) (hit refl (omega arith) refl refl)

ScanReach-Reach_example : Reach 0 2 holding_one
ScanReach-Reach_example =
    ScanReach-Reach {w = 0} {m = 2} {s = record { sys = holding_one; scan = none; seen = none }}
      (omega arith) Reach-hit

one_five : 1 < 5
one_five = omega arith

two_five : 2 < 5
two_five = omega arith

zero_two : 0 < 2
zero_two = omega arith

one_two : 1 < 2
one_two = omega arith

empty_ring : ScanReach 0 2 2 (record { sys = at_rest fresh_ring 0; scan = none; seen = none })
empty_ring = start fresh

-- With two packets taken after the first round of a call it finds slot 1 before slot 0: what is
-- committed is then not what is taken.
two_overtake :
    (s : Scanning) × ScanReach 0 2 2 s
    × (s.sys.committed ≡ pos 0 ∷ pos 1 ∷ pos 2 ∷ pos 3 ∷ pos 1 ∷ [])
    × (s.sys.taken ≡ pos 0 ∷ pos 1 ∷ pos 2 ∷ pos 3 ∷ pos 0 ∷ [])
unfolding slot_of_round try_slot vx_stream_commit take_oldest store_active frame_slots
    new_local_read finish_slot unlock
two_overtake =
    let r0 =
      later (later (later empty_ring (begin refl refl)) (hit refl one_five refl refl))
        (commit refl) in
    let r1 =
      later (later (later r0 (begin refl refl)) (hit refl one_five refl refl)) (commit refl) in
    let r2 =
      later (later (later r1 (begin refl refl)) (hit refl one_five refl refl)) (commit refl) in
    let r3 =
      later (later (later r2 (begin refl refl)) (hit refl one_five refl refl)) (commit refl) in
    let r4 =
      later (later (later (later r3 (look refl)) (take refl refl tt refl)) (look refl))
        (take refl refl tt refl) in
    let r5 = later (later r4 (begin refl refl)) (miss refl one_five refl refl) in
    let r6 =
      later (later (later (later r5 (look refl)) (take refl refl (inr zero_two) refl)) (look refl))
        (take refl refl (inr one_two) refl) in
    let r7 = later (later r6 (hit refl two_five refl refl)) (commit refl) in
    (_, later (later r7 (look refl)) (take refl refl tt refl), refl, refl)
