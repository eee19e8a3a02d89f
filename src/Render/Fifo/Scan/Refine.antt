-- ===== src/Render/Fifo/Scan/Refine.antt =====
-- With at most one packet taken after the first round, the threads do what they do with calls that
-- are single steps.
use chess_rts.Base.{ℕ, suc, ◌<◌, refl, inl, arith, sym, ◌∙◌}
use chess_rts.State.{max_windows}
use chess_rts.Render.{frame_slots}
use chess_rts.Render.Fifo.System.{System, SameWindow, Reach}
use chess_rts.Render.Fifo.System
use chess_rts.Render.Fifo.Inv.{Inv, fresh-Inv}
use chess_rts.Render.Fifo.Producer.{commit-Inv, elsewhere-Inv}
use chess_rts.Render.Fifo.Steps.{acquire_step, take_step}
use chess_rts.Render.Fifo.Scan.{
  Scanning, ScanStep, begin, hit, miss, give_up, commit, look, skip, take, elsewhere, ScanReach,
  start, later,
}
use chess_rts.Render.Fifo.Scan.Call.{
  ScanOk, tried_failed, hit_acquires, next-CallOk, same_call, no_call, on_call, taken_call,
}
use chess_rts.Render.Fifo.Scan.Seen.{SeenOk, nothing_seen, seen_now, seen_before, seen_take}

-- What the steps keep: the same state is one that atomic calls reach.
record Refined (w m : ℕ) (s : Scanning) : Type 0 where
  done : ℕ
  read : ℕ
  reach : Reach w m s.sys
  inv : Inv w (frame_slots m) done read s.sys
  call : ScanOk w (frame_slots m) done read s.sys s.scan
  seen : SeenOk w done read s.seen

module _ {w m : ℕ} (lt : w < max_windows) where
  ScanStep-Refined : {s t : Scanning} → ScanStep w m 1 s t → Refined w m s → Refined w m t
  ScanStep-Refined {s} (begin e q) v = record {
    done = v.done;
    read = v.read;
    reach = v.reach;
    inv = v.inv;
    call = on_call (record {
      empty = e;
      loaded = refl;
      started = omega arith;
      ends = omega arith;
      late = inl refl;
    });
    seen = v.seen;
  }
  ScanStep-Refined {s} (hit {c} {k} {mask} e below slot t) v =
      let ok = v.call.call c e in
      let acquired = hit_acquires v.inv ok below slot t in
      record {
        done = v.done;
        read = v.read;
        reach = System.later v.reach (System.acquire ok.empty acquired);
        inv = acquire_step m v.inv ok.empty acquired;
        call = no_call;
        seen = v.seen;
      }
  ScanStep-Refined {s} (miss {c} {k} e below slot t) v = record {
    done = v.done;
    read = v.read;
    reach = v.reach;
    inv = v.inv;
    call =
        on_call (
          next-CallOk v.inv (v.call.call c e) below slot (tried_failed k s.sys.ring.locked_mask t));
    seen = v.seen;
  }
  ScanStep-Refined (give_up e q) v = record {
    done = v.done;
    read = v.read;
    reach = v.reach;
    inv = v.inv;
    call = no_call;
    seen = v.seen;
  }
  ScanStep-Refined {s} (commit e) v = record {
    done = suc v.done;
    read = v.read;
    reach = System.later v.reach (System.commit e);
    inv = commit-Inv v.inv e;
    call = record { call = λ c q. absurd (cc (v.call.call c q).empty) };
    seen = seen_before v.seen;
  }
  ScanStep-Refined (look e) v = record {
    done = v.done;
    read = v.read;
    reach = v.reach;
    inv = v.inv;
    call = v.call;
    seen = seen_now v.inv;
  }
  ScanStep-Refined (skip e t) v = record {
    done = v.done;
    read = v.read;
    reach = v.reach;
    inv = v.inv;
    call = v.call;
    seen = nothing_seen;
  }
  ScanStep-Refined {s} (take e new may t) v =
      let taken = seen_take m v.inv v.seen e new t in
      let after = take_step m v.inv taken in
      record {
        done = v.done;
        read = suc v.read;
        reach = System.later v.reach (System.take taken);
        inv = after;
        call = taken_call s.scan refl (after.ready ∙ sym v.inv.ready) may v.call;
        seen = nothing_seen;
      }
  ScanStep-Refined {s} (elsewhere same) v = record {
    done = v.done;
    read = v.read;
    reach = System.later v.reach (System.elsewhere same);
    inv = elsewhere-Inv same v.inv;
    call = record { call = λ c q. same_call refl same.ready (v.call.call c q) };
    seen = v.seen;
  }

  ScanReach-Refined : {s : Scanning} → ScanReach w m 1 s → Refined w m s
  ScanReach-Refined (start f) = record {
    done = 0;
    read = 0;
    reach = System.start f;
    inv = fresh-Inv lt f;
    call = no_call;
    seen = nothing_seen;
  }
  ScanReach-Refined (later r st) = ScanStep-Refined st (ScanReach-Refined r)

-- The loads, the rounds and the exchange of `vx_stream_acquire`, and the render thread's load of
-- `ready_idx` and what it does by it, in any order with the other steps: if the render thread takes
-- at most one packet of the window after the first round of a call, every state of the ring that is
-- reached is one that single steps reach too.
pub ScanReach-Reach :
    {w m : ℕ} {s : Scanning} → w < max_windows → ScanReach w m 1 s → Reach w m s.sys
ScanReach-Reach lt r = (ScanReach-Refined lt r).reach
