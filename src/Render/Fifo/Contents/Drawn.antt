-- ===== src/Render/Fifo/Contents/Drawn.antt =====
-- What is drawn is what was sent.
use chess_rts.Base.{ℕ, ◌-◌, ◌≤◌, ◌<◌, ◌≡◌, List, [], ◌++◌, arith, sym, ◌∙◌, ap, length}
use mathlib.Core.List.{append-nil}
use chess_rts.State.{RenderPacket, max_windows}
use chess_rts.Render.Fifo.Inv.{fresh-Inv}
use chess_rts.Render.Fifo.Producer.{elsewhere-Inv}
use chess_rts.Render.Fifo.Steps.{acquire_step, refuse_step}
use chess_rts.Render.Fifo.Contents.{
  Contents, ContentStep, acquire, refuse, fill, commit, take, show, elsewhere, ContentReach, start,
  later,
}
use chess_rts.Render.Fifo.Contents.Slots.{contents_from, length-contents_from, contents_ext}
use chess_rts.Render.Fifo.Contents.Kept.{
  Kept, acquired_packets, kept_by, same_packets-Kept, fill-Kept, show-Kept, commit-Kept, take-Kept,
}

ContentStep-Kept : {w m : ℕ} {s t : Contents} → ContentStep w m s t → Kept w m s → Kept w m t
ContentStep-Kept {m = m} {s} (acquire e q) b =
    same_packets-Kept s b _ (acquired_packets m b.inv e q) (acquire_step m b.inv e q)
ContentStep-Kept {m = m} {s} (refuse e q) b =
    same_packets-Kept s b _ (acquired_packets m b.inv e q) (refuse_step m b.inv e q)
ContentStep-Kept {s = s} (fill {g} p h) b = fill-Kept s b g p h
ContentStep-Kept {s = s} (commit {g} h) b = commit-Kept s b g h
ContentStep-Kept {s = s} (take {slot} {f} {r} e) b = take-Kept s b slot f r e
ContentStep-Kept {s = s} (show {slot} image view h) b = show-Kept s b slot _ h
ContentStep-Kept {w} {m} {s} (elsewhere {r} same packets_same) b = record {
  done = b.done;
  read = b.read;
  inv = elsewhere-Inv same b.inv;
  kept = kept_by s b r.packets (
      contents_ext s.sys.ring.packets r.packets w b.read (b.done - b.read)
        (λ j lo hi. packets_same j));
}

ContentReach-Kept : {w m : ℕ} {s : Contents} → w < max_windows → ContentReach w m s → Kept w m s
ContentReach-Kept {w} {m} {s} lt (start f p d) = record {
  done = 0;
  read = 0;
  inv = fresh-Inv lt f;
  kept = p ∙ sym (append-nil []) ∙ ap (λ l. l ++ []) (sym d);
}
ContentReach-Kept lt (later r st) = ContentStep-Kept st (ContentReach-Kept lt r)

-- In every state that the steps of a window in range reach from a fresh ring, the packets that the
-- render thread has found, as they were when it took them, are the first of those that the Lua
-- thread has committed, as they were at the commits: the slots are filled again and given their
-- images meanwhile, but never while they wait. At most four packets are on their way.
pub drawn-sent :
    {w m : ℕ} {s : Contents}
    → w < max_windows
    → ContentReach w m s
    → (waiting : List RenderPacket) × (s.sent ≡ s.drawn ++ waiting) × (length waiting ≤ 4)
drawn-sent {w} {m} {s} lt r =
    let b = ContentReach-Kept lt r in
    let waiting = contents_from s.sys.ring.packets w b.read (b.done - b.read) in
    (
      waiting,
      b.kept,
      rw (length-contents_from s.sys.ring.packets w b.read (b.done - b.read))
          (ground (arith, b.inv.room)),
    )
