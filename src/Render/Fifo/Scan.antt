-- ===== src/Render/Fifo/Scan.antt =====
-- One window's ring when the calls are not single steps. `vx_stream_acquire`
-- (host/ipc/ring_stream.c) loads `ready_idx` and then looks at one slot per round; a round is
-- decided at one moment, the exchange that succeeds or the load that sees the bit set. The
-- render thread (render/gpu/vk_render_loop.c) loads `ready_idx` too and goes by what it has seen.
-- The other steps come in between.
mod Call
mod Seen
pub mod Refine
use chess_rts.Base.{
  ℕ, ◌+◌, ◌*◌, ◌%◌, ◌^◌, ◌<◌, ◌≡◌, ◌⊎◌, true, false, Option, none, some, [], ◌∷◌, ◌++◌, ◌==◌,
  if◌then◌else◌,
}
use chess_rts.Base.Int.{ℤ, pos}
use chess_rts.State.{RenderRing}
use chess_rts.Ring.{slot_of_round, try_slot, vx_stream_commit}
use chess_rts.Render.{frame_slots, is_read, took, take_oldest}
use chess_rts.Render.Fifo.System.{System, SameWindow, IsFresh}

-- A call on its way: the `ready_idx` that it has loaded, the round it comes to, and how many
-- packets the render thread has taken since its first round.
pub record Scan : Type 0 where
  pub ready : ℤ
  pub round : ℕ
  pub takes : ℕ

-- `seen` is the `ready_idx` that the render thread has loaded.
pub record Scanning : Type 0 where
  pub sys : System
  pub scan : Option Scan
  pub seen : Option ℤ

abbrev pub first_round : ℤ → Scan
first_round ready = record { ready = ready; round = 1; takes = 0 }

abbrev pub next_round : Scan → Scan
next_round c = record c { round = c.round + 1; takes = if c.round == 1 then 0 else c.takes }

abbrev pub overtaken : Option Scan → Option Scan
overtaken none = none
overtaken (some c) = some (record c { takes = c.takes + 1 })

-- The render thread takes at most `limit` packets after the first round of a call.
abbrev pub MayTake : ℕ → Option Scan → Type 0
MayTake limit none = Unit
MayTake limit (some c) = (c.round ≡ 1) ⊎ (c.takes < limit)

pub data ScanStep (w max_frames limit : ℕ) (s : Scanning) : Scanning → Type 0 where
  begin :
      s.sys.holding ≡ none
      → s.scan ≡ none
      → ScanStep w max_frames limit s
          (record s { scan = some (first_round (s.sys.ring.ready_idx w)) })
  hit :
      {c : Scan} {k mask : ℕ}
      → s.scan ≡ some c
      → c.round < 5
      → slot_of_round c.ready (w * 4) c.round ≡ some k
      → try_slot (2 ^ k) s.sys.ring.locked_mask [] ≡ record { taken = true; mask = mask }
      → ScanStep w max_frames limit s (record {
        sys = record (s.sys) {
          ring = record (s.sys.ring) { locked_mask = mask };
          holding = some k;
        };
        scan = none;
        seen = s.seen;
      })
  miss :
      {c : Scan} {k : ℕ}
      → s.scan ≡ some c
      → c.round < 5
      → slot_of_round c.ready (w * 4) c.round ≡ some k
      → (try_slot (2 ^ k) s.sys.ring.locked_mask []).taken ≡ false
      → ScanStep w max_frames limit s (record s { scan = some (next_round c) })
  give_up :
      {c : Scan}
      → s.scan ≡ some c
      → c.round ≡ 5
      → ScanStep w max_frames limit s (record s { scan = none })
  commit :
      {g : ℕ}
      → s.sys.holding ≡ some g
      → ScanStep w max_frames limit s (record s {
        sys = record (s.sys) {
          ring = vx_stream_commit (pos w) (pos g) s.sys.ring;
          holding = none;
          committed = s.sys.committed ++ pos g ∷ [];
        };
      })
  look :
      s.seen ≡ none
      → ScanStep w max_frames limit s (record s { seen = some (s.sys.ring.ready_idx w) })
  skip :
      {ready : ℤ}
      → s.seen ≡ some ready
      → is_read ready (s.sys.ring.local_read w) ≡ true
      → ScanStep w max_frames limit s (record s { seen = none })
  take :
      {ready i : ℤ} {f : ℕ} {r : RenderRing}
      → s.seen ≡ some ready
      → is_read ready (s.sys.ring.local_read w) ≡ false
      → MayTake limit s.scan
      → take_oldest w max_frames s.sys.t_frame s.sys.ring ≡ took i f r
      → ScanStep w max_frames limit s (record {
        sys = record (s.sys) {
          ring = r;
          t_frame = (f + 1) % frame_slots max_frames;
          taken = s.sys.taken ++ i ∷ [];
        };
        scan = overtaken s.scan;
        seen = none;
      })
  elsewhere :
      {r : RenderRing}
      → SameWindow w s.sys.ring r
      → ScanStep w max_frames limit s (record s { sys = record (s.sys) { ring = r } })

-- The states that these steps reach from a fresh ring with no call on its way and nothing seen.
pub data ScanReach (w max_frames limit : ℕ) : Scanning → Type 0 where
  start :
      {s : System}
      → IsFresh w max_frames s
      → ScanReach w max_frames limit (record { sys = s; scan = none; seen = none })
  later :
      {s t : Scanning}
      → ScanReach w max_frames limit s
      → ScanStep w max_frames limit s t
      → ScanReach w max_frames limit t
