-- ===== src/Render/Handshake/Phase.antt =====
-- Which parts of the work on a window the two flags keep apart: render/gpu/vk_render_loop.c and
-- `vx_stream_init` of host/ipc/ring_stream.c.
use chess_rts.Base.{◌≡◌, refl, Bool, true, false}
use chess_rts.Base.Int.{ℤ, pos}
use chess_rts.Render.Handshake.{
  RenderAt, away, loaded, picked, claimed, busy, framed, unlocked, stored, drawing, frame_done,
  InitAt, outside, waiting, render_clear, copying, unlocking, clearing_ready, clearing_local,
  clearing_active, opening,
}

-- The value that `g_render_busy` has then.
abbrev pub busy_flag : RenderAt → ℤ
busy_flag away = pos 0
busy_flag (loaded _) = pos 0
busy_flag (picked _) = pos 0
busy_flag (claimed _) = pos 0
busy_flag (busy _) = pos 1
busy_flag (framed _ _ _ _) = pos 1
busy_flag (unlocked _ _ _) = pos 1
busy_flag (stored _ _ _) = pos 1
busy_flag (drawing _ _ _) = pos 1
busy_flag (frame_done _ _) = pos 1

-- The render thread has found the window running, and works with its handles.
abbrev pub is_drawing : RenderAt → Bool
is_drawing away = false
is_drawing (loaded _) = false
is_drawing (picked _) = false
is_drawing (claimed _) = false
is_drawing (busy _) = false
is_drawing (framed _ _ _ _) = false
is_drawing (unlocked _ _ _) = false
is_drawing (stored _ _ _) = false
is_drawing (drawing _ _ _) = true
is_drawing (frame_done _ _) = false

-- `vx_stream_init` is past its wait, and has stores to make.
abbrev pub is_writing : InitAt → Bool
is_writing outside = false
is_writing (waiting _) = false
is_writing (render_clear _) = false
is_writing (copying _) = true
is_writing unlocking = true
is_writing clearing_ready = true
is_writing clearing_local = true
is_writing (clearing_active _) = true
is_writing opening = true

-- It has seen `g_render_busy` clear.
abbrev pub has_passed : InitAt → Bool
has_passed outside = false
has_passed (waiting _) = false
has_passed (render_clear _) = true
has_passed (copying _) = true
has_passed unlocking = true
has_passed clearing_ready = true
has_passed clearing_local = true
has_passed (clearing_active _) = true
has_passed opening = true

abbrev pub has_stopped : InitAt → Bool
has_stopped outside = false
has_stopped (waiting _) = true
has_stopped (render_clear _) = true
has_stopped (copying _) = true
has_stopped unlocking = true
has_stopped clearing_ready = true
has_stopped clearing_local = true
has_stopped (clearing_active _) = true
has_stopped opening = true

pub passed→stopped : (i : InitAt) → has_passed i ≡ true → has_stopped i ≡ true
passed→stopped outside h = h
passed→stopped (waiting _) h = refl
passed→stopped (render_clear _) h = refl
passed→stopped (copying _) h = refl
passed→stopped unlocking h = refl
passed→stopped clearing_ready h = refl
passed→stopped clearing_local h = refl
passed→stopped (clearing_active _) h = refl
passed→stopped opening h = refl

pub not_busy : (r : RenderAt) → busy_flag r ≡ pos 0 → is_drawing r ≡ false
not_busy (drawing _ _ _) h = absurd (cc h)
not_busy away h = refl
not_busy (loaded _) h = refl
not_busy (picked _) h = refl
not_busy (claimed _) h = refl
not_busy (busy _) h = refl
not_busy (framed _ _ _ _) h = refl
not_busy (unlocked _ _ _) h = refl
not_busy (stored _ _ _) h = refl
not_busy (frame_done _ _) h = refl

pub writing→passed : (i : InitAt) → is_writing i ≡ true → has_passed i ≡ true
writing→passed outside h = h
writing→passed (waiting _) h = h
writing→passed (render_clear _) h = refl
writing→passed (copying _) h = refl
writing→passed unlocking h = refl
writing→passed clearing_ready h = refl
writing→passed clearing_local h = refl
writing→passed (clearing_active _) h = refl
writing→passed opening h = refl
