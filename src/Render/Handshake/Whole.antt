-- ===== src/Render/Handshake/Whole.antt =====
-- render/gpu/vk_render_loop.c: the accesses of the render thread in one go are the window's round.
use chess_rts.Base.{
  List, ℕ, zero, suc, ◌+◌, ◌*◌, ◌%◌, ◌≡◌, refl, inl, inr, Bool, true, false, Option, none, some,
  ◌++◌, ap, sym, if◌then◌else◌, Bool-cases, ◌>>=◌,
}
use mathlib.Core.Option
use mathlib.Core.List.{append-nil}
use chess_rts.Base.Int.{ℤ, pos, negsuc}
use chess_rts.State.{Floats, Globals}
use chess_rts.Render.{
  new_local_read, finish_slot, is_read, frame_slots, store_active, take_oldest, render_take, Take,
  fault, took,
}
use chess_rts.Render.Frame.{
  FrameAnswers, FrameCall, is_skipped, draw_frame, render_frame, after_frame, set_busy, Rendered,
  render_slot, after_take, render_window,
}
use chess_rts.Render.Handshake.{
  RenderAt, away, picked, stored, drawing, Meeting, unlocked_by, drawn_by, set_local, store_ring,
  render_step,
}

abbrev pub is_away : RenderAt → Bool
is_away away = true
is_away _ = false

-- The accesses of the render thread up to the end of its work on the window; `none` is undefined
-- behaviour, or fuel that has run out.
pub until_away : {fl : Floats} → ℕ → FrameAnswers → (wid : ℕ) → Meeting fl → Option (Meeting fl)
until_away zero a wid s = none
until_away (suc fuel) a wid s =
    let more = render_step a wid s.render s >>= until_away fuel a wid in
    if is_away s.render then some s else more

-- One round.
pub whole_round : {fl : Floats} → FrameAnswers → (wid : ℕ) → Meeting fl → Option (Meeting fl)
whole_round a wid s = render_step a wid away s >>= until_away 10 a wid

-- A round that is one step.
abbrev pub rendered : {fl : Floats} → Meeting fl → Rendered fl → Meeting fl
rendered s r = record s {
  globals = r.globals;
  t_frame = r.t_frame;
  render = away;
  calls = s.calls ++ r.calls;
}

module _ {fl : Floats} (a : FrameAnswers) (w : ℕ) (s : Meeting fl) where
  from_drawing :
      (slot frame : ℕ) (g : Globals fl) (run : Option (Globals fl × List FrameCall))
      → (drawn_by
            (frame_slots (g.window_wsi w).max_frames_in_flight)
            frame
            (record s {
              globals = set_busy w (pos 1) g;
              render = drawing slot (frame_slots (g.window_wsi w).max_frames_in_flight) frame;
            })
            run
          >>= until_away 2 a w)
        ≡ Option.map (rendered s) (after_frame w frame g run)
  unfolding until_away render_step drawn_by after_frame
  from_drawing slot frame g none = refl
  from_drawing slot frame g (some (g', calls)) = refl

  from_stored :
      (idx : ℤ) (frame : ℕ) (g : Globals fl)
      → until_away 4 a w (record s {
        globals = set_busy w (pos 1) g;
        render = stored idx (frame_slots (g.window_wsi w).max_frames_in_flight) frame;
      })
        ≡ Option.map (rendered s) (render_slot a w frame idx g)
  unfolding until_away render_step render_slot render_frame after_frame
  from_stored (negsuc _) frame g = refl
  from_stored (pos slot) frame g = elim (Bool-cases (is_skipped w slot (set_busy w (pos 1) g))) [
    | inl skip ↦ rw skip (
        ap
          (λ l. some (record s {
            globals = set_busy w (pos 0) (set_busy w (pos 1) g);
            t_frame = (frame + 1) % frame_slots (g.window_wsi w).max_frames_in_flight;
            render = away;
            calls = l;
          }))
          (sym (append-nil s.calls)))
    | inr go ↦ rw go (from_drawing slot frame g (draw_frame a w frame slot (set_busy w (pos 1) g)))
  ]

  abbrev read_idx : ℤ
  read_idx = new_local_read (s.globals.ring.local_read w) (w * 4)

  abbrev slots : ℕ
  slots = frame_slots (s.globals.window_wsi w).max_frames_in_flight

  abbrev frame : ℕ
  frame = s.t_frame % slots

  from_framed :
      (mask : Option ℕ)
      → (unlocked_by read_idx slots frame
            (record s { globals = set_busy w (pos 1) (set_local w read_idx s.globals) })
            mask
          >>= until_away 5 a w)
        ≡ Option.map (rendered s) (
            after_take a w s.t_frame s.globals (elim mask as (λ _. Take) [
              | none ↦ fault
              | some m ↦ took read_idx frame (store_active w frame read_idx s.globals.ring m)
            ]))
  unfolding until_away render_step after_take unlocked_by store_active
  from_framed none = refl
  from_framed (some m) =
      from_stored read_idx frame
        (store_ring (store_active w frame read_idx s.globals.ring m) s.globals)

  from_picked :
      until_away 9 a w (record s { render = picked read_idx })
      ≡ Option.map (rendered s) (
          after_take a w s.t_frame s.globals
            (take_oldest w (s.globals.window_wsi w).max_frames_in_flight s.t_frame s.globals.ring))
  unfolding until_away render_step take_oldest unlocked_by
  from_picked =
      from_framed
        (finish_slot (s.globals.ring.active_ring_slots w frame) read_idx s.globals.ring.locked_mask)

  pub whole_round-render_window :
      whole_round a w s ≡ Option.map (rendered s) (render_window a w s.t_frame s.globals)
  unfolding whole_round until_away render_step render_window render_take after_take
  whole_round-render_window =
      elim (Bool-cases (is_read (s.globals.ring.ready_idx w) (s.globals.ring.local_read w))) [
        | inl read ↦
            rw read
              (ap (λ l. some (record s { render = away; calls = l })) (sym (append-nil s.calls)))
        | inr new ↦ rw new from_picked
      ]
