-- ===== src/Render/Handshake/Exclude.antt =====
-- `g_wsi_state` and `g_render_busy` keep the frame on the GPU and the reset of a window apart.
use chess_rts.Base.{
  ◌||◌, ℕ, ◌≡◌, refl, inl, inr, Bool, true, false, Option, some, arith, if◌then◌else◌, update_self,
  ◌+◌, sym, ◌∙◌, ap, Bool-cases, none,
}
use mathlib.Core.Path.{subst}
use mathlib.Core.Option.{some-injective}
use chess_rts.Base.Int.{ℤ, pos, negsuc, eqb_ℤ→eq}
use chess_rts.State.{Floats, Globals}
use chess_rts.Render.{finish_slot}
use chess_rts.Render.Frame.{
  FrameAnswers, Acquire, image, no_image, out_of_date, other_error, frame_acquired, drawn,
  draw_frame, is_skipped, is_defined,
}
use chess_rts.Render.Handshake.Phase.{
  busy_flag, is_drawing, is_writing, has_passed, has_stopped, passed→stopped, not_busy,
  writing→passed,
}
use chess_rts.Render.Handshake.{
  RenderAt, away, loaded, picked, claimed, busy, framed, unlocked, stored, drawing, frame_done,
  InitAt, outside, waiting, render_clear, copying, unlocking, clearing_ready, clearing_local,
  clearing_active, opening, Meeting, unlocked_by, drawn_by, render_step, init_step, MeetStep,
  MeetReach, here, next, render, call, init, give_up, others,
}

pub record Apart {fl : Floats} (w : ℕ) (g : Globals fl) (r : RenderAt) (i : InitAt) : Type 0 where
  pub flag : g.render_busy w ≡ busy_flag r
  pub stopped : has_stopped i ≡ true → g.wsi_state w ≡ pos 0
  pub exclusive : has_passed i ≡ true → is_drawing r ≡ false

moved :
    {fl : Floats} {w : ℕ} {x t : Meeting fl}
    → some x ≡ some t
    → Apart w x.globals x.render x.init
    → Apart w t.globals t.render t.init
moved {w = w} {x} {t} e v =
    subst (λ (t : Meeting _). Apart w t.globals t.render t.init) (some-injective x t e) v

acquired-flags :
    {fl : Floats} (x : Acquire) (w frame slot : ℕ) (g : Globals fl)
    → ((frame_acquired x w frame slot g).0.render_busy ≡ g.render_busy)
      × ((frame_acquired x w frame slot g).0.wsi_state ≡ g.wsi_state)
      × ((frame_acquired x w frame slot g).0.transfer_busy ≡ g.transfer_busy)
unfolding frame_acquired
acquired-flags no_image w frame slot g = (refl, refl, refl)
acquired-flags out_of_date w frame slot g = (refl, refl, refl)
acquired-flags other_error w frame slot g = (refl, refl, refl)
acquired-flags (image i) w frame slot g = (refl, refl, refl)

pub drawn-flags :
    {fl : Floats} (a : FrameAnswers) (w frame slot : ℕ) (g : Globals fl)
    → ((drawn a w frame slot g).0.render_busy ≡ g.render_busy)
      × ((drawn a w frame slot g).0.wsi_state ≡ g.wsi_state)
      × ((drawn a w frame slot g).0.transfer_busy ≡ g.transfer_busy)
unfolding drawn
drawn-flags a w frame slot g = elim (Bool-cases a.wait_times_out) [
  | inl late ↦ rw late (refl, refl, refl)
  | inr prompt ↦ rw prompt (acquired-flags a.acquire w frame slot g)
]

-- A step that leaves the flags alone.
same-Apart :
    {fl : Floats} {w : ℕ} {g g' : Globals fl} (r : RenderAt) {i : InitAt}
    → g'.render_busy ≡ g.render_busy
    → g'.wsi_state ≡ g.wsi_state
    → Apart w g r i
    → Apart w g' r i
same-Apart {w = w} r p q v = record {
  flag = ap (λ f. f w) p ∙ v.flag;
  stopped = λ h. ap (λ f. f w) q ∙ v.stopped h;
  exclusive = v.exclusive;
}

-- The mask is the atomic's own.
masked :
    {fl : Floats} {w : ℕ} (s : Meeting fl) {t : Meeting fl} (idx : ℤ) (slots frame : ℕ)
    (mask : Option ℕ)
    → unlocked_by idx slots frame s mask ≡ some t
    → s.globals.render_busy w ≡ pos 1
    → (has_stopped s.init ≡ true → s.globals.wsi_state w ≡ pos 0)
    → Apart w t.globals t.render t.init
unfolding unlocked_by
masked s idx slots frame none e flag stopped = absurd (cc e)
masked s idx slots frame (some m) e flag stopped =
    moved e (record { flag = flag; stopped = stopped; exclusive = λ _. refl })

-- The test of `g_wsi_state`.
tested :
    {fl : Floats} {w : ℕ} {g : Globals fl} (slot slots frame : ℕ) {i : InitAt} (b : Bool)
    → is_skipped w slot g ≡ b
    → Apart w g (stored (pos slot) slots frame) i
    → Apart w g (if b then frame_done slots frame else drawing slot slots frame) i
tested slot slots frame true e v = record {
  flag = v.flag;
  stopped = v.stopped;
  exclusive = λ _. refl;
}
tested slot slots frame {i} false e v = record {
  flag = v.flag;
  stopped = v.stopped;
  exclusive = λ h. absurd (ground (arith, v.stopped (passed→stopped i h)));
}

-- The frame on the GPU.
drew :
    {fl : Floats} {w : ℕ} (s : Meeting fl) {t : Meeting fl} (a : FrameAnswers) (slot n f : ℕ)
    (b : Bool)
    → a.wait_times_out || is_defined a.acquire ≡ b
    → drawn_by n f s (if b then some (drawn a w f slot s.globals) else none) ≡ some t
    → Apart w s.globals (drawing slot n f) s.init
    → Apart w t.globals t.render t.init
unfolding drawn_by
drew {w = w} s a slot n f true _ e v =
    let (p, q, _) = drawn-flags a w f slot s.globals in
    moved e (record {
      flag = ap (λ f. f w) p ∙ v.flag;
      stopped = λ h. ap (λ f. f w) q ∙ v.stopped h;
      exclusive = λ _. refl;
    })
drew s a slot n f false _ e v = absurd (cc e)

pub render-Apart :
    {fl : Floats} {w : ℕ} (s : Meeting fl) {t : Meeting fl} (a : FrameAnswers) (r : RenderAt)
    → render_step a w r s ≡ some t
    → Apart w s.globals r s.init
    → Apart w t.globals t.render t.init
unfolding render_step draw_frame
render-Apart s a away e v =
    moved e (record { flag = v.flag; stopped = v.stopped; exclusive = λ _. refl })
render-Apart s a (loaded ready) e v =
    moved e
      (record { flag = ground (arith, v.flag); stopped = v.stopped; exclusive = λ _. ground arith })
render-Apart s a (picked idx) e v =
    moved e (record { flag = v.flag; stopped = v.stopped; exclusive = λ _. refl })
render-Apart s a (claimed idx) e v =
    moved e (record { flag = ground arith; stopped = v.stopped; exclusive = λ _. refl })
render-Apart s a (busy idx) e v =
    moved e (record { flag = v.flag; stopped = v.stopped; exclusive = λ _. refl })
render-Apart s a (framed idx n f finished) e v =
    masked s idx n f (finish_slot finished idx s.globals.ring.locked_mask) e v.flag v.stopped
render-Apart s a (unlocked idx n f) e v =
    moved e (record { flag = v.flag; stopped = v.stopped; exclusive = λ _. refl })
render-Apart s a (stored (negsuc k) n f) e v = absurd (cc e)
render-Apart s a (stored (pos slot) n f) e v = moved e (tested slot n f _ refl v)
render-Apart s a (drawing slot n f) e v = drew s a slot n f _ refl e v
render-Apart s a (frame_done n f) e v =
    moved e (record { flag = ground arith; stopped = v.stopped; exclusive = λ _. refl })

branch :
    {fl : Floats} {w : ℕ} {g : Globals fl} {r : RenderAt} {i j : InitAt} (b : Bool)
    → (b ≡ true → Apart w g r i)
    → (b ≡ false → Apart w g r j)
    → Apart w g r (if b then i else j)
branch true p q = p refl
branch false p q = q refl

init-Apart :
    {fl : Floats} (w : ℕ) (g : Globals fl) (r : RenderAt) (i : InitAt)
    → Apart w g r i
    → Apart w (init_step w i g).1 r (init_step w i g).0
unfolding init_step
init-Apart w g r outside v = v
init-Apart w g r (waiting wsi) v =
    branch {i = render_clear wsi} {j = waiting wsi} _
      (λ clear. record {
        flag = v.flag;
        stopped = v.stopped;
        exclusive = λ _. not_busy r (sym v.flag ∙ eqb_ℤ→eq (g.render_busy w) (pos 0) clear);
      })
      (λ _. v)
init-Apart w g r (render_clear wsi) v =
    branch {i = copying wsi} {j = waiting wsi} _
      (λ _. record { flag = v.flag; stopped = v.stopped; exclusive = v.exclusive })
      (λ _. record { flag = v.flag; stopped = v.stopped; exclusive = λ h. absurd (cc h) })
init-Apart w g r (copying wsi) v = record {
  flag = v.flag;
  stopped = v.stopped;
  exclusive = v.exclusive;
}
init-Apart w g r unlocking v = record {
  flag = v.flag;
  stopped = v.stopped;
  exclusive = v.exclusive;
}
init-Apart w g r clearing_ready v = record {
  flag = v.flag;
  stopped = v.stopped;
  exclusive = v.exclusive;
}
init-Apart w g r clearing_local v = record {
  flag = v.flag;
  stopped = v.stopped;
  exclusive = v.exclusive;
}
init-Apart w g r (clearing_active f) v =
    branch {i = clearing_active (f + 1)} {j = opening} _
      (λ _. record { flag = v.flag; stopped = v.stopped; exclusive = v.exclusive })
      (λ _. record { flag = v.flag; stopped = v.stopped; exclusive = v.exclusive })
init-Apart w g r opening v = record {
  flag = v.flag;
  stopped = λ h. absurd (cc h);
  exclusive = λ h. absurd (cc h);
}

step-Apart :
    {fl : Floats} {w : ℕ} {s t : Meeting fl}
    → MeetStep w s t
    → Apart w s.globals s.render s.init
    → Apart w t.globals t.render t.init
step-Apart {s = s} (render a e) v = render-Apart s a s.render e v
step-Apart {w = w} {s} (call wsi e) v = record {
  flag = v.flag;
  stopped = λ h. update_self s.globals.wsi_state w (pos 0);
  exclusive = λ h. absurd (cc h);
}
step-Apart {w = w} {s} init v = init-Apart w s.globals s.render s.init v
step-Apart (give_up wsi e) v = record {
  flag = v.flag;
  stopped = λ h. absurd (cc h);
  exclusive = λ h. absurd (cc h);
}
step-Apart {s = s} (others g keeps) v = record {
  flag = keeps.render_busy ∙ v.flag;
  stopped = λ h. elim keeps.wsi_state [ inl same ↦ same ∙ v.stopped h | inr zero_ ↦ zero_ ];
  exclusive = v.exclusive;
}

reach-Apart :
    {fl : Floats} {w : ℕ} {s t : Meeting fl}
    → Apart w s.globals s.render s.init
    → MeetReach w s t
    → Apart w t.globals t.render t.init
reach-Apart v here = v
reach-Apart v (next r st) = step-Apart st (reach-Apart v r)

pub start-Apart :
    {fl : Floats} {w : ℕ} {g : Globals fl} {r : RenderAt} {i : InitAt}
    → r ≡ away
    → i ≡ outside
    → g.render_busy w ≡ pos 0
    → Apart w g r i
start-Apart p q z =
    rw (p, q) (record { flag = z; stopped = λ h. absurd (cc h); exclusive = λ h. absurd (cc h) })

-- Under accesses that are all sequentially consistent, which the release stores and acquire loads of
-- the code do not ensure: from a state in which the render thread is away from the window, its busy flag is clear and no
-- call of `vx_stream_init` is under way, whatever the two threads and the others do: while
-- `vx_stream_init` has stores to make to the window's handles and ring, the render thread is not
-- between its test of `g_wsi_state` and `frame_done`.
pub MeetReach-exclusive :
    {fl : Floats} {w : ℕ} {s t : Meeting fl}
    → s.render ≡ away
    → s.init ≡ outside
    → s.globals.render_busy w ≡ pos 0
    → MeetReach w s t
    → is_writing t.init ≡ true
    → is_drawing t.render ≡ false
MeetReach-exclusive {w = w} {s} {t} p q z r h =
    (reach-Apart (start-Apart p q z) r).exclusive (writing→passed t.init h)
