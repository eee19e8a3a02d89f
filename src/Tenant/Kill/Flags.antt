-- ===== src/Tenant/Kill/Flags.antt =====
-- What the steps of the render thread and of the transfer thread leave of each other's flags, and that
-- they do not look at `vx_stream_init`.
use mathlib.Core.Path.{subst}
use mathlib.Core.Option
use mathlib.Core.Option.{some-injective}
use chess_rts.Base.{
  true, false, List, ◌||◌, if◌then◌else◌, ℕ, ◌≡◌, refl, ◌⊎◌, inl, inr, Bool, Option, none, some,
  update_self,
}
use chess_rts.Base.Int.{ℤ, pos, negsuc}
use chess_rts.State.{Floats, Globals}
use chess_rts.Render.{finish_slot}
use chess_rts.Render.Frame.{FrameAnswers, FrameCall, is_defined, drawn, draw_frame}
use chess_rts.Render.Handshake.{
  RenderAt, away, loaded, picked, claimed, busy, framed, unlocked, stored, drawing, frame_done,
  InitAt, Meeting, unlocked_by, drawn_by, render_step,
}
use chess_rts.Render.Handshake.Exclude.{drawn-flags}
use chess_rts.Transfer.Handshake.{
  CopyAt, elsewhere, found, marked, working, hanging, stopping, releasing, closing, CopyMeeting,
  copy_step,
}

abbrev pub with_init : {fl : Floats} → InitAt → Meeting fl → Meeting fl
with_init j s = record s { init = j }

unlocked_by-init :
    {fl : Floats} (idx : ℤ) (n f : ℕ) (j : InitAt) (s : Meeting fl) (mask : Option ℕ)
    → unlocked_by idx n f (with_init j s) mask
      ≡ Option.map (with_init j) (unlocked_by idx n f s mask)
unfolding unlocked_by
unlocked_by-init idx n f j s none = refl
unlocked_by-init idx n f j s (some m) = refl

drawn_by-init :
    {fl : Floats} (n f : ℕ) (j : InitAt) (s : Meeting fl)
    (run : Option (Globals fl × List FrameCall))
    → drawn_by n f (with_init j s) run ≡ Option.map (with_init j) (drawn_by n f s run)
unfolding drawn_by
drawn_by-init n f j s none = refl
drawn_by-init n f j s (some (g, calls)) = refl

pub render_step-init :
    {fl : Floats} (a : FrameAnswers) (w : ℕ) (r : RenderAt) (j : InitAt) (s : Meeting fl)
    → render_step a w r (with_init j s) ≡ Option.map (with_init j) (render_step a w r s)
unfolding render_step
render_step-init a w away j s = refl
render_step-init a w (loaded ready) j s = refl
render_step-init a w (picked idx) j s = refl
render_step-init a w (claimed idx) j s = refl
render_step-init a w (busy idx) j s = refl
render_step-init a w (framed idx n f finished) j s =
    unlocked_by-init idx n f j s (finish_slot finished idx s.globals.ring.locked_mask)
render_step-init a w (unlocked idx n f) j s = refl
render_step-init a w (stored (negsuc k) n f) j s = refl
render_step-init a w (stored (pos slot) n f) j s = refl
render_step-init a w (drawing slot n f) j s =
    drawn_by-init n f j s (draw_frame a w f slot s.globals)
render_step-init a w (frame_done n f) j s = refl

abbrev pub KeptByRender : {fl : Floats} → (g g' : Globals fl) → Type 0
KeptByRender g g' = (g'.transfer_busy ≡ g.transfer_busy) × (g'.wsi_state ≡ g.wsi_state)

kept_at :
    {fl : Floats} (g : Globals fl) {x t : Meeting fl}
    → some x ≡ some t
    → KeptByRender g x.globals
    → KeptByRender g t.globals
kept_at g {x} {t} e k = subst (λ (t : Meeting _). KeptByRender g t.globals) (some-injective x t e) k

unlocked_by-kept :
    {fl : Floats} (idx : ℤ) (n f : ℕ) (s : Meeting fl) {t : Meeting fl} (mask : Option ℕ)
    → unlocked_by idx n f s mask ≡ some t
    → KeptByRender s.globals t.globals
unfolding unlocked_by
unlocked_by-kept idx n f s none e = absurd (cc e)
unlocked_by-kept idx n f s (some m) e = kept_at s.globals e (refl, refl)

drew-kept :
    {fl : Floats} (a : FrameAnswers) (w slot n f : ℕ) (s : Meeting fl) {t : Meeting fl} (b : Bool)
    → a.wait_times_out || is_defined a.acquire ≡ b
    → drawn_by n f s (if b then some (drawn a w f slot s.globals) else none) ≡ some t
    → KeptByRender s.globals t.globals
unfolding drawn_by
drew-kept a w slot n f s true _ e =
    let (_, q, r) = drawn-flags a w f slot s.globals in kept_at s.globals e (r, q)
drew-kept a w slot n f s false _ e = absurd (cc e)

pub render_step-kept :
    {fl : Floats} (a : FrameAnswers) (w : ℕ) (r : RenderAt) (s : Meeting fl) {t : Meeting fl}
    → render_step a w r s ≡ some t
    → KeptByRender s.globals t.globals
unfolding render_step draw_frame
render_step-kept a w away s e = kept_at s.globals e (refl, refl)
render_step-kept a w (loaded ready) s e = kept_at s.globals e (refl, refl)
render_step-kept a w (picked idx) s e = kept_at s.globals e (refl, refl)
render_step-kept a w (claimed idx) s e = kept_at s.globals e (refl, refl)
render_step-kept a w (busy idx) s e = kept_at s.globals e (refl, refl)
render_step-kept a w (framed idx n f finished) s e =
    unlocked_by-kept idx n f s (finish_slot finished idx s.globals.ring.locked_mask) e
render_step-kept a w (unlocked idx n f) s e = kept_at s.globals e (refl, refl)
render_step-kept a w (stored (negsuc k) n f) s e = absurd (cc e)
render_step-kept a w (stored (pos slot) n f) s e = kept_at s.globals e (refl, refl)
render_step-kept a w (drawing slot n f) s e = drew-kept a w slot n f s _ refl e
render_step-kept a w (frame_done n f) s e = kept_at s.globals e (refl, refl)

abbrev pub with_copy_init : {fl : Floats} → InitAt → CopyMeeting fl → CopyMeeting fl
with_copy_init j s = record s { init = j }

pub copy_step-init :
    {fl : Floats} (timeout : Bool) (w : ℕ) (c : CopyAt) (j : InitAt) (s : CopyMeeting fl)
    → copy_step timeout w c (with_copy_init j s) ≡ with_copy_init j (copy_step timeout w c s)
unfolding copy_step
copy_step-init timeout w elsewhere j s = refl
copy_step-init timeout w (found i) j s = refl
copy_step-init timeout w (marked i) j s = refl
copy_step-init timeout w (working i) j s = refl
copy_step-init timeout w (hanging i) j s = refl
copy_step-init timeout w stopping j s = refl
copy_step-init timeout w (releasing i) j s = refl
copy_step-init timeout w closing j s = refl

abbrev pub KeptByCopy : {fl : Floats} → ℕ → (g g' : Globals fl) → Type 0
KeptByCopy w g g' =
    (g'.render_busy ≡ g.render_busy) × ((g'.wsi_state w ≡ g.wsi_state w) ⊎ (g'.wsi_state w ≡ pos 0))

pub copy_step-kept :
    {fl : Floats} (timeout : Bool) (w : ℕ) (c : CopyAt) (s : CopyMeeting fl)
    → KeptByCopy w s.globals (copy_step timeout w c s).globals
unfolding copy_step
copy_step-kept timeout w elsewhere s = (refl, inl refl)
copy_step-kept timeout w (found i) s = (refl, inl refl)
copy_step-kept timeout w (marked i) s = (refl, inl refl)
copy_step-kept timeout w (working i) s = (refl, inl refl)
copy_step-kept timeout w (hanging i) s = (refl, inl refl)
copy_step-kept timeout w stopping s = (refl, inr (update_self s.globals.wsi_state w (pos 0)))
copy_step-kept timeout w (releasing i) s = (refl, inl refl)
copy_step-kept timeout w closing s = (refl, inl refl)
