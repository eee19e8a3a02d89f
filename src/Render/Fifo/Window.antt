-- ===== src/Render/Fifo/Window.antt =====
-- The whole round of the render thread for a window whose ring is used as a queue.
use chess_rts.Base.{
  true, ℕ, ◌<◌, ◌≡◌, refl, sym, ap, ◌∙◌, some, ◌⊎◌, inl, inr, List, [], ◌∷◌, ◌++◌, Bool-cases,
  update_self,
}
use chess_rts.Base.Int.{ℤ, pos}
use chess_rts.State.{max_windows, Floats, RenderRing, Globals}
use chess_rts.Render.{Take, idle, took, store_active, render_take}
use chess_rts.Render.Frame.{
  Acquire, image, no_image, out_of_date, other_error, FrameAnswers, is_defined, is_skipped,
  frame_acquired, drawn, render_frame_lem, framed, after_frame, set_busy, Rendered, render_slot,
  after_take, render_window,
}
use chess_rts.Render.Fifo.System.{System, Reach}
use chess_rts.Render.Fifo.Order.{render_take_stored}

acquired_keeps_read :
    {fl : Floats} (acquire : Acquire) (wid frame slot : ℕ) (g : Globals fl)
    → (frame_acquired acquire wid frame slot g).0.ring.local_read ≡ g.ring.local_read
unfolding frame_acquired
acquired_keeps_read no_image wid frame slot g = refl
acquired_keeps_read out_of_date wid frame slot g = refl
acquired_keeps_read other_error wid frame slot g = refl
acquired_keeps_read (image _) wid frame slot g = refl

frame_keeps_read :
    {fl : Floats} (a : FrameAnswers) (wid frame slot : ℕ) (g : Globals fl)
    → (framed a wid frame slot g).0.ring.local_read ≡ g.ring.local_read
unfolding framed drawn
frame_keeps_read a wid frame slot g = elim (Bool-cases (is_skipped wid slot g)) [
  | inl skip ↦ rw skip refl
  | inr go ↦ elim (Bool-cases a.wait_times_out) [
    | inl late ↦ rw (go, late) refl
    | inr prompt ↦ rw (go, prompt) (acquired_keeps_read a.acquire wid frame slot g)
  ]
]

-- The ring after the bookkeeping is what the thread reads its place from.
read-store_active :
    (w f : ℕ) (i : ℤ) (r : RenderRing) (mask : ℕ) → (store_active w f i r mask).local_read w ≡ i
unfolding store_active
read-store_active w f i r mask = update_self r.local_read w i

-- The round for a slot that the bookkeeping has taken.
abbrev pub Served : {fl : Floats} → (w : ℕ) → ℤ → Rendered fl → Type 0
Served w i r = (r.globals.ring.local_read w ≡ i) × (r.globals.render_busy w ≡ pos 0)

slot_served :
    {fl : Floats} (a : FrameAnswers) (w f slot : ℕ) (g : Globals fl)
    → is_defined a.acquire ≡ true
    → g.ring.local_read w ≡ pos slot
    → (r : Rendered fl) × (render_slot a w f (pos slot) g ≡ some r) × Served w (pos slot) r
unfolding render_slot after_frame
slot_served a w f slot g defined read =
    let g' = (framed a w f slot (set_busy w (pos 1) g)).0 in
    (
      _,
      ap (after_frame w f g) (render_frame_lem a w f slot (set_busy w (pos 1) g) defined),
      (
        ap (λ (reads : ℕ → ℤ). reads w) (frame_keeps_read a w f slot (set_busy w (pos 1) g)) ∙ read,
        update_self g'.render_busy w (pos 0),
      ),
    )

window_taken :
    {fl : Floats} (a : FrameAnswers) (w t slot : ℕ) (g : Globals fl) (f mask : ℕ)
    → is_defined a.acquire ≡ true
    → render_take w (g.window_wsi w).max_frames_in_flight t g.ring
      ≡ took (pos slot) f (store_active w f (pos slot) g.ring mask)
    → (r : Rendered fl) × (render_window a w t g ≡ some r) × Served w (pos slot) r
unfolding render_window after_take
window_taken a w t slot g f mask defined e =
    let (r, eq, served) =
      slot_served a w f slot (record g { ring = store_active w f (pos slot) g.ring mask }) defined
        (read-store_active w f (pos slot) g.ring mask) in
    (r, ap (after_take a w t g) e ∙ eq, served)

window_idle :
    {fl : Floats} (a : FrameAnswers) (w t : ℕ) (g : Globals fl)
    → render_take w (g.window_wsi w).max_frames_in_flight t g.ring ≡ idle
    → render_window a w t g ≡ some (record { globals = g; t_frame = t; calls = [] })
unfolding render_window after_take
window_idle a w t g e = ap (after_take a w t g) e

-- From globals whose ring is one that the steps of a window in range reach from a fresh ring, the
-- render thread's round for the window has no undefined behaviour, if `vkAcquireNextImageKHR`
-- answers with an index within the arrays or with one of the three errors that the code tests. Either
-- nothing is waiting and it changes nothing, or it moves on to the slot of the
-- oldest waiting packet and has cleared the window's busy flag when it ends.
pub render_window-Served :
    {fl : Floats} {w : ℕ} {s : System} (a : FrameAnswers) (g : Globals fl)
    → is_defined a.acquire ≡ true
    → w < max_windows
    → Reach w (g.window_wsi w).max_frames_in_flight s
    → g.ring ≡ s.ring
    → (r : Rendered fl) × (render_window a w s.t_frame g ≡ some r)
      × (((s.committed ≡ s.taken) × (r.globals ≡ g) × (r.t_frame ≡ s.t_frame))
          ⊎ ((i : ℤ) × (rest : List ℤ) × (s.committed ≡ s.taken ++ i ∷ rest) × Served w i r))
render_window-Served {fl} {w} {s} a g defined lt reach same = elim (render_take_stored lt reach) [
  | inl (e, c) ↦ (_, window_idle a w s.t_frame g (ap (take_of s g) same ∙ e), inl (c, refl, refl))
  | inr (slot, f, mask, rest, e, c) ↦
      let (r, eq, served) = window_taken a w s.t_frame slot g f mask defined (
        ap (take_of s g) same
        ∙ e
        ∙ ap (λ ring. took (pos slot) f (store_active w f (pos slot) ring mask)) (sym same)) in
      (r, eq, inr (pos slot, rest, c, served))
]
  where
    take_of : System → Globals fl → RenderRing → Take
    take_of s g ring = render_take w (g.window_wsi w).max_frames_in_flight s.t_frame ring
