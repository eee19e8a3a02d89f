-- ===== src/Render/Frame/Fence.antt =====
-- The fence of a frame over the calls of a round.
use chess_rts.Base.{
  Bool, true, false, not, ◌&&◌, some, ℕ, ◌≡◌, refl, inl, inr, List, [], ◌∷◌, if◌then◌else◌, ◌==◌,
  Bool-cases,
}
use chess_rts.State.{Floats, Globals}
use chess_rts.Render.Frame.{
  Acquire, image, no_image, out_of_date, other_error, FrameAnswers, is_defined, drawn, framed,
  render_frame_lem, FrameCall, wait_for_fence, acquire_next_image, reset_fence, queue_submit,
  frame_acquired, is_skipped, render_frame,
}

-- A fence is signalled (by work that is submitted) or not. Waiting for one that nothing will
-- signal and submitting with one that is still signalled are faults.
pub data Fence : Type 0 where
  signalled : Fence
  unsignalled : Fence
  faulty : Fence

pub waited : Fence → Fence
waited signalled = signalled
waited _ = faulty

pub reset : Fence → Fence
reset faulty = faulty
reset _ = unsignalled

-- A submission that fails leaves the fence as it is.
pub submitted : (ok : Bool) → Fence → Fence
submitted true unsignalled = signalled
submitted false unsignalled = unsignalled
submitted _ _ = faulty

pub fence_after : (ok : Bool) (frame : ℕ) → FrameCall → Fence → Fence
fence_after ok frame (wait_for_fence f) fence = if f == frame then waited fence else fence
fence_after ok frame (reset_fence f) fence = if f == frame then reset fence else fence
fence_after ok frame (queue_submit _ f _) fence = if f == frame then submitted ok fence else fence
fence_after ok frame _ fence = fence

pub fence_over : (ok : Bool) (frame : ℕ) → List FrameCall → Fence → Fence
fence_over ok frame [] fence = fence
fence_over ok frame (call ∷ calls) fence =
    fence_over ok frame calls (fence_after ok frame call fence)

-- Whether an image is acquired, so that the frame is submitted.
abbrev pub has_image : Acquire → Bool
has_image (image _) = true
has_image _ = false

-- Whether the fence `f` is that of a frame whose submission fails.
abbrev pub is_lost : FrameAnswers → (skipped : Bool) → (f frame : ℕ) → Bool
is_lost a skipped f frame =
    not skipped
    && (not a.wait_times_out && (has_image a.acquire && (frame == f && not a.submit_ok)))

fence_over_acquired :
    {fl : Floats} (ok : Bool) (acquire : Acquire) (f wid frame slot : ℕ) (g : Globals fl)
    → fence_over ok f (frame_acquired acquire wid frame slot g).1 signalled
      ≡ (if has_image acquire && (frame == f && not ok) then unsignalled else signalled)
unfolding frame_acquired fence_over fence_after reset submitted
fence_over_acquired ok no_image f wid frame slot g = refl
fence_over_acquired ok out_of_date f wid frame slot g = refl
fence_over_acquired ok other_error f wid frame slot g = refl
fence_over_acquired true (image index) f wid frame slot g = elim (Bool-cases (frame == f)) [
  | inl same ↦ rw same refl
  | inr other ↦ rw other refl
]
fence_over_acquired false (image index) f wid frame slot g = elim (Bool-cases (frame == f)) [
  | inl same ↦ rw same refl
  | inr other ↦ rw other refl
]

wait_signalled :
    (ok : Bool) (f frame : ℕ) (calls : List FrameCall) {after : Fence}
    → fence_over ok f calls signalled ≡ after
    → fence_over ok f (wait_for_fence frame ∷ calls) signalled ≡ after
unfolding fence_over fence_after waited
wait_signalled ok f frame calls e = elim (Bool-cases (frame == f)) [
  | inl same ↦ rw same e
  | inr other ↦ rw other e
]

framed-fence :
    {fl : Floats} (a : FrameAnswers) (f wid frame slot : ℕ) (g : Globals fl)
    → fence_over a.submit_ok f (framed a wid frame slot g).1 signalled
      ≡ (if is_lost a (is_skipped wid slot g) f frame then unsignalled else signalled)
unfolding framed drawn fence_over fence_after waited
framed-fence a f wid frame slot g = elim (Bool-cases (is_skipped wid slot g)) [
  | inl skip ↦ rw skip refl
  | inr go ↦ elim (Bool-cases a.wait_times_out) [
    | inl late ↦ rw (go, late) (wait_signalled a.submit_ok f frame [] refl)
    | inr prompt ↦
        rw (go, prompt)
          (wait_signalled a.submit_ok f frame
            (acquire_next_image frame ∷ (frame_acquired a.acquire wid frame slot g).1)
            (fence_over_acquired a.submit_ok a.acquire f wid frame slot g))
  ]
]

-- Wherever the frame of a window leaves off, if the wait for its fence succeeds or times out and the
-- acquisition answers with an index within the arrays or with one of the three errors that the code
-- tests: the frame has no undefined behaviour, and a fence that is signalled before the calls, or will
-- be by work submitted earlier, is so after them, except that of a frame that is submitted when
-- `vkQueueSubmit` fails, which nothing will signal any more. The calls never wait for a fence that
-- nothing will signal, and never submit with one that is signalled.
pub render_frame-fence :
    {fl : Floats} (a : FrameAnswers) (f wid frame slot : ℕ) (g : Globals fl)
    → is_defined a.acquire ≡ true
    → (r : Globals fl × List FrameCall) × (render_frame a wid frame slot g ≡ some r)
      × (fence_over a.submit_ok f r.1 signalled
          ≡ (if is_lost a (is_skipped wid slot g) f frame then unsignalled else signalled))
render_frame-fence a f wid frame slot g defined = (
  framed a wid frame slot g,
  render_frame_lem a wid frame slot g defined,
  framed-fence a f wid frame slot g,
)
