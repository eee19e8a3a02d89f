-- ===== src/Render/Round/Window.antt =====
-- The part of a round that is for one window, as steps of the windows' rings.
use chess_rts.Base.{
  true, ℕ, ◌<◌, ◌≡◌, ◌≢◌, ◌⊎◌, refl, inl, inr, some, List, [], ◌∷◌, ◌++◌, ◌+◌, ◌%◌, sym, ◌∙◌, ap,
  Bool-cases, ◌==◌, ==_iff, update, update_self, update_ne,
}
use chess_rts.Base.Int.{ℤ, pos}
use chess_rts.State.{max_windows, Floats, RenderPacket, RenderThreadInit, RenderRing, Globals}
use chess_rts.Render.{frame_slots, idle, took, store_active, render_take}
use chess_rts.Render.Frame.{
  Acquire, image, no_image, out_of_date, other_error, FrameAnswers, is_defined, is_skipped,
  frame_acquired, drawn, render_frame_lem, framed as framed_by, after_frame, set_busy, Rendered,
  render_slot, after_take, render_window,
}
use chess_rts.Render.Fifo.System.{take}
use chess_rts.Render.Fifo.Order.{render_take_stored}
use chess_rts.Render.Fifo.Windows.{Windows, view, put, AllReach, later, own, write}
use chess_rts.Render.Fifo.Windows.Alone.{AllReach-Reach}

-- The ring but for one packet, and the handles of the windows.
record OnlyPacket {fl : Floats} (slot : ℕ) (g g' : Globals fl) : Type 0 where
  packet : RenderPacket
  ring :
      (g'.ring ≡ g.ring)
      ⊎ (g'.ring ≡ record (g.ring) { packets = update g.ring.packets slot packet })
  wsi : g'.window_wsi ≡ g.window_wsi
  flags :
      (g'.mailbox.is_running ≡ g.mailbox.is_running)
      × (g'.render_thread_active ≡ g.render_thread_active)

untouched : {fl : Floats} (slot : ℕ) (g : Globals fl) → OnlyPacket slot g g
untouched slot g = record {
  packet = g.ring.packets slot;
  ring = inl refl;
  wsi = refl;
  flags = (refl, refl);
}

acquired-OnlyPacket :
    {fl : Floats} (acquire : Acquire) (wid frame slot : ℕ) (g : Globals fl)
    → OnlyPacket slot g (frame_acquired acquire wid frame slot g).0
unfolding frame_acquired
acquired-OnlyPacket no_image wid frame slot g = untouched slot g
acquired-OnlyPacket other_error wid frame slot g = untouched slot g
acquired-OnlyPacket out_of_date wid frame slot g = record {
  packet = g.ring.packets slot;
  ring = inl refl;
  wsi = refl;
  flags = (refl, refl);
}
acquired-OnlyPacket (image index) wid frame slot g = record {
  packet = _;
  ring = inr refl;
  wsi = refl;
  flags = (refl, refl);
}

frame-OnlyPacket :
    {fl : Floats} (a : FrameAnswers) (wid frame slot : ℕ) (g : Globals fl)
    → OnlyPacket slot g (framed_by a wid frame slot g).0
unfolding framed_by drawn
frame-OnlyPacket a wid frame slot g = elim (Bool-cases (is_skipped wid slot g)) [
  | inl skip ↦ rw skip (untouched slot g)
  | inr go ↦ elim (Bool-cases a.wait_times_out) [
    | inl late ↦ rw (go, late) (untouched slot g)
    | inr prompt ↦ rw (go, prompt) (acquired-OnlyPacket a.acquire wid frame slot g)
  ]
]

-- What a round does with a window that has committed `committed` and taken `taken`: nothing if
-- nothing is waiting, or it takes the oldest waiting packet.
abbrev pub TakesOldest : (committed taken taken' : List ℤ) → Type 0
TakesOldest committed taken taken' =
    ((committed ≡ taken) × (taken' ≡ taken))
    ⊎ ((i : ℤ) × (rest : List ℤ) × (committed ≡ taken ++ i ∷ rest) × (taken' ≡ taken ++ i ∷ []))

-- The globals and the frame counters are those of the windows.
pub record Matches {fl : Floats} (frames : ℕ → ℕ) (s : Windows) (t_frame : ℕ → ℕ) (g : Globals fl)
    : Type 0 where
  pub ring : g.ring ≡ s.ring
  pub wsi : (v : ℕ) → (g.window_wsi v).max_frames_in_flight ≡ frames v
  pub frame : (v : ℕ) → t_frame v ≡ s.t_frame v

-- What the round of window `w` leaves.
pub record Served {fl : Floats} (frames : ℕ → ℕ) (w : ℕ) (s : Windows) (t_frame : ℕ → ℕ)
    (a : FrameAnswers) (g : Globals fl) : Type 0 where
  pub left : Rendered fl
  pub after : Windows
  pub runs : render_window a w (t_frame w) g ≡ some left
  pub reach : AllReach frames after
  pub flags :
      (left.globals.mailbox.is_running ≡ g.mailbox.is_running)
      × (left.globals.render_thread_active ≡ g.render_thread_active)
  pub matching : Matches frames after (update t_frame w left.t_frame) left.globals
  pub takes : TakesOldest (s.committed w) (s.taken w) (after.taken w)
  pub others : (v : ℕ) → v ≢ w → after.taken v ≡ s.taken v
  pub committed : (v : ℕ) → after.committed v ≡ s.committed v
  pub holding : (v : ℕ) → after.holding v ≡ s.holding v

update_same : {A : Type 0} (f : ℕ → A) (w v : ℕ) → update f w (f w) v ≡ f v
update_same f w v = elim (Bool-cases (w == v)) [
  | inl same ↦ rw same (ap f ((==_iff w v).0 same))
  | inr other ↦ rw other
]

module _ {fl : Floats} {frames : ℕ → ℕ} {s : Windows} {t_frame : ℕ → ℕ} {g : Globals fl} (w : ℕ)
    (a : FrameAnswers) (defined : is_defined a.acquire ≡ true) (lt : w < max_windows)
    (reach : AllReach frames s) (mt : Matches frames s t_frame g) where
  take_same :
      render_take w (g.window_wsi w).max_frames_in_flight (t_frame w) g.ring
      ≡ render_take w (frames w) (s.t_frame w) s.ring
  take_same = rw (mt.wsi w, mt.frame w, mt.ring)

  idle-Served :
      render_take w (frames w) (s.t_frame w) s.ring ≡ idle
      → s.committed w ≡ s.taken w
      → Served frames w s t_frame a g
  unfolding render_window after_take
  idle-Served e c = record {
    left = record { globals = g; t_frame = t_frame w; calls = [] };
    after = s;
    runs = ap (after_take a w (t_frame w) g) (take_same ∙ e);
    reach = reach;
    flags = (refl, refl);
    matching = record {
      ring = mt.ring;
      wsi = mt.wsi;
      frame = λ v. update_same t_frame w v ∙ mt.frame v;
    };
    takes = inl (c, refl);
    others = λ v other. refl;
    committed = λ v. refl;
    holding = λ v. refl;
  }

  -- A slot that the bookkeeping has taken.
  module _ (slot f mask : ℕ) (rest : List ℤ)
      (e : render_take w (frames w) (s.t_frame w) s.ring
        ≡ took (pos slot) f (store_active w f (pos slot) s.ring mask))
      (c : s.committed w ≡ s.taken w ++ pos slot ∷ rest) where
    abbrev next : Windows
    next =
        put w
          (record (view w s) {
            ring = store_active w f (pos slot) s.ring mask;
            t_frame = (f + 1) % frame_slots (frames w);
            taken = s.taken w ++ pos slot ∷ [];
          })
          s

    reach_next : AllReach frames next
    reach_next = later reach (own lt (take e) tt)

    abbrev taken_globals : Globals fl
    taken_globals = set_busy w (pos 1) (record g { ring = next.ring })

    abbrev framed : Globals fl
    framed = (framed_by a w f slot taken_globals).0

    abbrev rendered : Rendered fl
    rendered = record {
      globals = set_busy w (pos 0) framed;
      t_frame = (f + 1) % frame_slots (g.window_wsi w).max_frames_in_flight;
      calls = (framed_by a w f slot taken_globals).1;
    }

    rendered_runs : render_window a w (t_frame w) g ≡ some rendered
    unfolding render_window after_take render_slot after_frame
    rendered_runs =
        ap (after_take a w (t_frame w) g) (take_same ∙ e)
        ∙ ap (after_frame w f (record g { ring = next.ring }))
            (render_frame_lem a w f slot taken_globals defined)

    frames_after : (v : ℕ) → update t_frame w rendered.t_frame v ≡ next.t_frame v
    frames_after v = elim (Bool-cases (w == v)) [
      | inl same ↦ rw same (ap (λ k. (f + 1) % frame_slots k) (mt.wsi w))
      | inr other ↦ rw other (mt.frame v)
    ]

    leaves :
        (ring : RenderRing)
        → framed.ring ≡ ring
        → framed.window_wsi ≡ g.window_wsi
        → AllReach frames (record next { ring = ring })
        → Served frames w s t_frame a g
    leaves ring same wsi reach' = record {
      left = rendered;
      after = record next { ring = ring };
      runs = rendered_runs;
      reach = reach';
      flags = (frame-OnlyPacket a w f slot taken_globals).flags;
      matching = record {
        ring = same;
        wsi = λ v. ap (λ (h : ℕ → RenderThreadInit). (h v).max_frames_in_flight) wsi ∙ mt.wsi v;
        frame = frames_after;
      };
      takes = inr (pos slot, rest, c, update_self s.taken w (s.taken w ++ pos slot ∷ []));
      others = λ v other. update_ne s.taken w v (s.taken w ++ pos slot ∷ []) (λ q. other (sym q));
      committed = update_same s.committed w;
      holding = update_same s.holding w;
    }

    taken-Served : Served frames w s t_frame a g
    taken-Served =
        let only = frame-OnlyPacket a w f slot taken_globals in
        elim only.ring [
          | inl same ↦ leaves next.ring same only.wsi reach_next
          | inr stored ↦ leaves _ stored only.wsi (later reach_next (write slot only.packet))
        ]

  pub window-Served : Served frames w s t_frame a g
  window-Served = elim (render_take_stored lt (AllReach-Reach lt reach)) [
    | inl (e, c) ↦ idle-Served e c
    | inr (slot, f, mask, rest, e, c) ↦ taken-Served slot f mask rest e c
  ]
