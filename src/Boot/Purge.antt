-- ===== src/Boot/Purge.antt =====
-- What `vx_thread_kill` leaves once the two threads have stopped.
use mathlib.Core.Path.{subst}
use chess_rts.Base.{
  ℕ, zero, suc, ◌+◌, ◌≤◌, ◌<◌, ◌≡◌, refl, ap, ◌∙◌, inl, inr, List, [], ◌∷◌, ◌++◌, ◌==◌, arith,
  at_or_after, update_self, update_ne, if◌then◌else◌,
}
use chess_rts.Base.Int.{pos, minus_one}
use chess_rts.State.{max_windows, Floats, RenderRing, RenderThreadInit, Globals}
use chess_rts.Boot.{
  KillCall, device_wait_idle, destroy_command_pool, destroy_fence, set_windows, purge_window,
  purge_windows, vx_thread_kill,
}
use chess_rts.Boot.Pools.Ledger.{Handle, destroyed, destroyed-append, Owns}

-- The handles of a window, with those that are NULL left out, as its own part destroys them.
abbrev pub held_by : {fl : Floats} → ℕ → Globals fl → List Handle
held_by w g = destroyed (purge_window w g).1

-- Those of `n` windows from window `w` on.
pub all_held : {fl : Floats} → ℕ → ℕ → Globals fl → List Handle
all_held zero w g = []
all_held (suc n) w g = held_by w g ++ all_held n (w + 1) g

-- The windows from `from` up to `until` have no handles, and the others and the ring are as before.
pub record Purged {fl : Floats} (from until : ℕ) (g g' : Globals fl) : Type 0 where
  pub none_left : (v : ℕ) → from ≤ v → v < until → Owns v g' 0 0 0
  pub ring : g'.ring ≡ g.ring
  pub wsi : g'.window_wsi ≡ g.window_wsi
  pub render_before : (v : ℕ) → v < from → g'.render_cmd_pools v ≡ g.render_cmd_pools v
  pub transfer_before : (v : ℕ) → v < from → g'.transfer_cmd_pools v ≡ g.transfer_cmd_pools v
  pub fence_before : (v : ℕ) → v < from → g'.transfer_fences v ≡ g.transfer_fences v

Purged-first :
    {fl : Floats} (n w : ℕ) (g g'' : Globals fl)
    → Purged (w + 1) (w + 1 + n) (purge_window w g).0 g''
    → Purged w (w + suc n) g g''
unfolding purge_window
Purged-first n w g g'' h = record {
  none_left = λ v lo hi. elim (at_or_after w v lo) [
    | inl same ↦
        subst (λ k. Owns k g'' 0 0 0) same
          (record {
            render = h.render_before w (omega arith) ∙ update_self g.render_cmd_pools w 0;
            transfer = h.transfer_before w (omega arith) ∙ update_self g.transfer_cmd_pools w 0;
            signal = h.fence_before w (omega arith) ∙ update_self g.transfer_fences w 0;
          })
    | inr above ↦ h.none_left v above (omega arith)
  ];
  ring = h.ring;
  wsi = h.wsi;
  render_before =
      λ v lt. h.render_before v (omega arith) ∙ update_ne g.render_cmd_pools w v 0 (omega arith);
  transfer_before = λ v lt.
      h.transfer_before v (omega arith) ∙ update_ne g.transfer_cmd_pools w v 0 (omega arith);
  fence_before =
      λ v lt. h.fence_before v (omega arith) ∙ update_ne g.transfer_fences w v 0 (omega arith);
}

purge_windows-Purged :
    {fl : Floats} (n w : ℕ) (g : Globals fl) → Purged w (w + n) g (purge_windows n w g).0
unfolding purge_windows
purge_windows-Purged zero w g = record {
  none_left = λ v lo hi. absurd (omega arith);
  ring = refl;
  wsi = refl;
  render_before = λ v lt. refl;
  transfer_before = λ v lt. refl;
  fence_before = λ v lt. refl;
}
purge_windows-Purged (suc n) w g =
    Purged-first n w g _ (purge_windows-Purged n (w + 1) (purge_window w g).0)

abbrev unless_null : ℕ → KillCall → List KillCall
unless_null handle call = if handle == 0 then [] else call ∷ []

-- The calls for one window, by its device and its handles.
abbrev calls_of : (device render transfer fence : ℕ) → List KillCall
calls_of device render transfer fence =
    unless_null device (device_wait_idle device)
    ++ unless_null render (destroy_command_pool device render)
    ++ unless_null transfer (destroy_command_pool device transfer)
    ++ unless_null fence (destroy_fence device fence)

held_by_ext :
    {fl : Floats} (v : ℕ) (g h : Globals fl)
    → h.window_wsi ≡ g.window_wsi
    → h.render_cmd_pools v ≡ g.render_cmd_pools v
    → h.transfer_cmd_pools v ≡ g.transfer_cmd_pools v
    → h.transfer_fences v ≡ g.transfer_fences v
    → held_by v h ≡ held_by v g
unfolding purge_window
held_by_ext v g h wsi render transfer fence =
    let device : ℕ = (g.window_wsi v).device in
    ap
      (λ (f : ℕ → RenderThreadInit). destroyed (
        calls_of (f v).device (h.render_cmd_pools v) (h.transfer_cmd_pools v)
          (h.transfer_fences v)))
      wsi
    ∙ ap (λ x. destroyed (calls_of device x (h.transfer_cmd_pools v) (h.transfer_fences v))) render
    ∙ ap (λ x. destroyed (calls_of device (g.render_cmd_pools v) x (h.transfer_fences v))) transfer
    ∙ ap (λ x. destroyed (calls_of device (g.render_cmd_pools v) (g.transfer_cmd_pools v) x)) fence

all_held_later :
    {fl : Floats} (n w k : ℕ) (g : Globals fl)
    → w < k
    → all_held n k (purge_window w g).0 ≡ all_held n k g
unfolding all_held purge_window
all_held_later zero w k g lt = refl
all_held_later (suc n) w k g lt =
    ap (λ hs. hs ++ all_held n (k + 1) (purge_window w g).0)
      (held_by_ext k g (purge_window w g).0 refl (update_ne g.render_cmd_pools w k 0 (omega arith))
        (update_ne g.transfer_cmd_pools w k 0 (omega arith))
        (update_ne g.transfer_fences w k 0 (omega arith)))
    ∙ ap (λ hs. held_by k g ++ hs) (all_held_later n w (k + 1) g (omega arith))

destroyed_none : destroyed [] ≡ []
unfolding destroyed
destroyed_none = refl

destroyed-purge_windows :
    {fl : Floats} (n w : ℕ) (g : Globals fl) → destroyed (purge_windows n w g).1 ≡ all_held n w g
unfolding purge_windows all_held
destroyed-purge_windows zero w g = destroyed_none
destroyed-purge_windows (suc n) w g =
    destroyed-append (purge_window w g).1 (purge_windows n (w + 1) (purge_window w g).0).1
    ∙ ap (λ hs. held_by w g ++ hs)
        (destroyed-purge_windows n (w + 1) (purge_window w g).0
          ∙ all_held_later n w (w + 1) g (omega arith))

all_held-ring :
    {fl : Floats} (n w : ℕ) (g : Globals fl) (ring : RenderRing)
    → all_held n w (record g { ring = ring }) ≡ all_held n w g
unfolding all_held purge_window
all_held-ring zero w g ring = refl
all_held-ring (suc n) w g ring = ap (λ hs. held_by w g ++ hs) (all_held-ring n (w + 1) g ring)

-- The state that the threads leave when they have stopped, with their flags cleared before.
abbrev pub halted : {fl : Floats} → (Globals fl → Globals fl) → Globals fl → Globals fl
halted stopped g =
    stopped (record g { render_thread_active = pos 0; transfer_thread_active = pos 0 })

-- Whatever state the two threads stop in: `vx_thread_kill` leaves every window in range without
-- handles and with no packet ready, no slot locked, and has destroyed the handles that the windows
-- had in that state, each once and on its window's device, and no others.
pub thread_kill-Purged :
    {fl : Floats} (stopped : Globals fl → Globals fl) (g : Globals fl)
    → let r = vx_thread_kill stopped g in
      ((w : ℕ) → w < max_windows → Owns w r.0 0 0 0 × (r.0.ring.ready_idx w ≡ minus_one))
      × (r.0.ring.locked_mask ≡ 0)
      × (destroyed r.1 ≡ all_held max_windows 0 (halted stopped g))
unfolding vx_thread_kill
thread_kill-Purged {fl} stopped g =
    let s = halted stopped g in
    let s' : Globals fl = record s {
      ring = record s.ring { ready_idx = set_windows minus_one s.ring.ready_idx; locked_mask = 0 };
    } in
    let h = purge_windows-Purged max_windows 0 s' in
    (
      λ w lt. (
        h.none_left w (omega arith) (omega arith),
        ap (λ (ring : RenderRing). ring.ready_idx w) h.ring ∙ ground arith,
      ),
      ap (λ (ring : RenderRing). ring.locked_mask) h.ring,
      destroyed-purge_windows max_windows 0 s' ∙ all_held-ring max_windows 0 s s'.ring,
    )
