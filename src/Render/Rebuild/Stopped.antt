-- ===== src/Render/Rebuild/Stopped.antt =====
-- The windows after the loop that serves the rebuild commands.
use mathlib.Core.Path.{subst}
use chess_rts.Base.{
  at_or_after, ℕ, zero, suc, ◌+◌, ◌≤◌, ◌<◌, ◌≡◌, ◌≢◌, refl, ap, ◌∙◌, Bool, true, false, some, inl,
  inr, List, [], ◌++◌, if◌then◌else◌, ◌>>=◌, arith, update_self, update_ne, Bool-cases,
}
use chess_rts.Base.Int.{ℤ, pos, eqb_ℤ}
use chess_rts.State.{cmd_idle, cmd_rebuild_wsi, max_windows, Floats, TenantMailbox, Globals}
use chess_rts.Spin.Bounded.{drain_wait_lem}
use chess_rts.Render.Rebuild.{
  RebuildCall, stop_window, rebuild_calls, rebuild_window, rebuild_windows,
}
use chess_rts.Render.Rebuild.Calls.{
  is_ordered, wanted_calls, wanted_for, wanted_calls_ext, rebuild_calls-calls_for,
}

-- What the loop is to leave of a window: the resize flag clear and the command idle, where it was to be
-- rebuilt, and all else as it was.
abbrev pub wanted_tenant : {fl : Floats} → ℕ → Globals fl → TenantMailbox fl
wanted_tenant w g =
    if is_ordered w g
    then record (g.mailbox.tenants w) { window_resized = pos 0; glfw_cmd = pos cmd_idle }
    else g.mailbox.tenants w

abbrev pub wanted_wsi : {fl : Floats} → ℕ → Globals fl → ℤ
wanted_wsi w g = if is_ordered w g then pos 0 else g.wsi_state w

-- The windows from `from` up to `until` are served, the others, the ring, the handles and the
-- running flags are as they were.
pub record Stopped {fl : Floats} (from until : ℕ) (g g' : Globals fl) : Type 0 where
  pub tenants : (v : ℕ) → from ≤ v → v < until → g'.mailbox.tenants v ≡ wanted_tenant v g
  pub wsi : (v : ℕ) → from ≤ v → v < until → g'.wsi_state v ≡ wanted_wsi v g
  pub before : (v : ℕ) → v < from → g'.mailbox.tenants v ≡ g.mailbox.tenants v
  pub wsi_before : (v : ℕ) → v < from → g'.wsi_state v ≡ g.wsi_state v
  pub ring : g'.ring ≡ g.ring
  pub handles : g'.window_wsi ≡ g.window_wsi
  pub render_pools : g'.render_cmd_pools ≡ g.render_cmd_pools
  pub transfer_pools : g'.transfer_cmd_pools ≡ g.transfer_cmd_pools
  pub running : g'.mailbox.is_running ≡ g.mailbox.is_running
  pub active : g'.render_thread_active ≡ g.render_thread_active

-- One window is served, and the others are as they were.
record Served {fl : Floats} (w : ℕ) (g g' : Globals fl) : Type 0 where
  tenant : g'.mailbox.tenants w ≡ wanted_tenant w g
  wsi : g'.wsi_state w ≡ wanted_wsi w g
  others : (v : ℕ) → w ≢ v → g'.mailbox.tenants v ≡ g.mailbox.tenants v
  wsi_others : (v : ℕ) → w ≢ v → g'.wsi_state v ≡ g.wsi_state v
  ring : g'.ring ≡ g.ring
  handles : g'.window_wsi ≡ g.window_wsi
  render_pools : g'.render_cmd_pools ≡ g.render_cmd_pools
  transfer_pools : g'.transfer_cmd_pools ≡ g.transfer_cmd_pools
  running : g'.mailbox.is_running ≡ g.mailbox.is_running
  active : g'.render_thread_active ≡ g.render_thread_active

stop_window-Served :
    {fl : Floats} (w : ℕ) (g : Globals fl) → is_ordered w g ≡ true → Served w g (stop_window w g)
unfolding stop_window
stop_window-Served w g e = record {
  tenant = rw e (update_self g.mailbox.tenants w _);
  wsi = rw e (update_self g.wsi_state w (pos 0));
  others = λ v ne. update_ne g.mailbox.tenants w v _ ne;
  wsi_others = λ v ne. update_ne g.wsi_state w v (pos 0) ne;
  ring = refl;
  handles = refl;
  render_pools = refl;
  transfer_pools = refl;
  running = refl;
  active = refl;
}

left_alone : {fl : Floats} (w : ℕ) (g : Globals fl) → is_ordered w g ≡ false → Served w g g
left_alone w g e = record {
  tenant = rw e refl;
  wsi = rw e refl;
  others = λ v ne. refl;
  wsi_others = λ v ne. refl;
  ring = refl;
  handles = refl;
  render_pools = refl;
  transfer_pools = refl;
  running = refl;
  active = refl;
}

rebuild_window-Served :
    {fl : Floats} (busy : ℕ → Bool) (w : ℕ) (g : Globals fl)
    → (g' : Globals fl) × (calls : List RebuildCall) × (rebuild_window busy w g ≡ some (g', calls))
      × Served w g g'
      × (calls ≡ wanted_for w g)
unfolding rebuild_window wanted_for
rebuild_window-Served busy w g = elim (Bool-cases (is_ordered w g)) [
  | inl ordered ↦
      let served = stop_window-Served w g ordered in
      rw (ordered, drain_wait_lem busy)
        (stop_window w g, rebuild_calls w g, refl, served, rebuild_calls-calls_for w g)
  | inr other ↦ let served = left_alone w g other in rw other (g, [], refl, served, refl)
]

wanted_ext :
    {fl : Floats} (v : ℕ) (g h : Globals fl)
    → h.mailbox.tenants v ≡ g.mailbox.tenants v
    → wanted_tenant v h ≡ wanted_tenant v g
wanted_ext {fl} v g h e =
    ap
      (λ (t : TenantMailbox fl).
        if eqb_ℤ t.glfw_cmd (pos cmd_rebuild_wsi)
        then record t { window_resized = pos 0; glfw_cmd = pos cmd_idle }
        else t)
      e

wanted_wsi_ext :
    {fl : Floats} (v : ℕ) (g h : Globals fl)
    → h.mailbox.tenants v ≡ g.mailbox.tenants v
    → h.wsi_state v ≡ g.wsi_state v
    → wanted_wsi v h ≡ wanted_wsi v g
wanted_wsi_ext {fl} v g h e e' =
    ap
      (λ (t : TenantMailbox fl).
        if eqb_ℤ t.glfw_cmd (pos cmd_rebuild_wsi) then pos 0 else h.wsi_state v)
      e
    ∙ ap (λ x. if is_ordered v g then pos 0 else x) e'

served_first :
    {fl : Floats} (left w : ℕ) (g g' g'' : Globals fl)
    → Served w g g'
    → Stopped (w + 1) (w + 1 + left) g' g''
    → Stopped w (w + suc left) g g''
served_first {fl} left w g g' g'' h later = record {
  tenants = λ v lo hi. elim (at_or_after w v lo) [
    | inl same ↦
        subst (λ k. g''.mailbox.tenants k ≡ wanted_tenant k g) same
          (later.before w (omega arith) ∙ h.tenant)
    | inr above ↦ later.tenants v above (omega arith) ∙ wanted_ext v g g' (h.others v (omega arith))
  ];
  wsi = λ v lo hi. elim (at_or_after w v lo) [
    | inl same ↦
        subst (λ k. g''.wsi_state k ≡ wanted_wsi k g) same
          (later.wsi_before w (omega arith) ∙ h.wsi)
    | inr above ↦
        later.wsi v above (omega arith)
        ∙ wanted_wsi_ext v g g' (h.others v (omega arith)) (h.wsi_others v (omega arith))
  ];
  before = λ v lt. later.before v (omega arith) ∙ h.others v (omega arith);
  wsi_before = λ v lt. later.wsi_before v (omega arith) ∙ h.wsi_others v (omega arith);
  ring = later.ring ∙ h.ring;
  handles = later.handles ∙ h.handles;
  render_pools = later.render_pools ∙ h.render_pools;
  transfer_pools = later.transfer_pools ∙ h.transfer_pools;
  running = later.running ∙ h.running;
  active = later.active ∙ h.active;
}

rebuild_from :
    {fl : Floats} (left : ℕ) (busy : ℕ → ℕ → Bool) (w : ℕ) (g : Globals fl)
    → (g' : Globals fl) × (calls : List RebuildCall) × (rebuild_windows left busy w g
        ≡ some (g', calls))
      × Stopped w (w + left) g g'
      × (calls ≡ wanted_calls left w g)
unfolding rebuild_windows wanted_calls wanted_for
rebuild_from zero busy w g = (
  g,
  [],
  refl,
  record {
    tenants = λ v lo hi. absurd (omega arith);
    wsi = λ v lo hi. absurd (omega arith);
    before = λ v lt. refl;
    wsi_before = λ v lt. refl;
    ring = refl;
    handles = refl;
    render_pools = refl;
    transfer_pools = refl;
    running = refl;
    active = refl;
  },
  refl,
)
rebuild_from (suc left) busy w g =
    let (g', calls, e, h, c) = rebuild_window-Served (busy w) w g in
    let (g'', more, e', later, c') = rebuild_from left busy (w + 1) g' in
    (
      g'',
      calls ++ more,
      ap (λ o. o >>= λ r. rebuild_windows left busy (w + 1) r.0 >>= λ r'. some (r'.0, r.1 ++ r'.1))
            e
          ∙ ap (λ o. o >>= λ r'. some (r'.0, calls ++ r'.1)) e',
      served_first left w g g' g'' h later,
      ap (λ l. l ++ more) c
          ∙ ap (λ l. wanted_for w g ++ l)
              (c'
                ∙ wanted_calls_ext left (w + 1) g g' (λ v lo. h.others v (omega (arith, lo)))
                    h.handles h.render_pools h.transfer_pools),
    )

-- Whatever the waits see, the loop ends. Every window with a rebuild command is stopped
-- (`g_wsi_state` is 0), its resize flag is cleared, its command is idle and the rest of its mailbox is
-- as it was; every other window, and the packet ring, the handles, the pools and the running flags,
-- is as it was. The calls are, for the windows with a rebuild command that have a device, in order: a
-- wait for both queues and a reset of both pools, those that are not NULL.
pub rebuild_windows-Stopped :
    {fl : Floats} (busy : ℕ → ℕ → Bool) (g : Globals fl)
    → (g' : Globals fl) × (calls : List RebuildCall) × (rebuild_windows max_windows busy 0 g
        ≡ some (g', calls))
      × Stopped 0 max_windows g g'
      × (calls ≡ wanted_calls max_windows 0 g)
rebuild_windows-Stopped busy g = rebuild_from max_windows busy 0 g
