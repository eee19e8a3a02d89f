-- ===== src/Render/Rebuild/Calls.antt =====
-- The calls of the loop that serves the rebuild commands.
use mathlib.Core.List.{append_assoc, append-nil}
use chess_rts.Base.{
  ◌∷◌, ◌==◌, sym, ℕ, zero, suc, ◌+◌, ◌≤◌, ◌≡◌, refl, ap, ◌∙◌, Bool, inl, inr, List, [], ◌++◌,
  if◌then◌else◌, arith, Bool-cases,
}
use chess_rts.Base.Int.{pos, eqb_ℤ}
use chess_rts.State.{cmd_rebuild_wsi, RenderThreadInit, Floats, Globals}
use chess_rts.Render.Rebuild.{
  queue_wait_idle, reset_command_pool, if_set, RebuildCall, rebuild_calls,
}

abbrev pub is_ordered : {fl : Floats} → ℕ → Globals fl → Bool
is_ordered w g = eqb_ℤ (g.mailbox.tenants w).glfw_cmd (pos cmd_rebuild_wsi)

-- The calls whose handle is not NULL.
pub present : List (ℕ × RebuildCall) → List RebuildCall
present [] = []
present ((handle, call) ∷ calls) =
    let rest = present calls in if handle == 0 then rest else call ∷ rest

-- What is to be called for a window: both queues waited for and both pools reset, those that there are,
-- if there is a device.
pub calls_for : RenderThreadInit → (render_pool transfer_pool : ℕ) → List RebuildCall
calls_for wsi render_pool transfer_pool =
    if wsi.device == 0
    then []
    else present (
        (wsi.queue, queue_wait_idle wsi.queue)
        ∷ (wsi.transfer_queue, queue_wait_idle wsi.transfer_queue)
        ∷ (render_pool, reset_command_pool wsi.device render_pool)
        ∷ (transfer_pool, reset_command_pool wsi.device transfer_pool)
        ∷ [])

-- For the windows with a rebuild command among `n` from `w` on, in order.
unfoldable pub wanted_calls : {fl : Floats} → (n w : ℕ) → Globals fl → List RebuildCall
wanted_calls zero w g = []
wanted_calls (suc n) w g =
    (if is_ordered w g
      then calls_for (g.window_wsi w) (g.render_cmd_pools w) (g.transfer_cmd_pools w)
      else [])
    ++ wanted_calls n (w + 1) g

present-cons :
    (handle : ℕ) (call : RebuildCall) (calls : List (ℕ × RebuildCall))
    → if_set handle call ++ present calls ≡ present ((handle, call) ∷ calls)
unfolding present
present-cons handle call calls = elim (Bool-cases (handle == 0)) [
  | inl null ↦ rw null refl
  | inr real ↦ rw real refl
]

pub rebuild_calls-calls_for :
    {fl : Floats} (w : ℕ) (g : Globals fl)
    → rebuild_calls w g ≡ calls_for (g.window_wsi w) (g.render_cmd_pools w) (g.transfer_cmd_pools w)
unfolding rebuild_calls calls_for present
rebuild_calls-calls_for w g =
    let wsi = g.window_wsi w in
    let r = g.render_cmd_pools w in
    let t = g.transfer_cmd_pools w in
    let on1 = queue_wait_idle wsi.queue in
    let on2 = queue_wait_idle wsi.transfer_queue in
    let on3 = reset_command_pool wsi.device r in
    let on4 = reset_command_pool wsi.device t in
    let q1 = if_set wsi.queue on1 in
    let q2 = if_set wsi.transfer_queue on2 in
    let p1 = if_set r on3 in
    ap (λ l. if wsi.device == 0 then [] else l)
      (four q1 q2 p1 (if_set t on4)
        ∙ ap (λ l. q1 ++ (q2 ++ (p1 ++ l))) (present-cons t on4 [])
        ∙ ap (λ l. q1 ++ (q2 ++ l)) (present-cons r on3 ((t, on4) ∷ []))
        ∙ ap (λ l. q1 ++ l) (present-cons wsi.transfer_queue on2 ((r, on3) ∷ (t, on4) ∷ []))
        ∙ present-cons wsi.queue on1 ((wsi.transfer_queue, on2) ∷ (r, on3) ∷ (t, on4) ∷ []))
  where
    four : (a b c d : List RebuildCall) → a ++ b ++ c ++ d ≡ a ++ (b ++ (c ++ (d ++ [])))
    four a b c d =
        append_assoc (a ++ b) c d
        ∙ append_assoc a b (c ++ d)
        ∙ ap (λ l. a ++ (b ++ (c ++ l))) (sym (append-nil d))

unfoldable pub wanted_for : {fl : Floats} → ℕ → Globals fl → List RebuildCall
wanted_for w g =
    if is_ordered w g
    then calls_for (g.window_wsi w) (g.render_cmd_pools w) (g.transfer_cmd_pools w)
    else []

wanted_for_ext :
    {fl : Floats} (v : ℕ) (g h : Globals fl)
    → h.mailbox.tenants v ≡ g.mailbox.tenants v
    → h.window_wsi ≡ g.window_wsi
    → h.render_cmd_pools ≡ g.render_cmd_pools
    → h.transfer_cmd_pools ≡ g.transfer_cmd_pools
    → wanted_for v h ≡ wanted_for v g
unfolding wanted_for
wanted_for_ext v g h e p q r = rw (e, p, q, r) refl

pub wanted_calls_ext :
    {fl : Floats} (n w : ℕ) (g h : Globals fl)
    → ((v : ℕ) → w ≤ v → h.mailbox.tenants v ≡ g.mailbox.tenants v)
    → h.window_wsi ≡ g.window_wsi
    → h.render_cmd_pools ≡ g.render_cmd_pools
    → h.transfer_cmd_pools ≡ g.transfer_cmd_pools
    → wanted_calls n w h ≡ wanted_calls n w g
unfolding wanted_calls wanted_for
wanted_calls_ext zero w g h e p q r = refl
wanted_calls_ext (suc n) w g h e p q r =
    ap (λ l. l ++ wanted_calls n (w + 1) h) (wanted_for_ext w g h (e w (omega arith)) p q r)
    ∙ ap (λ l. wanted_for w g ++ l)
        (wanted_calls_ext n (w + 1) g h (λ v lo. e v (omega (arith, lo))) p q r)
