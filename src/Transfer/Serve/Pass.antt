-- ===== src/Transfer/Serve/Pass.antt =====
-- What one pass of the transfer thread over the ring does, where no wait times out.
use mathlib.Core.Path.{subst}
use mathlib.Core.List.{append_assoc}
use chess_rts.Base.{
  at_or_after, ℕ, zero, suc, ◌+◌, ◌≤◌, ◌<◌, ◌≡◌, refl, sym, ap, ◌∙◌, Bool, true, false, ◌||◌, ◌==◌,
  ◌⊎◌, inl, inr, List, [], ◌∷◌, ◌++◌, arith,
}
use chess_rts.Base.Int.{ℤ, pos, eqb_ℤ}
use chess_rts.State.{transfer_ring_size, TransferJob, RenderThreadInit, Floats, Globals}
use chess_rts.Transfer.{
  CopyCall, skipped, worked, Outcome, stopped, serve_job, Pass, followed_by, serve_ring,
}
use chess_rts.Transfer.Serve.{
  copied_by, copies, due_to, due, freed, Addressed, Done, serve_job-Done,
}

-- The pass over `n` jobs from the `i`-th on.
pub record Passed {fl : Floats} (n i : ℕ) (g : Globals fl) (p : Pass fl) : Type 0 where
  pub faulted : p.faulted ≡ false
  pub copied : copies p.calls ≡ due (stopped g) n i g.transfer_ring
  pub status :
      (j : ℕ)
      → i ≤ j
      → j < i + n
      → (p.globals.transfer_ring j).status ≡ freed (g.transfer_ring j).status
  pub before : (j : ℕ) → j < i → p.globals.transfer_ring j ≡ g.transfer_ring j

copies-append : (xs ys : List CopyCall) → copies (xs ++ ys) ≡ copies xs ++ copies ys
unfolding copies
copies-append [] ys = refl
copies-append (x ∷ xs) ys =
    ap (λ ds. copied_by x ++ ds) (copies-append xs ys)
    ∙ sym (append_assoc (copied_by x) (copies xs) (copies ys))

abbrev stopped_by : (ℕ → ℤ) → (ℕ → RenderThreadInit) → (ℕ → ℕ) → ℕ → Bool
stopped_by wsi handles pools wid =
    eqb_ℤ (wsi wid) (pos 0) || (handles wid).device == 0 || pools wid == 0

stopped_ext :
    {fl : Floats} (g h : Globals fl)
    → h.wsi_state ≡ g.wsi_state
    → h.window_wsi ≡ g.window_wsi
    → h.transfer_cmd_pools ≡ g.transfer_cmd_pools
    → stopped h ≡ stopped g
stopped_ext g h wsi handles pools =
    ap (λ x. stopped_by x h.window_wsi h.transfer_cmd_pools) wsi
    ∙ ap (λ x. stopped_by g.wsi_state x h.transfer_cmd_pools) handles
    ∙ ap (stopped_by g.wsi_state g.window_wsi) pools

due_ext :
    (stop stop' : ℕ → Bool) (n i : ℕ) (ring ring' : ℕ → TransferJob)
    → stop' ≡ stop
    → ((j : ℕ) → i ≤ j → ring' j ≡ ring j)
    → due stop' n i ring' ≡ due stop n i ring
unfolding due
due_ext stop stop' zero i ring ring' e same = refl
due_ext stop stop' (suc n) i ring ring' e same =
    ap (λ s. due_to s (ring' i) ++ due stop' n (i + 1) ring') e
    ∙ ap (λ job. due_to stop job ++ due stop' n (i + 1) ring') (same i (omega arith))
    ∙ ap (λ ds. due_to stop (ring i) ++ ds)
        (due_ext stop stop' n (i + 1) ring ring' e (λ j lo. same j (omega arith)))

followed_by-Passed :
    {fl : Floats} (n i : ℕ) (g : Globals fl) (o : Outcome fl) (rest : Pass fl)
    → Done i g (due_to (stopped g) (g.transfer_ring i)) o
    → Passed n (i + 1) o.globals rest
    → (p : Pass fl) → p.globals ≡ rest.globals
    → p.faulted ≡ rest.faulted
    → p.calls ≡ o.calls ++ rest.calls
    → Passed (suc n) i g p
unfolding due
followed_by-Passed n i g o rest h later p eg ef ec = record {
  faulted = ef ∙ later.faulted;
  copied =
      ap copies ec
      ∙ copies-append o.calls rest.calls
      ∙ ap (λ ds. ds ++ copies rest.calls) h.copied
      ∙ ap (λ ds. due_to (stopped g) (g.transfer_ring i) ++ ds)
          (later.copied
            ∙ due_ext (stopped g) (stopped o.globals) n (i + 1) g.transfer_ring
                o.globals.transfer_ring (stopped_ext g o.globals h.wsi h.handles h.pools)
                (λ j lo. h.others j (omega arith)));
  status = λ j lo hi. elim (at_or_after i j lo) [
    | inl same ↦
        subst (λ k. (p.globals.transfer_ring k).status ≡ freed (g.transfer_ring k).status) same
          (ap (λ (x : Globals _). (x.transfer_ring i).status) eg
            ∙ ap (λ (job : TransferJob). job.status) (later.before i (omega arith))
            ∙ h.status)
    | inr above ↦
        ap (λ (x : Globals _). (x.transfer_ring j).status) eg
        ∙ later.status j above (omega arith)
        ∙ ap (λ (job : TransferJob). freed job.status) (h.others j (omega arith))
  ];
  before = λ j lt.
      ap (λ (x : Globals _). x.transfer_ring j) eg
      ∙ later.before j (omega arith)
      ∙ h.others j (omega arith);
}

serve_job_prompt :
    {fl : Floats} (timeout : Bool) (i : ℕ) (g : Globals fl)
    → timeout ≡ false
    → Addressed i (i + 1) g.transfer_ring
    → Done i g (due_to (stopped g) (g.transfer_ring i)) (serve_job timeout i g)
serve_job_prompt true i g e good = ground arith
serve_job_prompt false i g e good = serve_job-Done i g good

Addressed-later :
    {fl : Floats} (i n : ℕ) (g : Globals fl) (o : Outcome fl)
    → Done i g (due_to (stopped g) (g.transfer_ring i)) o
    → Addressed i (i + suc n) g.transfer_ring
    → Addressed (i + 1) (i + 1 + n) o.globals.transfer_ring
Addressed-later i n g o h good j lo hi ready =
    let same = h.others j (omega arith) in
    let (w, e, lt) =
      good j (omega arith) (omega arith)
        (ap (λ (job : TransferJob). eqb_ℤ job.status (pos 2)) (sym same) ∙ ready) in
    (w, ap (λ (job : TransferJob). job.target_window_id) same ∙ e, lt)

goes_on :
    {fl : Floats} (n i : ℕ) (g : Globals fl) (o : Outcome fl) (rest : Pass fl)
    → Done i g (due_to (stopped g) (g.transfer_ring i)) o
    → Passed n (i + 1) o.globals rest
    → (o.served ≡ skipped) ⊎ (o.served ≡ worked)
    → Passed (suc n) i g (followed_by o rest)
unfolding followed_by
goes_on n i g o rest h later (inl e) =
    rw e (followed_by-Passed n i g o rest h later _ refl refl refl)
goes_on n i g o rest h later (inr e) =
    rw e (followed_by-Passed n i g o rest h later _ refl refl refl)

serve_ring-Passed :
    {fl : Floats} (n : ℕ) (timeout : ℕ → Bool) (i : ℕ) (g : Globals fl)
    → ((j : ℕ) → timeout j ≡ false)
    → Addressed i (i + n) g.transfer_ring
    → Passed n i g (serve_ring n timeout i g)
unfolding serve_ring copies due
serve_ring-Passed zero timeout i g prompt good = record {
  faulted = refl;
  copied = refl;
  status = λ j lo hi. absurd (omega arith);
  before = λ j lt. refl;
}
serve_ring-Passed (suc n) timeout i g prompt good =
    let o = serve_job (timeout i) i g in
    let h = serve_job_prompt (timeout i) i g (prompt i) (λ j lo hi. good j lo (omega arith)) in
    let rest = serve_ring n timeout (i + 1) o.globals in
    let later =
      serve_ring-Passed n timeout (i + 1) o.globals prompt (Addressed-later i n g o h good) in
    goes_on n i g o rest h later h.served

-- Where each ready job names a window in range and no wait times out, a pass over the ring ends
-- without a fault: its copies are those of the ready jobs whose windows are running, each once and
-- in the order of the ring; each ready job is free afterwards, and no other status has changed.
pub serve_ring-due :
    {fl : Floats} (timeout : ℕ → Bool) (g : Globals fl)
    → ((j : ℕ) → timeout j ≡ false)
    → Addressed 0 transfer_ring_size g.transfer_ring
    → Passed transfer_ring_size 0 g (serve_ring transfer_ring_size timeout 0 g)
serve_ring-due timeout g prompt good = serve_ring-Passed transfer_ring_size timeout 0 g prompt good
