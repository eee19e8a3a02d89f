-- ===== src/Transfer/Serve.antt =====
-- What the transfer thread does to one job, where the wait does not time out.
pub mod Pass
use mathlib.Core.Path.{subst}
use chess_rts.Base.{
  ℕ, zero, suc, ◌+◌, ◌≤◌, ◌<◌, ◌≡◌, ◌≢◌, refl, sym, ap, ◌∙◌, Bool, true, false, Option, none, some,
  ◌⊎◌, inl, inr, List, [], ◌∷◌, ◌++◌, if◌then◌else◌, arith, leb, ◌==◌, update, update_self,
  update_ne, lt→leb_false, Bool-cases,
}
use chess_rts.Base.Int.{ℤ, pos, negsuc, eqb_ℤ}
use chess_rts.State.{max_windows, transfer_ring_size, TransferJob, Floats, Globals}
use chess_rts.Transfer.{
  CopyCall, copy_buffer, Served, skipped, worked, Outcome, release, copy_calls, stopped,
  serve_window, serve_for, serve_job,
}

-- The buffers and the size of a copy.
abbrev pub Copied : Type 0
Copied = ℕ × ℕ × ℕ

abbrev pub copied_by : CopyCall → List Copied
copied_by (copy_buffer _ src dst size) = (src, dst, size) ∷ []
copied_by _ = []

-- The copies among the calls.
pub copies : List CopyCall → List Copied
copies [] = []
copies (call ∷ calls) = copied_by call ++ copies calls

abbrev pub asked_by : TransferJob → Copied
asked_by job = (job.src_buffer, job.dst_buffer, job.size)

-- What is due to a job: its copy, if it is ready and its window is running.
abbrev pub due_for : (stop : ℕ → Bool) → TransferJob → ℤ → List Copied
due_for stop job (negsuc _) = []
due_for stop job (pos wid) = if stop wid then [] else asked_by job ∷ []

abbrev pub due_to : (stop : ℕ → Bool) → TransferJob → List Copied
due_to stop job = if eqb_ℤ job.status (pos 2) then due_for stop job job.target_window_id else []

-- What is due to `n` jobs from the `i`-th on.
pub due : (stop : ℕ → Bool) → ℕ → ℕ → (ℕ → TransferJob) → List Copied
due stop zero i ring = []
due stop (suc n) i ring = due_to stop (ring i) ++ due stop n (i + 1) ring

-- The status of a job after the pass: a ready job is free.
abbrev pub freed : ℤ → ℤ
freed status = if eqb_ℤ status (pos 2) then pos 0 else status

-- Each ready job names a window in range.
abbrev pub Addressed : (from until : ℕ) → (ℕ → TransferJob) → Type 0
Addressed from until ring =
    (j : ℕ)
    → from ≤ j
    → j < until
    → eqb_ℤ (ring j).status (pos 2) ≡ true
    → (w : ℕ) × ((ring j).target_window_id ≡ pos w) × (w < max_windows)

-- The round for job `i` has made these copies, freed the job, and left the rest alone.
pub record Done {fl : Floats} (i : ℕ) (g : Globals fl) (want : List Copied) (o : Outcome fl)
    : Type 0 where
  pub served : (o.served ≡ skipped) ⊎ (o.served ≡ worked)
  pub copied : copies o.calls ≡ want
  pub status : (o.globals.transfer_ring i).status ≡ freed (g.transfer_ring i).status
  pub others : (j : ℕ) → i ≢ j → o.globals.transfer_ring j ≡ g.transfer_ring j
  pub wsi : o.globals.wsi_state ≡ g.wsi_state
  pub handles : o.globals.window_wsi ≡ g.window_wsi
  pub pools : o.globals.transfer_cmd_pools ≡ g.transfer_cmd_pools

freed_ready : (status : ℤ) → eqb_ℤ status (pos 2) ≡ true → pos 0 ≡ freed status
freed_ready status e = rw e

freed_other : (status : ℤ) → eqb_ℤ status (pos 2) ≡ false → status ≡ freed status
freed_other status e = rw e

released :
    {fl : Floats} (i wid : ℕ) (g : Globals fl) (want : List Copied) (served : Served)
    (calls : List CopyCall)
    → eqb_ℤ (g.transfer_ring i).status (pos 2) ≡ true
    → (served ≡ skipped) ⊎ (served ≡ worked)
    → copies calls ≡ want
    → Done i g want (record { globals = release i wid g; served = served; calls = calls })
released i wid g want served calls ready end e = record {
  served = end;
  copied = e;
  status =
      ap (λ (job : TransferJob). job.status) (update_self g.transfer_ring i _)
      ∙ freed_ready (g.transfer_ring i).status ready;
  others = λ j ne. update_ne g.transfer_ring i j _ ne;
  wsi = refl;
  handles = refl;
  pools = refl;
}

serve_window-Done :
    {fl : Floats} (i wid : ℕ) (g : Globals fl)
    → eqb_ℤ (g.transfer_ring i).status (pos 2) ≡ true
    → Done i g (due_for (stopped g) (g.transfer_ring i) (pos wid)) (serve_window false i wid g)
unfolding serve_window copies
serve_window-Done i wid g ready = elim (Bool-cases (stopped g wid)) [
  | inl stop ↦ rw stop (released i wid g [] skipped [] ready (inl refl) refl)
  | inr run ↦
      rw run (released i wid g (asked_by (g.transfer_ring i) ∷ []) worked _ ready (inr refl) refl)
]

busy : {fl : Floats} → ℕ → Globals fl → Globals fl
busy wid g = record g { transfer_busy = update g.transfer_busy wid (pos 1) }

serve_for-Done :
    {fl : Floats} (i wid : ℕ) (target : ℤ) (g : Globals fl)
    → target ≡ pos wid
    → wid < max_windows
    → eqb_ℤ (g.transfer_ring i).status (pos 2) ≡ true
    → Done i g (due_for (stopped g) (g.transfer_ring i) target) (serve_for false i target g)
unfolding serve_for busy
serve_for-Done i wid target g e lt ready =
    subst (λ t. Done i g (due_for (stopped g) (g.transfer_ring i) t) (serve_for false i t g))
      (sym e)
      (rw (lt→leb_false wid max_windows lt) (repack (serve_window-Done i wid (busy wid g) ready)))
  where
    repack :
        {o : Outcome _}
        → Done i (busy wid g) (due_for (stopped g) (g.transfer_ring i) (pos wid)) o
        → Done i g (due_for (stopped g) (g.transfer_ring i) (pos wid)) o
    repack h = record {
      served = h.served;
      copied = h.copied;
      status = h.status;
      others = h.others;
      wsi = h.wsi;
      handles = h.handles;
      pools = h.pools;
    }

pub serve_job-Done :
    {fl : Floats} (i : ℕ) (g : Globals fl)
    → Addressed i (i + 1) g.transfer_ring
    → Done i g (due_to (stopped g) (g.transfer_ring i)) (serve_job false i g)
unfolding serve_job copies
serve_job-Done i g good = elim (Bool-cases (eqb_ℤ (g.transfer_ring i).status (pos 2))) [
  | inl ready ↦
      let (wid, e, lt) = good i (omega arith) (omega arith) ready in
      rw ready (serve_for-Done i wid (g.transfer_ring i).target_window_id g e lt ready)
  | inr other ↦ rw other (record {
    served = inl refl;
    copied = refl;
    status = freed_other (g.transfer_ring i).status other;
    others = λ j ne. refl;
    wsi = refl;
    handles = refl;
    pools = refl;
  })
]
