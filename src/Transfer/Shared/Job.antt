-- ===== src/Transfer/Shared/Job.antt =====
-- What is known of one job of the ring, by its status.
use chess_rts.Base.{
  ℕ, ◌<◌, ◌≡◌, ◌≢◌, ◌↔◌, refl, inl, inr, sym, ap, ◌∙◌, Bool, some, List, [], ◌∷◌, ◌++◌, ◌==◌,
  ==_iff, arith, update, lt→leb_false, Bool-cases,
}
use mathlib.Core.Path.{subst}
use chess_rts.Base.Int.{ℤ, pos, eqb_ℤ}
use chess_rts.State.{max_windows, TransferJob, Floats, Globals}
use chess_rts.Transfer.{fault, Outcome, stopped, serve_window, serve_for, serve_job}
use chess_rts.Transfer.Shared.{Ended, Jobs}

-- What serving a ready job for a window in range leaves of the ring.
pub record Freed {fl : Floats} (i : ℕ) (g : Globals fl) (o : Outcome fl) : Type 0 where
  pub ring :
      o.globals.transfer_ring
      ≡ update g.transfer_ring i (record (g.transfer_ring i) { status = pos 0 })
  pub served : o.served ≢ fault

window-Freed :
    {fl : Floats} (timeout : Bool) (i wid : ℕ) (g : Globals fl)
    → Freed i g (serve_window timeout i wid g)
unfolding serve_window
window-Freed timeout i wid g = elim (Bool-cases (stopped g wid)) [
  | inl stop ↦ rw stop (record { ring = refl; served = λ e. cc })
  | inr run ↦ elim (Bool-cases timeout) [
    | inl late ↦ rw (run, late) (record { ring = refl; served = λ e. cc })
    | inr prompt ↦ rw (run, prompt) (record { ring = refl; served = λ e. cc })
  ]
]

for-Freed :
    {fl : Floats} (timeout : Bool) (i wid : ℕ) (target : ℤ) (g : Globals fl)
    → target ≡ pos wid
    → wid < max_windows
    → Freed i g (serve_for timeout i target g)
unfolding serve_for
for-Freed timeout i wid target g e lt =
    let g' : Globals _ = record g { transfer_busy = update g.transfer_busy wid (pos 1) } in
    let freed = window-Freed timeout i wid g' in
    subst (λ t. Freed i g (serve_for timeout i t g)) (sym e)
      (rw (lt→leb_false wid max_windows lt) (record { ring = freed.ring; served = freed.served }))

pub job-Freed :
    {fl : Floats} (timeout : Bool) (i wid : ℕ) (g : Globals fl)
    → (g.transfer_ring i).status ≡ pos 2
    → (g.transfer_ring i).target_window_id ≡ pos wid
    → wid < max_windows
    → Freed i g (serve_job timeout i g)
unfolding serve_job
job-Freed timeout i wid g ready target lt =
    rw (ap (λ s. eqb_ℤ s (pos 2)) ready)
      (for-Freed timeout i wid (g.transfer_ring i).target_window_id g target lt)

abbrev pub ended_jobs : List Ended → List TransferJob
ended_jobs [] = []
ended_jobs (e ∷ l) = e.job ∷ ended_jobs l

pub ended_jobs-append :
    (xs ys : List Ended) → ended_jobs (xs ++ ys) ≡ ended_jobs xs ++ ended_jobs ys
ended_jobs-append [] ys = refl
ended_jobs-append (x ∷ xs) ys = ap (λ l. x.job ∷ l) (ended_jobs-append xs ys)

-- Job `i` by its status: free, being filled, or ready, when it is the last that was asked for.
pub data JobOk {fl : Floats} (s : Jobs fl) (i : ℕ) : Type 0 where
  free :
      (s.globals.transfer_ring i).status ≡ pos 0
      → s.filling ≢ some i
      → s.published i ≡ ended_jobs (s.ended i)
      → JobOk s i
  in_hand :
      (s.globals.transfer_ring i).status ≡ pos 1
      → s.filling ≡ some i
      → s.published i ≡ ended_jobs (s.ended i)
      → JobOk s i
  ready :
      {w : ℕ}
      → (s.globals.transfer_ring i).status ≡ pos 2
      → s.filling ≢ some i
      → (s.globals.transfer_ring i).target_window_id ≡ pos w
      → w < max_windows
      → s.published i ≡ ended_jobs (s.ended i) ++ s.globals.transfer_ring i ∷ []
      → JobOk s i

-- Two states that agree on job `i`.
pub record SameJob {fl : Floats} (s t : Jobs fl) (i : ℕ) : Type 0 where
  pub job : t.globals.transfer_ring i ≡ s.globals.transfer_ring i
  pub filled_now : (s.filling ≡ some i) ↔ (t.filling ≡ some i)
  pub published : t.published i ≡ s.published i
  pub ended : t.ended i ≡ s.ended i

pub keep-JobOk : {fl : Floats} (s t : Jobs fl) (i : ℕ) → SameJob s t i → JobOk s i → JobOk t i
keep-JobOk s t i same (free st f p) =
    free (ap (λ (j : TransferJob). j.status) same.job ∙ st) (λ e. f (same.filled_now.1 e))
      (same.published ∙ p ∙ ap ended_jobs (sym same.ended))
keep-JobOk s t i same (in_hand st f p) =
    in_hand (ap (λ (j : TransferJob). j.status) same.job ∙ st) (same.filled_now.0 f)
      (same.published ∙ p ∙ ap ended_jobs (sym same.ended))
keep-JobOk s t i same (ready st f target lt p) =
    ready (ap (λ (j : TransferJob). j.status) same.job ∙ st) (λ e. f (same.filled_now.1 e))
      (ap (λ (j : TransferJob). j.target_window_id) same.job ∙ target) lt
      (same.published
        ∙ p
        ∙ ap (λ l. ended_jobs l ++ s.globals.transfer_ring i ∷ []) (sym same.ended)
        ∙ ap (λ j. ended_jobs (t.ended i) ++ j ∷ []) (sym same.job))

-- A step that works on job `j`: what becomes of it, and that the others stay.
pub either-JobOk :
    {fl : Floats} (s t : Jobs fl) (j : ℕ)
    → JobOk t j
    → ((i : ℕ) → j ≢ i → SameJob s t i)
    → ((i : ℕ) → JobOk s i)
    → (i : ℕ) → JobOk t i
either-JobOk s t j here there before i = elim (Bool-cases (j == i)) [
  | inl same ↦ subst (JobOk t) ((==_iff j i).0 same) here
  | inr differ ↦ keep-JobOk s t i (there i (λ e. ground arith)) (before i)
]

pub free_published :
    {fl : Floats} {s : Jobs fl} {i : ℕ}
    → JobOk s i
    → (s.globals.transfer_ring i).status ≡ pos 0
    → s.published i ≡ ended_jobs (s.ended i)
free_published (free st f p) e = p
free_published (in_hand st f p) e = p
free_published (ready st f target lt p) e = absurd (ground arith)

pub filling_published :
    {fl : Floats} {s : Jobs fl} {i : ℕ}
    → JobOk s i
    → s.filling ≡ some i
    → s.published i ≡ ended_jobs (s.ended i)
filling_published (free st f p) e = p
filling_published (in_hand st f p) e = p
filling_published (ready st f target lt p) e = absurd (f e)

-- What is known of a ready job.
pub record IsReady {fl : Floats} (s : Jobs fl) (i : ℕ) : Type 0 where
  pub wid : ℕ
  pub target : (s.globals.transfer_ring i).target_window_id ≡ pos wid
  pub in_range : wid < max_windows
  pub not_filling : s.filling ≢ some i
  pub last : s.published i ≡ ended_jobs (s.ended i) ++ s.globals.transfer_ring i ∷ []

pub JobOk-IsReady :
    {fl : Floats} {s : Jobs fl} {i : ℕ}
    → JobOk s i
    → (s.globals.transfer_ring i).status ≡ pos 2
    → IsReady s i
JobOk-IsReady (free st f p) e = absurd (ground arith)
JobOk-IsReady (in_hand st f p) e = absurd (ground arith)
JobOk-IsReady (ready {w = w} st f target lt p) e = record {
  wid = w;
  target = target;
  in_range = lt;
  not_filling = f;
  last = p;
}
