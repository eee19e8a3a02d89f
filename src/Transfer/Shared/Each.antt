-- ===== src/Transfer/Shared/Each.antt =====
-- Each job that was asked for is served once, in the order of the requests for its place.
use chess_rts.Base.{
  ℕ, ◌<◌, ◌≡◌, ◌≢◌, refl, sym, ap, ◌∙◌, Bool, none, some, List, [], ◌∷◌, ◌++◌, if◌then◌else◌,
  update, update_self, update_ne,
}
use mathlib.Core.List.{append-nil}
use chess_rts.Base.Int.{ℤ, pos, eqb_ℤ}
use chess_rts.State.{max_windows, TransferJob, Floats}
use chess_rts.Transfer.{Copy, filled, fault, serve_job}
use chess_rts.Transfer.Shared.{
  Ended, Jobs, claimed, with_job, JobStep, claim, publish, serve, elsewhere, JobReach, start, later,
}
use chess_rts.Transfer.Shared.Job.{
  job-Freed, ended_jobs, ended_jobs-append, JobOk, free, in_hand, ready, keep-JobOk, either-JobOk,
  free_published, filling_published, JobOk-IsReady,
}

module _ {fl : Floats} (s : Jobs fl) (before : (i : ℕ) → JobOk s i) (j : ℕ) where
  claim-JobOk :
      s.filling ≡ none
      → (s.globals.transfer_ring j).status ≡ pos 0
      → (i : ℕ)
      → JobOk
          (record s {
            globals = with_job j (claimed (s.globals.transfer_ring j)) s.globals;
            filling = some j;
          })
          i
  unfolding claimed
  claim-JobOk none_yet st =
      either-JobOk s _ j
        (in_hand (ap (λ (x : TransferJob). x.status) (update_self s.globals.transfer_ring j _)) refl
          (free_published (before j) st))
        (λ i other. record {
          job = update_ne s.globals.transfer_ring j i _ other;
          filled_now = (λ e. absurd (cc), λ e. absurd (other (cc)));
          published = refl;
          ended = refl;
        })
        before

  publish-JobOk :
      (w : ℕ) (c : Copy)
      → s.filling ≡ some j
      → w < max_windows
      → (i : ℕ)
      → JobOk
          (record s {
            globals = with_job j (filled w c) s.globals;
            filling = none;
            published = update s.published j (s.published j ++ filled w c ∷ []);
          })
          i
  publish-JobOk w c mine lt =
      either-JobOk s _ j
        (ready {w = w}
          (ap (λ (x : TransferJob). x.status) (update_self s.globals.transfer_ring j (filled w c)))
          (λ e. cc)
          (ap (λ (x : TransferJob). x.target_window_id)
            (update_self s.globals.transfer_ring j (filled w c)))
          lt
          (update_self s.published j (s.published j ++ filled w c ∷ [])
            ∙ ap (λ l. l ++ filled w c ∷ []) (filling_published (before j) mine)
            ∙ ap (λ x. ended_jobs (s.ended j) ++ x ∷ [])
                (sym (update_self s.globals.transfer_ring j (filled w c)))))
        (λ i other. record {
          job = update_ne s.globals.transfer_ring j i _ other;
          filled_now = (λ e. absurd (other (cc)), λ e. absurd (cc));
          published = update_ne s.published j i _ other;
          ended = refl;
        })
        before

  serve-JobOk :
      (timeout : Bool)
      → (s.globals.transfer_ring j).status ≡ pos 2
      → (i : ℕ)
      → JobOk
          (record s {
            globals = (serve_job timeout j s.globals).globals;
            ended = update s.ended j (
                s.ended j
                ++ (record {
                  job = s.globals.transfer_ring j;
                  how = (serve_job timeout j s.globals).served;
                })
                  ∷ []);
          })
          i
  serve-JobOk timeout st =
      let r = JobOk-IsReady (before j) st in
      let freed = job-Freed timeout j r.wid s.globals st r.target r.in_range in
      let end : Ended = record {
        job = s.globals.transfer_ring j;
        how = (serve_job timeout j s.globals).served;
      } in
      either-JobOk s _ j
        (free
          (ap (λ (ring : ℕ → TransferJob). (ring j).status) freed.ring
            ∙ ap (λ (x : TransferJob). x.status) (update_self s.globals.transfer_ring j _))
          r.not_filling
          (r.last
            ∙ sym (ended_jobs-append (s.ended j) (end ∷ []))
            ∙ ap ended_jobs (sym (update_self s.ended j (s.ended j ++ end ∷ [])))))
        (λ i other. record {
          job =
              ap (λ (ring : ℕ → TransferJob). ring i) freed.ring
              ∙ update_ne s.globals.transfer_ring j i _ other;
          filled_now = (λ e. e, λ e. e);
          published = refl;
          ended = update_ne s.ended j i _ other;
        })
        before

JobStep-JobOk :
    {fl : Floats} {s t : Jobs fl} → JobStep s t → ((i : ℕ) → JobOk s i) → (i : ℕ) → JobOk t i
JobStep-JobOk {s = s} (claim {i = j} none_yet st) before i = claim-JobOk s before j none_yet st i
JobStep-JobOk {s = s} (publish {i = j} w c mine lt) before i =
    publish-JobOk s before j w c mine lt i
JobStep-JobOk {s = s} (serve {i = j} timeout st) before i = serve-JobOk s before j timeout st i
JobStep-JobOk {s = s} (elsewhere same) before i =
    keep-JobOk s _ i
      (record {
        job = ap (λ (ring : ℕ → TransferJob). ring i) same;
        filled_now = (λ e. e, λ e. e);
        published = refl;
        ended = refl;
      })
      (before i)

JobReach-JobOk : {fl : Floats} {s : Jobs fl} → JobReach s → (i : ℕ) → JobOk s i
JobReach-JobOk {s = s} (start st f p e) i = free (st i) (λ q. cc) (p i ∙ ap ended_jobs (sym (e i)))
JobReach-JobOk (later r step) i = JobStep-JobOk step (JobReach-JobOk r) i

-- What waits in job `i`: the job itself, if it is ready.
abbrev pub pending : TransferJob → List TransferJob
pending job = if eqb_ℤ job.status (pos 2) then job ∷ [] else []

pending_of :
    (job : TransferJob) (status : ℤ)
    → job.status ≡ status
    → pending job ≡ (if eqb_ℤ status (pos 2) then job ∷ [] else [])
pending_of job status e = ap (λ x. if eqb_ℤ x (pos 2) then job ∷ [] else []) e

published_pending :
    {fl : Floats} (s : Jobs fl) (i : ℕ)
    → JobOk s i
    → s.published i ≡ ended_jobs (s.ended i) ++ pending (s.globals.transfer_ring i)
published_pending s i (free st f p) =
    rw (pending_of (s.globals.transfer_ring i) (pos 0) st)
      (p ∙ sym (append-nil (ended_jobs (s.ended i))))
published_pending s i (in_hand st f p) =
    rw (pending_of (s.globals.transfer_ring i) (pos 1) st)
      (p ∙ sym (append-nil (ended_jobs (s.ended i))))
published_pending s i (ready st f target lt p) =
    rw (pending_of (s.globals.transfer_ring i) (pos 2) st) p

-- From the ring as it is set up, with the requests, the transfer thread and the other threads in any
-- order: of each of the jobs of the ring, what was asked for is what was served, in order and
-- each once, followed by the job itself if it is ready; and no ready job, whatever the wait for
-- its fence answers, is outside the arrays of the windows.
pub published_ended :
    {fl : Floats} {s : Jobs fl}
    → JobReach s
    → (i : ℕ)
    → (s.published i ≡ ended_jobs (s.ended i) ++ pending (s.globals.transfer_ring i))
      × ((timeout : Bool)
          → (s.globals.transfer_ring i).status ≡ pos 2
          → (serve_job timeout i s.globals).served ≢ fault)
published_ended {s = s} r i =
    let ok = JobReach-JobOk r i in
    (
      published_pending s i ok,
      λ timeout st.
          let is_ready = JobOk-IsReady ok st in
          (job-Freed timeout i is_ready.wid s.globals st is_ready.target is_ready.in_range).served,
    )
