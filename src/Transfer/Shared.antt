-- ===== src/Transfer/Shared.antt =====
-- render/transfer: the ring of copy jobs between the two threads, and the loop of the transfer
-- thread. A request claims a free job by its exchange, fills it and publishes it; the transfer
-- thread serves published jobs in any order, and the other threads change what is not the ring.
-- `published` and `ended` record, job by job, what was asked for and how it was served.
pub mod Job
pub mod Each
use chess_rts.Base.{
  ℕ, zero, suc, ◌+◌, ◌<◌, ◌≡◌, Bool, true, false, ◌||◌, Option, none, some, List, [], ◌∷◌, ◌++◌,
  if◌then◌else◌, update,
}
use chess_rts.Base.Int.{ℤ, pos, eqb_ℤ}
use chess_rts.State.{max_windows, transfer_ring_size, TransferJob, Floats, Globals}
use chess_rts.Transfer.{Copy, filled, CopyCall, Served, Outcome, serve_job, Pass, serve_ring}

-- A served job, and how it ended.
pub record Ended : Type 0 where
  pub job : TransferJob
  pub how : Served

pub record Jobs (fl : Floats) : Type 0 where
  pub globals : Globals fl
  pub filling : Option ℕ
  pub published : ℕ → List TransferJob
  pub ended : ℕ → List Ended

-- `CXS(status, 0, 1)` on a job that is free.
unfoldable pub claimed : TransferJob → TransferJob
claimed job = record job { status = pos 1 }

abbrev pub with_job : {fl : Floats} → ℕ → TransferJob → Globals fl → Globals fl
with_job i job g = record g { transfer_ring = update g.transfer_ring i job }

pub data JobStep {fl : Floats} (s : Jobs fl) : Jobs fl → Type 0 where
  claim :
      {i : ℕ}
      → s.filling ≡ none
      → (s.globals.transfer_ring i).status ≡ pos 0
      → JobStep s (record s {
        globals = with_job i (claimed (s.globals.transfer_ring i)) s.globals;
        filling = some i;
      })
  publish :
      {i : ℕ} (w : ℕ) (c : Copy)
      → s.filling ≡ some i
      → w < max_windows
      → JobStep s (record s {
        globals = with_job i (filled w c) s.globals;
        filling = none;
        published = update s.published i (s.published i ++ filled w c ∷ []);
      })
  serve :
      {i : ℕ} (timeout : Bool)
      → (s.globals.transfer_ring i).status ≡ pos 2
      → JobStep s (record s {
        globals = (serve_job timeout i s.globals).globals;
        ended = update s.ended i (
            s.ended i
            ++ (record {
              job = s.globals.transfer_ring i;
              how = (serve_job timeout i s.globals).served;
            })
              ∷ []);
      })
  elsewhere :
      {g : Globals fl}
      → g.transfer_ring ≡ s.globals.transfer_ring
      → JobStep s (record s { globals = g })

-- The states that the steps reach from the ring that `vx_transfer_setup` leaves: no job is taken.
pub data JobReach {fl : Floats} : Jobs fl → Type 0 where
  start :
      {s : Jobs fl}
      → ((i : ℕ) → (s.globals.transfer_ring i).status ≡ pos 0)
      → s.filling ≡ none
      → ((i : ℕ) → s.published i ≡ [])
      → ((i : ℕ) → s.ended i ≡ [])
      → JobReach s
  later : {s t : Jobs fl} → JobReach s → JobStep s t → JobReach t

-- `while (L(g_transfer_thread_active) && L(g_engine.mailbox.is_running))`, negated
pub is_over : {fl : Floats} → Globals fl → Bool
is_over g = eqb_ℤ g.transfer_thread_active (pos 0) || eqb_ℤ g.mailbox.is_running (pos 0)

-- What a loop of passes leaves: whether an index was out of bounds, and for each pass its calls and
-- whether the thread has slept after it.
pub record Passes (fl : Floats) : Type 0 where
  pub globals : Globals fl
  pub faulted : Bool
  pub passes : List (List CopyCall × Bool)

-- The loop, for as many passes as are listed. `others` is what the other threads have done to the
-- globals when the pass begins, and `timeout` what the first waits answer.
pub transfer_thread_loop :
    {fl : Floats} → List ((Globals fl → Globals fl) × (ℕ → Bool)) → Globals fl → Passes fl
transfer_thread_loop [] g = record { globals = g; faulted = false; passes = [] }
transfer_thread_loop ((others, timeout) ∷ passes) g =
    let p = serve_ring transfer_ring_size timeout 0 (others g) in
    let rest = transfer_thread_loop passes p.globals in
    if is_over (others g)
    then record { globals = others g; faulted = false; passes = [] }
    else if p.faulted
    then record { globals = p.globals; faulted = true; passes = (p.calls, false) ∷ [] }
    else record rest { passes = (p.calls, if p.worked then false else true) ∷ rest.passes }
