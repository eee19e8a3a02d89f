-- ===== src/Transfer.antt =====
-- render/transfer: the ring of copy jobs. `vx_transfer_request` (vk_transfer_api.c) claims a free
-- job, fills it and marks it ready; the transfer thread (vk_transfer_loop.c) carries the ready jobs
-- out. A status is 0 (free), 1 (being filled) or 2 (ready). What `vkWaitForFences` answers is an
-- argument, and the Vulkan calls are listed in order.
pub mod Request
pub mod Serve
pub mod Shared
pub mod Handshake
use chess_rts.Base.{
  ℕ, zero, suc, ◌+◌, Bool, true, false, ◌||◌, not, Option, none, some, List, [], ◌∷◌, ◌++◌,
  if◌then◌else◌, leb, ltb, ◌==◌, update,
}
use chess_rts.Base.Int.{ℤ, pos, negsuc, eqb_ℤ}
use chess_rts.State.{max_windows, transfer_ring_size, TransferJob, Floats, Globals}

pub vx_transfer_setup : {fl : Floats} → Globals fl → Globals fl
vx_transfer_setup g = record g {
  transfer_ring = λ i.
      if ltb i transfer_ring_size
      then record (g.transfer_ring i) { status = pos 0 }
      else g.transfer_ring i;
}

-- The buffers, the size, the semaphore and the value to signal: what a request asks for.
pub record Copy : Type 0 where
  pub src : ℕ
  pub dst : ℕ
  pub size : ℕ
  pub t_sem : ℕ
  pub sig_val : ℕ

abbrev pub filled : ℕ → Copy → TransferJob
filled win_id c = record {
  src_buffer = c.src;
  dst_buffer = c.dst;
  size = c.size;
  timeline_sem = c.t_sem;
  signal_val = c.sig_val;
  target_window_id = pos win_id;
  status = pos 2;
}

-- The loop from job `i` on, with the rounds left: the return value and the ring.
pub claim : ℕ → ℕ → Copy → ℕ → (ℕ → TransferJob) → ℤ × (ℕ → TransferJob)
claim zero win_id c i ring = (pos 0, ring)
claim (suc left) win_id c i ring =
    let next = claim left win_id c (i + 1) ring in
    if eqb_ℤ (ring i).status (pos 0) then (pos 1, update ring i (filled win_id c)) else next

pub vx_transfer_request : ℤ → Copy → (ℕ → TransferJob) → ℤ × (ℕ → TransferJob)
vx_transfer_request (negsuc _) c ring = (pos 0, ring)
vx_transfer_request (pos win_id) c ring =
    if leb max_windows win_id then (pos 0, ring) else claim transfer_ring_size win_id c 0 ring

-- The calls that carry out one job, with the handles that they are given.
pub data CopyCall : Type 0 where
  wait_for_fence : (device fence : ℕ) → CopyCall
  reset_fence : (device fence : ℕ) → CopyCall
  reset_command_buffer : (cmd : ℕ) → CopyCall
  begin_command_buffer : (cmd : ℕ) → CopyCall
  copy_buffer : (cmd src dst size : ℕ) → CopyCall
  end_command_buffer : (cmd : ℕ) → CopyCall
  submit : (queue cmd semaphore value fence : ℕ) → CopyCall

-- How a job ends, in the loop's words: `skipped` goes on with the next job, `hung` breaks the loop
-- over the ring, `worked` has copied. `fault` is an index out of the arrays' bounds.
pub data Served : Type 0 where
  skipped : Served
  hung : Served
  worked : Served
  fault : Served

-- What a round leaves of the globals, its end, and its calls.
pub record Outcome (fl : Floats) : Type 0 where
  pub globals : Globals fl
  pub served : Served
  pub calls : List CopyCall

-- `S(job->status, 0)` and the store that clears the window's busy flag.
abbrev pub release : {fl : Floats} → ℕ → ℕ → Globals fl → Globals fl
release i wid g = record g {
  transfer_ring = update g.transfer_ring i (record (g.transfer_ring i) { status = pos 0 });
  transfer_busy = update g.transfer_busy wid (pos 0);
}

abbrev pub copy_calls : {fl : Floats} → ℕ → TransferJob → Globals fl → List CopyCall
copy_calls wid job g =
    let cmd = g.transfer_cmd_buffers wid in
    let fence = g.transfer_fences wid in
    let device = (g.window_wsi wid).device in
    reset_fence device fence
    ∷ reset_command_buffer cmd
    ∷ begin_command_buffer cmd
    ∷ copy_buffer cmd job.src_buffer job.dst_buffer job.size
    ∷ end_command_buffer cmd
    ∷ submit (g.window_wsi wid).transfer_queue cmd job.timeline_sem job.signal_val fence
    ∷ wait_for_fence device fence
    ∷ []

-- The tests that release a job without a copy.
abbrev pub stopped : {fl : Floats} → Globals fl → ℕ → Bool
stopped g wid =
    eqb_ℤ (g.wsi_state wid) (pos 0)
    || (g.window_wsi wid).device == 0
    || g.transfer_cmd_pools wid == 0

-- Job `i` for a window in range, once the busy flag is set. `timeout` is whether the first wait
-- answers VK_TIMEOUT.
unfoldable pub serve_window : {fl : Floats} → Bool → ℕ → ℕ → Globals fl → Outcome fl
serve_window timeout i wid g =
    if stopped g wid
    then record { globals = release i wid g; served = skipped; calls = [] }
    else if timeout
    then record {
      globals = release i wid (record g { wsi_state = update g.wsi_state wid (pos 0) });
      served = hung;
      calls = wait ∷ [];
    }
    else record {
      globals = release i wid g;
      served = worked;
      calls = wait ∷ copy_calls wid (g.transfer_ring i) g;
    }
  where
    wait : CopyCall
    wait = wait_for_fence (g.window_wsi wid).device (g.transfer_fences wid)

-- The body of the loop for job `i`, by the window that the job names. The store into the busy flag
-- comes before the test of the index, so an index out of range is undefined behaviour.
pub serve_for : {fl : Floats} → Bool → ℕ → ℤ → Globals fl → Outcome fl
serve_for timeout i (negsuc _) g = record { globals = g; served = fault; calls = [] }
serve_for timeout i (pos wid) g =
    if leb max_windows wid
    then record { globals = g; served = fault; calls = [] }
    else serve_window timeout i wid
        (record g { transfer_busy = update g.transfer_busy wid (pos 1) })

pub serve_job : {fl : Floats} → Bool → ℕ → Globals fl → Outcome fl
serve_job timeout i g =
    if eqb_ℤ (g.transfer_ring i).status (pos 2)
    then serve_for timeout i (g.transfer_ring i).target_window_id g
    else record { globals = g; served = skipped; calls = [] }

-- One pass over the ring: the globals, the flag `worked`, whether an index was out of bounds, and
-- the calls.
pub record Pass (fl : Floats) : Type 0 where
  pub globals : Globals fl
  pub worked : Bool
  pub faulted : Bool
  pub calls : List CopyCall

-- How the outcome of one job and the pass over the jobs after it make a pass: a hang is a `break`.
pub followed_by : {fl : Floats} → Outcome fl → Pass fl → Pass fl
followed_by o rest = elim o.served [
  | skipped ↦ record rest { calls = o.calls ++ rest.calls }
  | hung ↦ record { globals = o.globals; worked = false; faulted = false; calls = o.calls }
  | worked ↦ record rest { worked = true; calls = o.calls ++ rest.calls }
  | fault ↦ record { globals = o.globals; worked = false; faulted = true; calls = o.calls }
]

-- The loop from job `i` on. `timeout i` is the answer to the wait for job `i`.
pub serve_ring : {fl : Floats} → ℕ → (ℕ → Bool) → ℕ → Globals fl → Pass fl
serve_ring zero timeout i g = record { globals = g; worked = false; faulted = false; calls = [] }
serve_ring (suc left) timeout i g =
    let o = serve_job (timeout i) i g in followed_by o (serve_ring left timeout (i + 1) o.globals)
