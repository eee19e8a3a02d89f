-- ===== src/Spin.antt =====
-- host/ipc/sys_sync.c: the backoff of a waiting thread, and the bounded loops that poll until the
-- render thread and the transfer thread are done with a window. `busy k` is what poll `k` sees.
-- Each loop runs on fuel; `none` is fuel that has run out.
pub mod Bounded
use chess_rts.Base.{
  ℕ, zero, suc, ◌+◌, ◌-◌, Bool, true, false, Option, none, some, if◌then◌else◌, leb, ltb, ◌&&◌,
}

pub data Backoff : Type 0 where
  pause : Backoff
  yield : Backoff
  sleep_ms : Backoff

-- The tier that is taken, and the new count.
pub vx_spin_wait : ℕ → Backoff × ℕ
vx_spin_wait spin_count = (
  if ltb spin_count 1000 then pause else if ltb spin_count 2000 then yield else sleep_ms,
  spin_count + 1,
)

-- `if (spin_count >= 2000) { timeout--; }`, with a timeout that is not yet 0.
abbrev pub tick : (timeout spin_count : ℕ) → ℕ
tick timeout spin_count = if leb 2000 spin_count then timeout - 1 else timeout

-- The loop of `vx_stream_init`: `some true` when the flags are seen clear, `some false` when the
-- timeout has come first and the call gives up.
pub init_wait : ℕ → (busy : ℕ → Bool) → (k timeout spin_count : ℕ) → Option Bool
init_wait zero busy k timeout spin_count = none
init_wait (suc fuel) busy k timeout spin_count =
    let left : ℕ = tick timeout spin_count in
    let again = init_wait fuel busy (k + 1) left (vx_spin_wait spin_count).1 in
    if busy k then (if leb left 0 then some false else again) else some true

-- The loop of CMD_KILL_WINDOW: the timeout is part of the condition, and the caller goes on in
-- either case.
pub drain_wait : ℕ → (busy : ℕ → Bool) → (k timeout spin_count : ℕ) → Option Bool
drain_wait zero busy k timeout spin_count = none
drain_wait (suc fuel) busy k timeout spin_count =
    let again =
      drain_wait fuel busy (k + 1) (tick timeout spin_count) (vx_spin_wait spin_count).1 in
    if busy k && ltb 0 timeout then again else some (if busy k then false else true)
