-- ===== src/Layout/Lines.antt =====
-- host/state/state_types.c: which parts of the shared state never meet in a cache line of 64 bytes.
use chess_rts.Base.{ℕ, ◌+◌, ◌*◌, ◌/◌, ◌%◌, ◌<◌, ◌≡◌, ◌≢◌, refl, some, arith}
use chess_rts.Layout.{CType, align_of, size_of, offset_of}
use chess_rts.Layout.Shared.{tenant_mailbox, ipc_mailbox, render_ring, render_packet, transfer_job}

-- An address at which the structure may stand.
abbrev pub IsAligned : ℕ → CType → Type 0
IsAligned base t = base % align_of t ≡ 0

abbrev pub line : ℕ → ℕ
line address = address / 64

-- The tenants' mailboxes, in one of which each callback and each query works.
abbrev pub TenantsApart : ℕ → Type 0
TenantsApart base =
    (k : ℕ) × (offset_of "tenants" ipc_mailbox ≡ some k)
    × ((u v x y : ℕ)
        → u ≢ v
        → x < size_of tenant_mailbox
        → y < size_of tenant_mailbox
        → line (base + k + u * size_of tenant_mailbox + x)
          ≢ line (base + k + v * size_of tenant_mailbox + y))

abbrev pub PacketsApart : ℕ → Type 0
PacketsApart base =
    (k : ℕ) × (offset_of "packets" render_ring ≡ some k)
    × ((i j x y : ℕ)
        → i ≢ j
        → x < size_of render_packet
        → y < size_of render_packet
        → line (base + k + i * size_of render_packet + x)
          ≢ line (base + k + j * size_of render_packet + y))

-- What the Lua thread stores, what the render thread stores, and the mask that both change.
abbrev pub IndicesApart : ℕ → Type 0
IndicesApart base =
    (ready read mask : ℕ) × (offset_of "ready_idx" render_ring ≡ some ready)
    × (offset_of "local_read" render_ring ≡ some read)
    × (offset_of "locked_mask" render_ring ≡ some mask)
    × ((u v x y z : ℕ)
        → u < 4
        → v < 4
        → x < 4
        → y < 4
        → z < 4
        → (line (base + ready + u * 4 + x) ≢ line (base + read + v * 4 + y))
          × (line (base + ready + u * 4 + x) ≢ line (base + mask + z))
          × (line (base + read + v * 4 + y) ≢ line (base + mask + z)))

-- The status words of two jobs, and a status word and any job's other fields.
abbrev pub JobsApart : ℕ → Type 0
JobsApart base =
    (k : ℕ) × (offset_of "status" transfer_job ≡ some k)
    × ((i j x y : ℕ)
        → x < 4
        → y < k
        → (i ≢ j
            → line (base + i * size_of transfer_job + k + x)
              ≢ line (base + j * size_of transfer_job + k + x))
          × (line (base + i * size_of transfer_job + k + x)
              ≢ line (base + j * size_of transfer_job + y)))

tenants_apart : (base : ℕ) → IsAligned base ipc_mailbox → TenantsApart base
unfolding align_of size_of offset_of
tenants_apart base h = (64, refl, λ u v x y ne lx ly e. ne (omega arith))

indices_apart : (base : ℕ) → IsAligned base render_ring → IndicesApart base
unfolding align_of size_of offset_of
indices_apart base h = (
  2048,
  2112,
  2368,
  refl,
  refl,
  refl,
  λ u v x y z lu lv lx ly lz. (λ e. omega arith, λ e. omega arith, λ e. omega arith),
)

jobs_apart : (base : ℕ) → IsAligned base transfer_job → JobsApart base
unfolding align_of size_of offset_of
jobs_apart base h = (64, refl, λ i j x y lx ly. (λ ne e. ne (omega arith), λ e. omega arith))

packets_apart : (base : ℕ) → IsAligned base render_ring → PacketsApart base
unfolding align_of size_of offset_of
packets_apart base h = (0, refl, λ i j x y ne lx ly e. ne (omega arith))

-- Wherever the compiler puts the shared structures, by their alignment: no two tenants' mailboxes have
-- bytes in one cache line, and a mailbox has the 128 bytes that the code asserts; nor have two packets of
-- the ring; the `ready_idx` that the Lua thread stores, the `local_read` that the render thread stores
-- and the lock mask are in three different lines, for all windows; and the status of a job of the
-- transfer ring shares its line with no other job's status and with no other field of any job.
pub lines_apart :
    (mailbox ring jobs : ℕ)
    → IsAligned mailbox ipc_mailbox
    → IsAligned ring render_ring
    → IsAligned jobs transfer_job
    → TenantsApart mailbox
      × (size_of tenant_mailbox ≡ 128)
      × PacketsApart ring
      × IndicesApart ring
      × JobsApart jobs
unfolding size_of
lines_apart mailbox ring jobs a b c =
    (tenants_apart mailbox a, refl, packets_apart ring b, indices_apart ring b, jobs_apart jobs c)
