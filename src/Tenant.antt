-- ===== src/Tenant.antt =====
-- host/tenant: what the Lua thread reads and sets of a window (tenant_input.c, tenant_sys.c), the
-- callbacks that the window system calls (tenant_callbacks_*.c), and the commands that the main
-- loop carries out (host/runtime/main_loop.c).
pub mod Input
pub mod Keys
pub mod Mouse
pub mod Loop
pub mod Desk
pub mod Kill
use chess_rts.Base.{
  ℕ, ◌≡◌, refl, ap, Bool, true, false, inl, inr, Option, none, some, if◌then◌else◌, leb, ◌==◌,
  ==_iff, update, Bool-cases,
}
use chess_rts.Base.Int.{ℤ, pos, negsuc}
use chess_rts.State.{max_windows, Floats, TenantMailbox, IpcMailbox}

-- `win_id < 0 || win_id >= MAX_WINDOWS` is `none`.
unfoldable pub window : ℤ → Option ℕ
window (negsuc _) = none
window (pos w) = if leb max_windows w then none else some w

-- The stores into one window's mailbox.
abbrev pub set_tenant :
    {fl : Floats} → ℕ → (TenantMailbox fl → TenantMailbox fl) → IpcMailbox fl → IpcMailbox fl
set_tenant w change m = record m { tenants = update m.tenants w (change (m.tenants w)) }

-- Changing one cell changes what is read there, and no other cell.
pub update_change {ℓ} :
    {A : Type ℓ} (f : ℕ → A) (change : A → A) (v w : ℕ)
    → update f v (change (f v)) w ≡ (if v == w then change (f w) else f w)
update_change f change v w = elim (Bool-cases (v == w)) [
  | inl same ↦ rw same (ap (λ k. change (f k)) ((==_iff v w).0 same))
  | inr other ↦ rw other refl
]

pub ap-if {ℓ} :
    {A B : Type ℓ} (f : A → B) (b : Bool) (x y : A)
    → f (if b then x else y) ≡ (if b then f x else f y)
ap-if f true x y = refl
ap-if f false x y = refl
