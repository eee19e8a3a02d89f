-- ===== src/Ring/Acquire.antt =====
-- `vx_stream_acquire` under interference, and alone.
use chess_rts.Base.{
  ℕ, zero, suc, ◌+◌, ◌-◌, ◌*◌, ◌%◌, ◌^◌, ◌≤◌, ◌<◌, bit_and, bit_or, ◌≡◌, refl, Bool, true, false,
  Option, none, some, List, [], ◌∷◌, if◌then◌else◌, ◌==◌, ◌⊎◌, inl, inr, arith, Bool-cases,
  lt→leb_false,
}
use mathlib.Core.Option.{get_or}
use mathlib.Core.Option
use chess_rts.Base.Int.{ℤ, pos, minus_one}
use chess_rts.Base.Bits.{bit_at, bit_at-lt}
use chess_rts.State.{RenderRing, max_windows}
use chess_rts.Ring.{
  Attempt, moved, spurious, try_slot, Round, Acquired, acquire_loop, vx_stream_acquire,
  slot_of_round,
}
use chess_rts.Ring.Mask.{test_bit}

-- Every mask that the attempts bring in has the property `P`.
abbrev pub Keeps : (ℕ → Type 0) → List Attempt → Type 0
Keeps P [] = Unit
Keeps P (moved m ∷ env) = P m × Keeps P env
Keeps P (spurious ∷ env) = Keeps P env

abbrev pub Loads : (ℕ → Type 0) → Option ℕ → Type 0
Loads P none = Unit
Loads P (some m) = P m

-- What one slot's loop promises: a success takes a clear bit of a mask with the property and
-- changes no other bit; a failure has seen the bit set.
abbrev pub TriedOk : (ℕ → Type 0) → ℕ → Bool → ℕ → Type 0
TriedOk P k true mask = (m : ℕ) × P m × (bit_at k m ≡ 0) × (mask ≡ bit_or m (2 ^ k))
TriedOk P k false mask = P mask × (bit_at k mask ≡ 1)

module _ (P : ℕ → Type 0) (k : ℕ) where
  pub try_slot-TriedOk :
      (expected : ℕ) (env : List Attempt)
      → P expected
      → Keeps P env
      → let t = try_slot (2 ^ k) expected env in TriedOk P k t.taken t.mask
  unfolding try_slot
  try_slot-TriedOk e [] p q = elim (Bool-cases (bit_and e (2 ^ k) == 0)) [
    | inl free ↦ rw free (e, p, ground (arith, test_bit e k), refl)
    | inr held ↦ rw held (p, ground (arith, test_bit e k, bit_at-lt k e))
  ]
  try_slot-TriedOk e (spurious ∷ env) p q = elim (Bool-cases (bit_and e (2 ^ k) == 0)) [
    | inl free ↦ rw free (try_slot-TriedOk e env p q)
    | inr held ↦ rw held (p, ground (arith, test_bit e k, bit_at-lt k e))
  ]
  try_slot-TriedOk e (moved m ∷ env) p q = elim (Bool-cases (bit_and e (2 ^ k) == 0)) [
    | inl free ↦ elim (Bool-cases (m == e)) [
      | inl same ↦ rw (free, same) (e, p, ground (arith, test_bit e k), refl)
      | inr other ↦ rw (free, other) (try_slot-TriedOk m env q.0 q.1)
    ]
    | inr held ↦ rw held (p, ground (arith, test_bit e k, bit_at-lt k e))
  ]

-- `ready` is -1 or one of the window's four slots, and `start` counts the slot after it.
abbrev pub ReadyAt : ℤ → ℕ → ℕ → Type 0
ReadyAt ready offset start =
    ((ready ≡ minus_one) × (start ≡ 0))
    ⊎ ((c : ℕ) × (c < 4) × (ready ≡ pos (offset + c)) × (start ≡ (c + 1) % 4))

pub slot_of_round_lem :
    (ready : ℤ) (offset start i : ℕ)
    → ReadyAt ready offset start
    → offset < 29
    → 0 < i
    → i < 5
    → slot_of_round ready offset i ≡ some (offset + (start + i - 1) % 4)
unfolding slot_of_round
slot_of_round_lem ready offset start i (inl (e, z)) low lo hi = rw e (ground arith)
slot_of_round_lem ready offset start i (inr (c, lt, e, z)) low lo hi = rw e (ground arith)

-- What `vx_stream_acquire` promises for the window with this offset.
abbrev pub AcquiredOk : (ℕ → Type 0) → ℕ → ℤ → ℕ → Type 0
AcquiredOk P offset slot mask =
    ((slot ≡ minus_one) × P mask)
    ⊎ ((k m : ℕ) × (slot ≡ pos k)
        × (offset ≤ k)
        × (k < offset + 4)
        × P m
        × (bit_at k m ≡ 0)
        × (mask ≡ bit_or m (2 ^ k)))

abbrev pub Returns : {A : Type 0} → (A → Type 0) → Option A → Type 0
Returns Q none = ⊥
Returns Q (some a) = Q a

load_lem : (P : ℕ → Type 0) (o : Option ℕ) (mask : ℕ) → P mask → Loads P o → P (get_or o mask)
load_lem P none mask p q = p
load_lem P (some m) mask p q = q

-- One round: a slot that was taken is the result, else the next round decides.
round_lem :
    (P : ℕ → Type 0) (offset k : ℕ) (taken : Bool) (mask : ℕ) (next : Option Acquired)
    → offset ≤ k
    → k < offset + 4
    → TriedOk P k taken mask
    → (P mask → Returns (λ a. AcquiredOk P offset a.slot a.mask) next)
    → Returns
        (λ a. AcquiredOk P offset a.slot a.mask)
        (if taken then some (record { slot = pos k; mask = mask }) else next)
round_lem P offset k true mask next lo hi (m, p, clear, e) rest =
    inr (k, m, refl, lo, hi, p, clear, e)
round_lem P offset k false mask next lo hi ok rest = rest ok.0

module _ (P : ℕ → Type 0) (ready : ℤ) (offset start : ℕ) (at : ReadyAt ready offset start)
    (low : offset < 29) (env : ℕ → Round) (keeps : (i : ℕ) → Keeps P (env i).attempts)
    (loads : (i : ℕ) → Loads P (env i).loaded) where
  acquire_loop-AcquiredOk :
      (left i mask : ℕ)
      → i + left ≡ 5
      → 0 < i
      → P mask
      → Returns (λ a. AcquiredOk P offset a.slot a.mask) (acquire_loop left ready offset i mask env)
  unfolding acquire_loop
  acquire_loop-AcquiredOk zero i mask e lo p = inl (refl, p)
  acquire_loop-AcquiredOk (suc left) i mask e lo p =
      let k : ℕ = offset + (start + i - 1) % 4 in
      let loaded : ℕ = get_or (env i).loaded mask in
      let t = try_slot (2 ^ k) loaded (env i).attempts in
      rw (slot_of_round_lem ready offset start i at low lo (omega arith), acquire_loop)
        (round_lem P offset k t.taken t.mask _ (omega arith) (omega arith)
          (try_slot-TriedOk P k loaded (env i).attempts (load_lem P (env i).loaded mask p (loads i))
            (keeps i))
          (acquire_loop-AcquiredOk left (i + 1) t.mask (omega arith) (omega arith)))

Returns-map :
    {A B : Type 0} (Q : B → Type 0) (f : A → B) (o : Option A)
    → Returns (λ a. Q (f a)) o
    → Returns Q (Option.map f o)
Returns-map Q f none q = q
Returns-map Q f (some a) q = q

Returns-and :
    {A : Type 0} (Q R : A → Type 0) (o : Option A)
    → Returns Q o
    → ((a : A) → R a)
    → Returns (λ a. Q a × R a) o
Returns-and Q R none q r = q
Returns-and Q R (some a) q r = (q, r a)

-- Whatever the other threads do to the mask, as long as they keep `P`, `vx_stream_acquire` has
-- no undefined behaviour for a window whose `ready_idx` is -1 or one of its own slots. It
-- returns -1 and leaves a mask with `P`, or it returns one of the window's four slots: that
-- slot's bit was clear in a mask with `P`, and is the only bit of it that the exchange changes.
-- The rest of the ring stays as it was.
pub acquire-AcquiredOk :
    (P : ℕ → Type 0) (win_id start : ℕ) (r : RenderRing) (env : ℕ → Round)
    → win_id < max_windows
    → ReadyAt (r.ready_idx win_id) (win_id * 4) start
    → P r.locked_mask
    → ((i : ℕ) → Keeps P (env i).attempts)
    → ((i : ℕ) → Loads P (env i).loaded)
    → Returns
        (λ a.
          AcquiredOk P (win_id * 4) a.0 a.1.locked_mask
          × (a.1 ≡ record r { locked_mask = a.1.locked_mask }))
        (vx_stream_acquire (pos win_id) r env)
unfolding vx_stream_acquire
acquire-AcquiredOk P w start r env lt at p keeps loads = rw (lt→leb_false w max_windows lt) (
    Returns-map _ _ (acquire_loop 4 (r.ready_idx w) (w * 4) 1 r.locked_mask env) (
      Returns-and _ _ _
        (acquire_loop-AcquiredOk P (r.ready_idx w) (w * 4) start at (omega arith) env keeps loads 4
          1 r.locked_mask refl (omega arith) p)
        (λ a. refl)))
