-- ===== src/Transfer/Request.antt =====
-- What `vx_transfer_request` does to the ring of jobs.
use mathlib.Core.Path.{subst}
use chess_rts.Base.{
  at_or_after, ℕ, zero, suc, ◌+◌, ◌≤◌, ◌<◌, ◌≡◌, ◌≢◌, refl, sym, ap, ◌∙◌, Bool, true, false, ◌⊎◌,
  inl, inr, if◌then◌else◌, arith, update, update_self, update_ne, lt→leb_false, Bool-cases,
}
use chess_rts.Base.Int.{ℤ, pos, eqb_ℤ}
use chess_rts.State.{max_windows, transfer_ring_size, TransferJob}
use chess_rts.Transfer.{Copy, filled, claim, vx_transfer_request}

-- Job `i` was the first free one from `from` on, and is now the request.
pub record Claimed (win_id : ℕ) (c : Copy) (from until : ℕ) (ring : ℕ → TransferJob)
    (r : ℤ × (ℕ → TransferJob)) : Type 0 where
  pub index : ℕ
  pub above : from ≤ index
  pub below : index < until
  pub value : r.0 ≡ pos 1
  pub free : eqb_ℤ (ring index).status (pos 0) ≡ true
  pub earlier : (j : ℕ) → from ≤ j → j < index → eqb_ℤ (ring j).status (pos 0) ≡ false
  pub job : r.1 index ≡ filled win_id c
  pub others : (j : ℕ) → index ≢ j → r.1 j ≡ ring j

-- No job was free, and nothing has changed.
pub record Full (from until : ℕ) (ring : ℕ → TransferJob) (r : ℤ × (ℕ → TransferJob)) : Type 0 where
  pub value : r.0 ≡ pos 0
  pub taken : (j : ℕ) → from ≤ j → j < until → eqb_ℤ (ring j).status (pos 0) ≡ false
  pub same : r.1 ≡ ring

claim_step :
    (left win_id : ℕ) (c : Copy) (i : ℕ) (ring : ℕ → TransferJob) (b : Bool)
    → eqb_ℤ (ring i).status (pos 0) ≡ b
    → claim (suc left) win_id c i ring
      ≡ (if b then (pos 1, update ring i (filled win_id c)) else claim left win_id c (i + 1) ring)
unfolding claim
claim_step left win_id c i ring b e = rw e

Claimed-here :
    (left win_id : ℕ) (c : Copy) (i : ℕ) (ring : ℕ → TransferJob)
    → eqb_ℤ (ring i).status (pos 0) ≡ true
    → Claimed win_id c i (i + suc left) ring (pos 1, update ring i (filled win_id c))
Claimed-here left win_id c i ring free = record {
  index = i;
  above = omega arith;
  below = omega arith;
  value = refl;
  free = free;
  earlier = λ j lo hi. absurd (omega arith);
  job = update_self ring i (filled win_id c);
  others = λ j ne. update_ne ring i j (filled win_id c) ne;
}

busy_from :
    (i until : ℕ) (ring : ℕ → TransferJob)
    → eqb_ℤ (ring i).status (pos 0) ≡ false
    → ((j : ℕ) → i + 1 ≤ j → j < until → eqb_ℤ (ring j).status (pos 0) ≡ false)
    → (j : ℕ) → i ≤ j
    → j < until
    → eqb_ℤ (ring j).status (pos 0) ≡ false
busy_from i until ring here after j lo hi = elim (at_or_after i j lo) [
  | inl same ↦ ap (λ k. eqb_ℤ (ring k).status (pos 0)) (sym same) ∙ here
  | inr above ↦ after j above hi
]

abbrev Outcome :
    (win_id : ℕ) → Copy → (from until : ℕ) → (ℕ → TransferJob) → ℤ × (ℕ → TransferJob) → Type 0
Outcome win_id c from until ring r = Claimed win_id c from until ring r ⊎ Full from until ring r

Claimed-later :
    (left win_id : ℕ) (c : Copy) (i : ℕ) (ring : ℕ → TransferJob) (r : ℤ × (ℕ → TransferJob))
    → eqb_ℤ (ring i).status (pos 0) ≡ false
    → Outcome win_id c (i + 1) (i + 1 + left) ring r
    → Outcome win_id c i (i + suc left) ring r
Claimed-later left win_id c i ring r busy (inl h) = inl (record {
  index = h.index;
  above = omega (arith, h.above);
  below = omega (arith, h.below);
  value = h.value;
  free = h.free;
  earlier = busy_from i h.index ring busy h.earlier;
  job = h.job;
  others = h.others;
})
Claimed-later left win_id c i ring r busy (inr h) = inr (record {
  value = h.value;
  taken = λ j lo hi. busy_from i (i + 1 + left) ring busy h.taken j lo (omega arith);
  same = h.same;
})

claim_none :
    (win_id : ℕ) (c : Copy) (i : ℕ) (ring : ℕ → TransferJob)
    → Full i (i + 0) ring (claim 0 win_id c i ring)
unfolding claim
claim_none win_id c i ring = record {
  value = refl;
  taken = λ j lo hi. absurd (omega arith);
  same = refl;
}

claim-outcome :
    (left win_id : ℕ) (c : Copy) (i : ℕ) (ring : ℕ → TransferJob)
    → Outcome win_id c i (i + left) ring (claim left win_id c i ring)
claim-outcome zero win_id c i ring = inr (claim_none win_id c i ring)
claim-outcome (suc left) win_id c i ring = elim (Bool-cases (eqb_ℤ (ring i).status (pos 0))) [
  | inl free ↦
      subst (Outcome win_id c i (i + suc left) ring)
        (sym (claim_step left win_id c i ring true free))
        (inl (Claimed-here left win_id c i ring free))
  | inr busy ↦
      subst (Outcome win_id c i (i + suc left) ring)
        (sym (claim_step left win_id c i ring false busy))
        (Claimed-later left win_id c i ring (claim left win_id c (i + 1) ring) busy
          (claim-outcome left win_id c (i + 1) ring))
]

-- For a window in range, a request fills the first of the 16 jobs that is free, marks it ready,
-- changes no other job and returns 1; if no job is free, it changes nothing and returns 0.
pub request-outcome :
    (win_id : ℕ) (c : Copy) (ring : ℕ → TransferJob)
    → win_id < max_windows
    → Claimed win_id c 0 transfer_ring_size ring (vx_transfer_request (pos win_id) c ring)
      ⊎ Full 0 transfer_ring_size ring (vx_transfer_request (pos win_id) c ring)
unfolding vx_transfer_request
request-outcome win_id c ring lt =
    rw (lt→leb_false win_id max_windows lt) (claim-outcome transfer_ring_size win_id c 0 ring)
