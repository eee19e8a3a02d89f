-- ===== src/Transfer/Handshake/Whole.antt =====
-- Taken without a break, the accesses of the transfer thread for a job are its round for the job.
use mathlib.Core.List.{append-nil}
use chess_rts.Base.{
  ap, ℕ, zero, suc, ◌≡◌, refl, Bool, Bool-cases, inl, inr, true, false, ◌++◌, [], sym,
}
use chess_rts.Base.Int.{pos}
use chess_rts.State.{Floats, Globals}
use chess_rts.Transfer.{Outcome, serve_window, stopped, release}
use chess_rts.Transfer.Handshake.{elsewhere, found, CopyMeeting, copy_step, set_transfer_busy}

abbrev copy_steps : {fl : Floats} → ℕ → Bool → (wid : ℕ) → CopyMeeting fl → CopyMeeting fl
copy_steps zero timeout wid s = s
copy_steps (suc n) timeout wid s = copy_steps n timeout wid (copy_step timeout wid s.copy s)

-- The meeting after a round of the transfer thread that `o` describes.
abbrev after_job : {fl : Floats} → CopyMeeting fl → Outcome fl → CopyMeeting fl
after_job s o = record s { globals = o.globals; copy = elsewhere; calls = s.calls ++ o.calls }

-- Without a call the calls stay.
no_calls :
    {fl : Floats} (s : CopyMeeting fl) (g : Globals fl)
    → record s { globals = g; copy = elsewhere }
      ≡ record s { globals = g; copy = elsewhere; calls = s.calls ++ [] }
no_calls s g =
    ap (λ calls. record s { globals = g; copy = elsewhere; calls = calls })
      (sym (append-nil s.calls))

-- Taken without a break, the accesses of the transfer thread for a job that it has found, six at most,
-- are its round for the job: the same globals and the same calls.
copy_in_one_go :
    {fl : Floats} (timeout : Bool) (w i : ℕ) (s : CopyMeeting fl)
    → copy_steps 6 timeout w (record s { copy = found i })
      ≡ after_job s (serve_window timeout i w (set_transfer_busy w (pos 1) s.globals))
unfolding copy_step serve_window
copy_in_one_go true w i s = elim (Bool-cases (stopped s.globals w)) [
  | inl halted ↦ rw halted (no_calls s (release i w (set_transfer_busy w (pos 1) s.globals)))
  | inr running ↦ rw running refl
]
copy_in_one_go false w i s = elim (Bool-cases (stopped s.globals w)) [
  | inl halted ↦ rw halted (no_calls s (release i w (set_transfer_busy w (pos 1) s.globals)))
  | inr running ↦ rw running refl
]
