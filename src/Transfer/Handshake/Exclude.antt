-- ===== src/Transfer/Handshake/Exclude.antt =====
-- `g_wsi_state` and `g_transfer_busy` keep the copies for a window and its reset apart.
use chess_rts.Base.{
  ℕ, ◌≡◌, refl, inl, inr, Bool, true, false, arith, if◌then◌else◌, update_self, ◌+◌, sym, ◌∙◌, ap,
}
use chess_rts.Base.Int.{ℤ, pos, eqb_ℤ→eq}
use chess_rts.State.{Floats, Globals}
use chess_rts.Render.Handshake.{
  InitAt, outside, waiting, render_clear, copying, unlocking, clearing_ready, clearing_local,
  clearing_active, opening, init_step,
}
use chess_rts.Render.Handshake.Phase.{is_writing, has_stopped, passed→stopped, writing→passed}
use chess_rts.Transfer.{stopped}
use chess_rts.Transfer.Handshake.{
  CopyAt, elsewhere, found, marked, working, hanging, stopping, releasing, closing, CopyMeeting,
  copy_step, CopyMeetStep, find, transfer, call, init, give_up, others, CopyMeetReach, here, next,
}

-- The value that `g_transfer_busy` has then.
abbrev pub copy_flag : CopyAt → ℤ
copy_flag elsewhere = pos 0
copy_flag (found _) = pos 0
copy_flag (marked _) = pos 1
copy_flag (working _) = pos 1
copy_flag (hanging _) = pos 1
copy_flag stopping = pos 1
copy_flag (releasing _) = pos 1
copy_flag closing = pos 1

-- The transfer thread has found the window running, and works with its handles.
abbrev pub is_copying : CopyAt → Bool
is_copying elsewhere = false
is_copying (found _) = false
is_copying (marked _) = false
is_copying (working _) = true
is_copying (hanging _) = false
is_copying stopping = false
is_copying (releasing _) = false
is_copying closing = false

pub not_copying : (c : CopyAt) → copy_flag c ≡ pos 0 → is_copying c ≡ false
not_copying elsewhere e = refl
not_copying (found i) e = refl
not_copying (marked i) e = refl
not_copying (working i) e = absurd (cc e)
not_copying (hanging i) e = refl
not_copying stopping e = refl
not_copying (releasing i) e = refl
not_copying closing e = refl

pub record CopiesApart {fl : Floats} (w : ℕ) (g : Globals fl) (c : CopyAt) (i : InitAt)
    : Type 0 where
  pub flag : g.transfer_busy w ≡ copy_flag c
  pub stopped_ : has_stopped i ≡ true → g.wsi_state w ≡ pos 0
  pub exclusive : is_writing i ≡ true → is_copying c ≡ false

writing→stopped : (i : InitAt) → is_writing i ≡ true → has_stopped i ≡ true
writing→stopped i h = passed→stopped i (writing→passed i h)

-- The test of `g_wsi_state` and of the handles.
tested :
    {fl : Floats} {w : ℕ} {g : Globals fl} (j : ℕ) {i : InitAt} (b : Bool)
    → stopped g w ≡ b
    → CopiesApart w g (marked j) i
    → CopiesApart w g (if b then releasing j else working j) i
tested j true e v = record { flag = v.flag; stopped_ = v.stopped_; exclusive = λ _. refl }
tested j {i} false e v = record {
  flag = v.flag;
  stopped_ = v.stopped_;
  exclusive = λ h. absurd (ground (arith, v.stopped_ (writing→stopped i h)));
}

pub copy-CopiesApart :
    {fl : Floats} {w : ℕ} (timeout : Bool) (s : CopyMeeting fl) (c : CopyAt)
    → CopiesApart w s.globals c s.init
    → (let t = copy_step timeout w c s in CopiesApart w t.globals t.copy t.init)
unfolding copy_step
copy-CopiesApart timeout s elsewhere v = record {
  flag = v.flag;
  stopped_ = v.stopped_;
  exclusive = λ _. refl;
}
copy-CopiesApart {w = w} timeout s (found i) v = record {
  flag = update_self s.globals.transfer_busy w (pos 1);
  stopped_ = v.stopped_;
  exclusive = λ _. refl;
}
copy-CopiesApart timeout s (marked i) v = tested i _ refl v
copy-CopiesApart true s (working i) v = record {
  flag = v.flag;
  stopped_ = v.stopped_;
  exclusive = λ _. refl;
}
copy-CopiesApart false s (working i) v = record {
  flag = v.flag;
  stopped_ = v.stopped_;
  exclusive = λ _. refl;
}
copy-CopiesApart timeout s (hanging i) v = record {
  flag = v.flag;
  stopped_ = v.stopped_;
  exclusive = λ _. refl;
}
copy-CopiesApart {w = w} timeout s stopping v = record {
  flag = v.flag;
  stopped_ = λ _. update_self s.globals.wsi_state w (pos 0);
  exclusive = λ _. refl;
}
copy-CopiesApart timeout s (releasing i) v = record {
  flag = v.flag;
  stopped_ = v.stopped_;
  exclusive = λ _. refl;
}
copy-CopiesApart {w = w} timeout s closing v = record {
  flag = update_self s.globals.transfer_busy w (pos 0);
  stopped_ = v.stopped_;
  exclusive = λ _. refl;
}

branch :
    {fl : Floats} {w : ℕ} {g : Globals fl} {c : CopyAt} {i j : InitAt} (b : Bool)
    → (b ≡ true → CopiesApart w g c i)
    → (b ≡ false → CopiesApart w g c j)
    → CopiesApart w g c (if b then i else j)
branch true p q = p refl
branch false p q = q refl

init-CopiesApart :
    {fl : Floats} (w : ℕ) (g : Globals fl) (c : CopyAt) (i : InitAt)
    → CopiesApart w g c i
    → CopiesApart w (init_step w i g).1 c (init_step w i g).0
unfolding init_step
init-CopiesApart w g c outside v = v
init-CopiesApart w g c (waiting wsi) v =
    branch {i = render_clear wsi} {j = waiting wsi} _
      (λ _. record { flag = v.flag; stopped_ = v.stopped_; exclusive = λ h. absurd (cc h) })
      (λ _. v)
init-CopiesApart w g c (render_clear wsi) v =
    branch {i = copying wsi} {j = waiting wsi} _
      (λ clear. record {
        flag = v.flag;
        stopped_ = v.stopped_;
        exclusive = λ _. not_copying c (sym v.flag ∙ eqb_ℤ→eq (g.transfer_busy w) (pos 0) clear);
      })
      (λ _. record { flag = v.flag; stopped_ = v.stopped_; exclusive = λ h. absurd (cc h) })
init-CopiesApart w g c (copying wsi) v = record {
  flag = v.flag;
  stopped_ = v.stopped_;
  exclusive = v.exclusive;
}
init-CopiesApart w g c unlocking v = record {
  flag = v.flag;
  stopped_ = v.stopped_;
  exclusive = v.exclusive;
}
init-CopiesApart w g c clearing_ready v = record {
  flag = v.flag;
  stopped_ = v.stopped_;
  exclusive = v.exclusive;
}
init-CopiesApart w g c clearing_local v = record {
  flag = v.flag;
  stopped_ = v.stopped_;
  exclusive = v.exclusive;
}
init-CopiesApart w g c (clearing_active f) v =
    branch {i = clearing_active (f + 1)} {j = opening} _
      (λ _. record { flag = v.flag; stopped_ = v.stopped_; exclusive = v.exclusive })
      (λ _. record { flag = v.flag; stopped_ = v.stopped_; exclusive = v.exclusive })
init-CopiesApart w g c opening v = record {
  flag = v.flag;
  stopped_ = λ h. absurd (cc h);
  exclusive = λ h. absurd (cc h);
}

step-CopiesApart :
    {fl : Floats} {w : ℕ} {s t : CopyMeeting fl}
    → CopyMeetStep w s t
    → CopiesApart w s.globals s.copy s.init
    → CopiesApart w t.globals t.copy t.init
step-CopiesApart (find i e st tg) v = record {
  flag = v.flag ∙ ap copy_flag e;
  stopped_ = v.stopped_;
  exclusive = λ _. refl;
}
step-CopiesApart {s = s} (transfer timeout) v = copy-CopiesApart timeout s s.copy v
step-CopiesApart {w = w} {s} (call wsi e) v = record {
  flag = v.flag;
  stopped_ = λ h. update_self s.globals.wsi_state w (pos 0);
  exclusive = λ h. absurd (cc h);
}
step-CopiesApart {w = w} {s} init v = init-CopiesApart w s.globals s.copy s.init v
step-CopiesApart (give_up wsi e) v = record {
  flag = v.flag;
  stopped_ = λ h. absurd (cc h);
  exclusive = λ h. absurd (cc h);
}
step-CopiesApart (others g keeps) v = record {
  flag = keeps.transfer_busy ∙ v.flag;
  stopped_ = λ h. elim keeps.wsi_state [ inl same ↦ same ∙ v.stopped_ h | inr zero_ ↦ zero_ ];
  exclusive = v.exclusive;
}

reach-CopiesApart :
    {fl : Floats} {w : ℕ} {s t : CopyMeeting fl}
    → CopiesApart w s.globals s.copy s.init
    → CopyMeetReach w s t
    → CopiesApart w t.globals t.copy t.init
reach-CopiesApart v here = v
reach-CopiesApart v (next r st) = step-CopiesApart st (reach-CopiesApart v r)

pub start-CopiesApart :
    {fl : Floats} {w : ℕ} {g : Globals fl} {c : CopyAt} {i : InitAt}
    → c ≡ elsewhere
    → i ≡ outside
    → g.transfer_busy w ≡ pos 0
    → CopiesApart w g c i
start-CopiesApart p q z =
    rw (p, q) (record { flag = z; stopped_ = λ h. absurd (cc h); exclusive = λ h. absurd (cc h) })

-- Under accesses that are all sequentially consistent, which the release stores and acquire loads of
-- the code do not ensure: from a state in which the transfer thread is not at a job of the window, its busy flag is clear and
-- no call of `vx_stream_init` is under way, whatever the two threads and the others do: while
-- `vx_stream_init` has stores to make to the window's handles and ring, the transfer thread does not
-- copy for the window.
pub CopyMeetReach-exclusive :
    {fl : Floats} {w : ℕ} {s t : CopyMeeting fl}
    → s.copy ≡ elsewhere
    → s.init ≡ outside
    → s.globals.transfer_busy w ≡ pos 0
    → CopyMeetReach w s t
    → is_writing t.init ≡ true
    → is_copying t.copy ≡ false
CopyMeetReach-exclusive {w = w} {s} {t} p q z r h =
    (reach-CopiesApart (start-CopiesApart p q z) r).exclusive h
