-- ===== src/Tenant/Kill/Invariant.antt =====
-- What holds between any two accesses while CMD_KILL_WINDOW is carried out.
use chess_rts.Base.{
  ℕ, ◌≡◌, refl, ◌⊎◌, inl, inr, Bool, true, false, update_self, sym, ◌∙◌, if◌then◌else◌,
}
use chess_rts.Base.Int.{pos, eqb_ℤ→eq}
use chess_rts.State.{RenderThreadInit, Floats, Globals}
use chess_rts.Render.Handshake.{RenderAt, InitAt, outside, waiting, render_clear, copying}
use chess_rts.Render.Handshake.Phase.{not_busy}
use chess_rts.Render.Handshake.Exclude.{Apart}
use chess_rts.Transfer.Handshake.{CopyAt}
use chess_rts.Transfer.Handshake.Exclude.{not_copying, CopiesApart}
use chess_rts.Tenant.Kill.{KillAt, serving, draining, render_idle, destroying, forced, kill_step}

-- The wait of the command is that of `vx_stream_init`.
abbrev pub as_init : RenderThreadInit → KillAt → InitAt
as_init wsi serving = outside
as_init wsi draining = waiting wsi
as_init wsi render_idle = render_clear wsi
as_init wsi destroying = copying wsi
as_init wsi forced = outside

pub record Both {fl : Floats} (w : ℕ) (wsi : RenderThreadInit) (g : Globals fl) (r : RenderAt)
    (c : CopyAt) (k : KillAt) : Type 0 where
  pub drawing_apart : Apart w g r (as_init wsi k)
  pub copies_apart : CopiesApart w g c (as_init wsi k)

pub kept-Apart :
    {fl : Floats} {w : ℕ} {g : Globals fl} {r : RenderAt} {i : InitAt} (g' : Globals fl)
    → g'.render_busy w ≡ g.render_busy w
    → ((g'.wsi_state w ≡ g.wsi_state w) ⊎ (g'.wsi_state w ≡ pos 0))
    → Apart w g r i
    → Apart w g' r i
kept-Apart g' b q v = record {
  flag = b ∙ v.flag;
  stopped = λ h. elim q [ inl same ↦ same ∙ v.stopped h | inr zero_ ↦ zero_ ];
  exclusive = v.exclusive;
}

pub kept-CopiesApart :
    {fl : Floats} {w : ℕ} {g : Globals fl} {c : CopyAt} {i : InitAt} (g' : Globals fl)
    → g'.transfer_busy w ≡ g.transfer_busy w
    → ((g'.wsi_state w ≡ g.wsi_state w) ⊎ (g'.wsi_state w ≡ pos 0))
    → CopiesApart w g c i
    → CopiesApart w g' c i
kept-CopiesApart g' b q v = record {
  flag = b ∙ v.flag;
  stopped_ = λ h. elim q [ inl same ↦ same ∙ v.stopped_ h | inr zero_ ↦ zero_ ];
  exclusive = v.exclusive;
}

branch :
    {fl : Floats} {w : ℕ} {wsi : RenderThreadInit} {g : Globals fl} {r : RenderAt} {c : CopyAt}
    {k l : KillAt} (b : Bool)
    → (b ≡ true → Both w wsi g r c k)
    → (b ≡ false → Both w wsi g r c l)
    → Both w wsi g r c (if b then k else l)
branch true p q = p refl
branch false p q = q refl

-- What is not kept apart any more.
pub weaker :
    {fl : Floats} {w : ℕ} {wsi : RenderThreadInit} {g : Globals fl} {r : RenderAt} {c : CopyAt}
    {k : KillAt}
    → Both w wsi g r c k
    → Both w wsi g r c serving
weaker v = record {
  drawing_apart = record {
    flag = v.drawing_apart.flag;
    stopped = λ h. absurd (cc h);
    exclusive = λ h. absurd (cc h);
  };
  copies_apart = record {
    flag = v.copies_apart.flag;
    stopped_ = λ h. absurd (cc h);
    exclusive = λ h. absurd (cc h);
  };
}

pub kill-Both :
    {fl : Floats} (w : ℕ) (wsi : RenderThreadInit) (g : Globals fl) (r : RenderAt) (c : CopyAt)
    (k : KillAt)
    → Both w wsi g r c k
    → Both w wsi (kill_step w k g).1 r c (kill_step w k g).0
unfolding kill_step
kill-Both w wsi g r c serving v = record {
  drawing_apart = record {
    flag = v.drawing_apart.flag;
    stopped = λ _. update_self g.wsi_state w (pos 0);
    exclusive = λ h. absurd (cc h);
  };
  copies_apart = record {
    flag = v.copies_apart.flag;
    stopped_ = λ _. update_self g.wsi_state w (pos 0);
    exclusive = λ h. absurd (cc h);
  };
}
kill-Both w wsi g r c draining v =
    branch {k = render_idle} {l = draining} _
      (λ clear. record {
        drawing_apart = record {
          flag = v.drawing_apart.flag;
          stopped = v.drawing_apart.stopped;
          exclusive =
              λ _. not_busy r (sym v.drawing_apart.flag ∙ eqb_ℤ→eq (g.render_busy w) (pos 0) clear);
        };
        copies_apart = record {
          flag = v.copies_apart.flag;
          stopped_ = v.copies_apart.stopped_;
          exclusive = λ h. absurd (cc h);
        };
      })
      (λ _. v)
kill-Both w wsi g r c render_idle v =
    branch {k = destroying} {l = draining} _
      (λ clear. record {
        drawing_apart = record {
          flag = v.drawing_apart.flag;
          stopped = v.drawing_apart.stopped;
          exclusive = v.drawing_apart.exclusive;
        };
        copies_apart = record {
          flag = v.copies_apart.flag;
          stopped_ = v.copies_apart.stopped_;
          exclusive = λ _.
              not_copying c (sym v.copies_apart.flag ∙ eqb_ℤ→eq (g.transfer_busy w) (pos 0) clear);
        };
      })
      (λ _. record {
        drawing_apart = record {
          flag = v.drawing_apart.flag;
          stopped = v.drawing_apart.stopped;
          exclusive = λ h. absurd (cc h);
        };
        copies_apart = record {
          flag = v.copies_apart.flag;
          stopped_ = v.copies_apart.stopped_;
          exclusive = λ h. absurd (cc h);
        };
      })
kill-Both w wsi g r c destroying v = record {
  drawing_apart = kept-Apart _ refl (inl refl) (weaker v).drawing_apart;
  copies_apart = kept-CopiesApart _ refl (inl refl) (weaker v).copies_apart;
}
kill-Both w wsi g r c forced v = record {
  drawing_apart = kept-Apart _ refl (inl refl) v.drawing_apart;
  copies_apart = kept-CopiesApart _ refl (inl refl) v.copies_apart;
}
