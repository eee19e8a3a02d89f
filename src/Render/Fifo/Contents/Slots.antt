-- ===== src/Render/Fifo/Contents/Slots.antt =====
-- The packets in the slots of a window that wait.
use chess_rts.Base.{
  ℕ, zero, suc, ◌+◌, ◌*◌, ◌%◌, ◌≤◌, ◌<◌, ◌≡◌, ◌⊎◌, refl, List, [], ◌∷◌, ◌++◌, arith, ◌∙◌, ap,
  length, update, update_ne,
}
use chess_rts.State.{RenderPacket}

-- The packets in the slots of the packets from number `k` on.
abbrev pub contents_from : (ℕ → RenderPacket) → (w k n : ℕ) → List RenderPacket
contents_from packets w k zero = []
contents_from packets w k (suc n) = packets (w * 4 + k % 4) ∷ contents_from packets w (suc k) n

pub length-contents_from :
    (packets : ℕ → RenderPacket) (w k n : ℕ) → length (contents_from packets w k n) ≡ n
length-contents_from packets w k zero = refl
length-contents_from packets w k (suc n) = ap suc (length-contents_from packets w (suc k) n)

-- Packets that agree on the slots that wait.
pub contents_ext :
    (f g : ℕ → RenderPacket) (w k n : ℕ)
    → ((j : ℕ) → k ≤ j → j < k + n → g (w * 4 + j % 4) ≡ f (w * 4 + j % 4))
    → contents_from g w k n ≡ contents_from f w k n
contents_ext f g w k zero same = refl
contents_ext f g w k (suc n) same =
    let head = same k (omega arith) (omega arith) in
    let tail = contents_ext f g w (suc k) n (λ j lo hi. same j (omega arith) (omega arith)) in
    rw (head, tail) refl

pub contents_snoc :
    (f : ℕ → RenderPacket) (w k n : ℕ)
    → contents_from f w k (suc n) ≡ contents_from f w k n ++ f (w * 4 + (k + n) % 4) ∷ []
contents_snoc f w k zero = ap (λ (x : ℕ). f (w * 4 + x % 4) ∷ []) {x = k} {y = k + 0} (omega arith)
contents_snoc f w k (suc n) =
    ap (λ l. f (w * 4 + k % 4) ∷ l) (contents_snoc f w (suc k) n)
    ∙ ap (λ (x : ℕ). f (w * 4 + k % 4) ∷ (contents_from f w (suc k) n ++ f (w * 4 + x % 4) ∷ []))
        {x = suc k + n} {y = k + suc n} (omega arith)

-- A store into a slot that holds none of the waiting packets.
pub contents_stored :
    (f : ℕ → RenderPacket) (p : RenderPacket) (w k n d : ℕ)
    → ((k + n ≤ d) × (d < k + 4)) ⊎ ((d + 1 ≡ k) × (n < 4))
    → contents_from (update f (w * 4 + d % 4) p) w k n ≡ contents_from f w k n
contents_stored f p w k n d out =
    contents_ext f (update f (w * 4 + d % 4) p) w k n
      (λ j lo hi. update_ne f (w * 4 + d % 4) (w * 4 + j % 4) p (λ e. ground (arith, out)))
