-- ===== src/Draw/Record/Calls.antt =====
-- The phases of a command buffer, with the layouts of its two images, and the draws inside its rendering.
use chess_rts.Base.{
  ltb, inl, inr, Bool-cases, zero, suc, ◌+◌, ◌≤◌, ◌<◌, arith, ℕ, ◌≡◌, ◌≢◌, refl, ap, ◌∙◌, Bool,
  true, false, ◌||◌, List, [], ◌∷◌, ◌++◌, map, if◌then◌else◌, ◌==◌, sym, ==_iff, ne→==_false,
}
use chess_rts.State.{DrawCommand, RenderPacket}
use chess_rts.Draw.{
  DrawCall, bind_pipeline, bind_vertex_buffers, bind_index_buffer, bind_descriptor_sets,
  draw_indexed, draw_state, when_new, draw_loop, max_draws, vx_execute_draw_commands,
}
use chess_rts.Draw.Record.{
  Layout, undefined, color_attachment, depth_attachment, present_src, Barrier, RecordCall,
  begin_command_buffer, pipeline_barrier, begin_rendering, draw_call, end_rendering,
  end_command_buffer,
}

-- `broken` is a call that is not allowed where it stands. While rendering it is known which pipeline,
-- vertex buffer and index buffer are bound, 0 for none.
pub data Phase : Type 0 where
  initial : Phase
  recording : (color depth : Layout) → Phase
  rendering : (pipeline vertices indices : ℕ) → Phase
  executable : (color depth : Layout) → Phase
  broken : Phase

-- A barrier is allowed from the layout that the image has, or from the undefined one.
abbrev pub moves : Layout → Layout → Bool
moves undefined _ = true
moves color_attachment color_attachment = true
moves depth_attachment depth_attachment = true
moves present_src present_src = true
moves _ _ = false

unfoldable pub after_barriers :
    (swapchain depth_image : ℕ) → List Barrier → (color depth : Layout) → Phase
after_barriers swapchain depth_image [] color depth = recording color depth
after_barriers swapchain depth_image (b ∷ barriers) color depth =
    let as_color = after_barriers swapchain depth_image barriers b.new_layout depth in
    let as_depth = after_barriers swapchain depth_image barriers color b.new_layout in
    if b.image == swapchain
    then (if moves b.old_layout color then as_color else broken)
    else if b.image == depth_image
    then (if moves b.old_layout depth then as_depth else broken)
    else broken

-- A draw is allowed with a pipeline, a vertex buffer and an index buffer bound, and the constants are
-- pushed and the sets bound to a layout.
pub after_draw : DrawCall → (pipeline vertices indices : ℕ) → Phase
after_draw (bind_pipeline p) pipeline vertices indices = rendering p vertices indices
after_draw (bind_vertex_buffers b) pipeline vertices indices = rendering pipeline b indices
after_draw (bind_index_buffer b) pipeline vertices indices = rendering pipeline vertices b
after_draw (draw_indexed _ _ _ _ _) pipeline vertices indices =
    if pipeline == 0 || vertices == 0 || indices == 0
    then broken
    else rendering pipeline vertices indices
after_draw _ pipeline vertices indices = rendering pipeline vertices indices

unfoldable pub after_call : (swapchain depth_image : ℕ) → RecordCall → Phase → Phase
after_call s d begin_command_buffer initial = recording undefined undefined
after_call s d (pipeline_barrier barriers) (recording color depth) =
    after_barriers s d barriers color depth
after_call s d (begin_rendering _ _ _ _) (recording color_attachment depth_attachment) =
    rendering 0 0 0
after_call s d (draw_call call) (rendering pipeline vertices indices) =
    after_draw call pipeline vertices indices
after_call s d end_rendering (rendering _ _ _) = recording color_attachment depth_attachment
after_call s d end_command_buffer (recording color depth) = executable color depth
after_call s d _ _ = broken

unfoldable pub after_calls : (swapchain depth_image : ℕ) → List RecordCall → Phase → Phase
after_calls s d [] phase = phase
after_calls s d (call ∷ calls) phase = after_calls s d calls (after_call s d call phase)

-- The calls that are made whatever is bound.
after_state :
    (s d layout pipeline vertices indices : ℕ) (draw : DrawCommand) (calls : List RecordCall)
    → pipeline ≢ 0
    → vertices ≢ 0
    → indices ≢ 0
    → after_calls s d
        (map draw_call (draw_state layout draw) ++ calls)
        (rendering pipeline vertices indices)
      ≡ after_calls s d calls (rendering pipeline vertices indices)
unfolding after_calls after_call after_draw draw_state
after_state s d layout pipeline vertices indices draw calls p v i =
    rw (ne→==_false pipeline 0 p, ne→==_false vertices 0 v, ne→==_false indices 0 i) refl

-- After a pipeline is bound, or was bound already.
after_bind :
    (s d pipeline current vertices indices : ℕ) (calls : List RecordCall)
    → after_calls s d
        (map draw_call (when_new pipeline current (bind_pipeline pipeline)) ++ calls)
        (rendering current vertices indices)
      ≡ after_calls s d calls (rendering pipeline vertices indices)
unfolding after_calls after_call after_draw
after_bind s d pipeline current vertices indices calls = elim (Bool-cases (pipeline == current)) [
  | inl same ↦ rw same (
      ap (λ k. after_calls s d calls (rendering k vertices indices))
        (sym ((==_iff pipeline current).0 same)))
  | inr other ↦ rw other refl
]

after_set :
    (s d layout set current pipeline vertices indices : ℕ) (calls : List RecordCall)
    → after_calls s d
        (map draw_call (when_new set current (bind_descriptor_sets layout set)) ++ calls)
        (rendering pipeline vertices indices)
      ≡ after_calls s d calls (rendering pipeline vertices indices)
unfolding after_calls after_call after_draw
after_set s d layout set current pipeline vertices indices calls =
    elim (Bool-cases (set == current)) [ inl same ↦ rw same refl | inr other ↦ rw other refl ]

map-append :
    (xs ys : List DrawCall) (zs : List RecordCall)
    → map draw_call (xs ++ ys) ++ zs ≡ map draw_call xs ++ (map draw_call ys ++ zs)
map-append [] ys zs = refl
map-append (x ∷ xs) ys zs = ap (λ l. draw_call x ∷ l) (map-append xs ys zs)

-- Every draw of the loop finds a pipeline, if every command names one.
after_loop :
    (s d layout left : ℕ) (queue : ℕ → DrawCommand) (i pipeline set vertices indices : ℕ)
    (calls : List RecordCall)
    → ((k : ℕ) → i ≤ k → k < i + left → (queue k).pipeline_id ≢ 0)
    → vertices ≢ 0
    → indices ≢ 0
    → (last : ℕ) × (after_calls s d
          (map draw_call (draw_loop left layout queue i pipeline set) ++ calls)
          (rendering pipeline vertices indices)
        ≡ after_calls s d calls (rendering last vertices indices))
unfolding draw_loop
after_loop s d layout zero queue i pipeline set vertices indices calls named v x = (pipeline, refl)
after_loop s d layout (suc left) queue i pipeline set vertices indices calls named v x =
    let draw = queue i in
    let rest = draw_loop left layout queue (i + 1) draw.pipeline_id draw.descriptor_set in
    let binds = when_new draw.pipeline_id pipeline (bind_pipeline draw.pipeline_id) in
    let sets = when_new draw.descriptor_set set (bind_descriptor_sets layout draw.descriptor_set) in
    let state = draw_state layout draw in
    let (last, e) =
      after_loop s d layout left queue (i + 1) draw.pipeline_id draw.descriptor_set vertices indices
        calls (λ k lo hi. named k (omega (arith, lo)) (omega (arith, hi))) v x in
    (
      last,
      ap (λ l. after_calls s d l (rendering pipeline vertices indices))
            (map-append binds (sets ++ (state ++ rest)) calls)
          ∙ after_bind s d draw.pipeline_id pipeline vertices indices
              (map draw_call (sets ++ (state ++ rest)) ++ calls)
          ∙ ap (λ l. after_calls s d l (rendering draw.pipeline_id vertices indices))
              (map-append sets (state ++ rest) calls)
          ∙ after_set s d layout draw.descriptor_set set draw.pipeline_id vertices indices
              (map draw_call (state ++ rest) ++ calls)
          ∙ ap (λ l. after_calls s d l (rendering draw.pipeline_id vertices indices))
              (map-append state rest calls)
          ∙ after_state s d layout draw.pipeline_id vertices indices draw
              (map draw_call rest ++ calls) (named i (omega arith) (omega arith)) v x
          ∙ e,
    )

-- Every command that is drawn names a pipeline.
abbrev pub Named : (ℕ → DrawCommand) → (count : ℕ) → Type 0
Named queue count = (k : ℕ) → k < count → (queue k).pipeline_id ≢ 0

limited : (max count k : ℕ) → k < 0 + (if ltb max count then max else count) → k < count
limited max count k lt = ground (arith, lt)

pub after_execute :
    (s d : ℕ) (p : RenderPacket) (queue : ℕ → DrawCommand) (count : ℕ) (calls : List RecordCall)
    → Named queue count
    → (pipeline : ℕ) × (vertices : ℕ) × (indices : ℕ) × (after_calls s d
          (map draw_call (vx_execute_draw_commands p queue count) ++ calls)
          (rendering 0 0 0)
        ≡ after_calls s d calls (rendering pipeline vertices indices))
unfolding vx_execute_draw_commands after_calls after_call after_draw
after_execute s d p queue count calls named =
    elim (Bool-cases (count == 0 || p.vertex_buffer == 0 || p.index_buffer == 0)) [
      | inl nothing ↦ rw nothing (0, 0, 0, refl)
      | inr some_ ↦
          let (last, e) =
            after_loop s d p.gfx_layout (if ltb max_draws count then max_draws else count) queue 0 0
              0 p.vertex_buffer p.index_buffer calls
              (λ k lo hi. named k (limited max_draws count k hi)) (vertex_set (count == 0) p some_)
              (index_set (count == 0) p some_) in
          rw some_ (last, p.vertex_buffer, p.index_buffer, e)
    ]
  where
    vertex_set :
        (b : Bool) (p : RenderPacket)
        → b || p.vertex_buffer == 0 || p.index_buffer == 0 ≡ false
        → p.vertex_buffer ≢ 0
    vertex_set b p e h = absurd (ground (arith, e, h))

    index_set :
        (b : Bool) (p : RenderPacket)
        → b || p.vertex_buffer == 0 || p.index_buffer == 0 ≡ false
        → p.index_buffer ≢ 0
    index_set b p e h = absurd (ground (arith, e, h))
