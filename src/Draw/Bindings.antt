-- ===== src/Draw/Bindings.antt =====
-- What the GPU has in force at each draw, once the calls before it are carried out.
use chess_rts.Base.{
  ℕ, zero, suc, ◌+◌, ◌≡◌, refl, sym, ap, ◌∙◌, Bool, true, false, ◌||◌, List, [], ◌∷◌, ◌++◌,
  if◌then◌else◌, ltb, ◌==◌, ==_iff,
}
use chess_rts.Base.Int.{ℤ, pos}
use chess_rts.State.{DrawCommand, RenderPacket}
use chess_rts.Draw.{
  DrawCall, set_scissor, bind_vertex_buffers, bind_index_buffer, bind_pipeline,
  bind_descriptor_sets, set_cull_mode, set_front_face, set_primitive_topology,
  set_depth_test_enable, set_depth_write_enable, set_depth_compare_op, draw_indexed, draw_state,
  when_new, draw_loop, max_draws, vx_execute_draw_commands,
}

-- The state of the command buffer that a draw reads.
pub record Bound : Type 0 where
  pub pipeline : ℕ
  pub descriptor_set : ℕ
  pub scissor : ℤ × ℤ × ℕ × ℕ
  pub cull_mode : ℕ
  pub front_face : ℕ
  pub topology : ℕ
  pub depth_test : ℕ
  pub depth_write : ℕ
  pub depth_compare_op : ℕ

-- A draw with that state and its arguments.
pub record Drawn : Type 0 where
  pub bound : Bound
  pub indices : ℕ × ℕ × ℕ × ℤ × ℕ

-- How a call changes the state.
pub after_call : DrawCall → Bound → Bound
after_call (bind_pipeline p) b = record b { pipeline = p }
after_call (bind_descriptor_sets _ d) b = record b { descriptor_set = d }
after_call (set_scissor x y w h) b = record b { scissor = (x, y, w, h) }
after_call (set_cull_mode m) b = record b { cull_mode = m }
after_call (set_front_face f) b = record b { front_face = f }
after_call (set_primitive_topology t) b = record b { topology = t }
after_call (set_depth_test_enable t) b = record b { depth_test = t }
after_call (set_depth_write_enable t) b = record b { depth_write = t }
after_call (set_depth_compare_op c) b = record b { depth_compare_op = c }
after_call _ b = b

abbrev drawn_by : DrawCall → Bound → List Drawn → List Drawn
drawn_by (draw_indexed n m f v g) b rest = record { bound = b; indices = (n, m, f, v, g) } ∷ rest
drawn_by _ b rest = rest

-- The draws of a list of calls.
pub executed : List DrawCall → Bound → List Drawn
executed [] b = []
executed (call ∷ calls) b = drawn_by call b (executed calls (after_call call b))

-- The state that a command asks for.
abbrev pub wanted : DrawCommand → Bound
wanted draw = record {
  pipeline = draw.pipeline_id;
  descriptor_set = draw.descriptor_set;
  scissor = (draw.scissor_x, draw.scissor_y, draw.scissor_w, draw.scissor_h);
  cull_mode = draw.cull_mode;
  front_face = draw.front_face;
  topology = draw.topology;
  depth_test = draw.depth_test;
  depth_write = draw.depth_write;
  depth_compare_op = draw.depth_compare_op;
}

abbrev pub asked : DrawCommand → Drawn
asked draw = record {
  bound = wanted draw;
  indices = (
    draw.index_count, draw.instance_count, draw.first_index, draw.vertex_offset,
    draw.first_instance,
  );
}

-- What `n` commands from the `i`-th on ask for.
pub asked_from : ℕ → (ℕ → DrawCommand) → ℕ → List Drawn
asked_from zero queue i = []
asked_from (suc n) queue i = asked (queue i) ∷ asked_from n queue (i + 1)

unless_bound :
    (test : Bool) (call : DrawCall) (calls : List DrawCall) (b after : Bound)
    → (test ≡ true → after ≡ b)
    → (executed (call ∷ calls) b ≡ executed calls after)
    → executed ((if test then [] else call ∷ []) ++ calls) b ≡ executed calls after
unless_bound true call calls b after same new = ap (executed calls) (sym (same refl))
unless_bound false call calls b after same new = new

executed-pipeline :
    (p : ℕ) (calls : List DrawCall) (b : Bound)
    → executed (when_new p b.pipeline (bind_pipeline p) ++ calls) b
      ≡ executed calls (record b { pipeline = p })
unfolding executed after_call
executed-pipeline p calls b =
    unless_bound (p == b.pipeline) (bind_pipeline p) calls b (record b { pipeline = p })
      (λ e. ap (λ q. record b { pipeline = q }) ((==_iff p b.pipeline).0 e)) refl

executed-descriptor :
    (layout d : ℕ) (calls : List DrawCall) (b : Bound)
    → executed (when_new d b.descriptor_set (bind_descriptor_sets layout d) ++ calls) b
      ≡ executed calls (record b { descriptor_set = d })
unfolding executed after_call
executed-descriptor layout d calls b =
    unless_bound (d == b.descriptor_set) (bind_descriptor_sets layout d) calls b
      (record b { descriptor_set = d })
      (λ e. ap (λ q. record b { descriptor_set = q }) ((==_iff d b.descriptor_set).0 e)) refl

executed-draw_state :
    (layout : ℕ) (draw : DrawCommand) (calls : List DrawCall) (b : Bound)
    → executed
        (draw_state layout draw ++ calls)
        (record b { pipeline = draw.pipeline_id; descriptor_set = draw.descriptor_set })
      ≡ asked draw ∷ executed calls (wanted draw)
unfolding executed after_call draw_state
executed-draw_state layout draw calls b = refl

executed_none : (b : Bound) → executed [] b ≡ []
unfolding executed
executed_none b = refl

executed-draw_loop :
    (n layout : ℕ) (queue : ℕ → DrawCommand) (i : ℕ) (b : Bound)
    → executed (draw_loop n layout queue i b.pipeline b.descriptor_set) b ≡ asked_from n queue i
unfolding draw_loop asked_from
executed-draw_loop zero layout queue i b = executed_none b
executed-draw_loop (suc n) layout queue i b =
    let draw : DrawCommand = queue i in
    let rest = draw_loop n layout queue (i + 1) draw.pipeline_id draw.descriptor_set in
    executed-pipeline draw.pipeline_id
      (when_new draw.descriptor_set b.descriptor_set
          (bind_descriptor_sets layout draw.descriptor_set)
        ++ (draw_state layout draw ++ rest))
      b
    ∙ executed-descriptor layout draw.descriptor_set (draw_state layout draw ++ rest)
        (record b { pipeline = draw.pipeline_id })
    ∙ executed-draw_state layout draw rest b
    ∙ ap (λ ds. asked draw ∷ ds) (executed-draw_loop n layout queue (i + 1) (wanted draw))

executed-bound :
    (n layout : ℕ) (queue : ℕ → DrawCommand) (pipe desc : ℕ) (b : Bound)
    → b.pipeline ≡ pipe
    → b.descriptor_set ≡ desc
    → executed (draw_loop n layout queue 0 pipe desc) b ≡ asked_from n queue 0
executed-bound n layout queue pipe desc b e e' =
    ap (λ x. executed (draw_loop n layout queue 0 x desc) b) (sym e)
    ∙ ap (λ x. executed (draw_loop n layout queue 0 b.pipeline x) b) (sym e')
    ∙ executed-draw_loop n layout queue 0 b

guarded_draws :
    (refuse : Bool) (p : RenderPacket) (queue : ℕ → DrawCommand) (n : ℕ) (b : Bound)
    → b.pipeline ≡ 0
    → b.descriptor_set ≡ 0
    → executed
        (if refuse
          then []
          else bind_vertex_buffers p.vertex_buffer
            ∷ bind_index_buffer p.index_buffer
            ∷ draw_loop n p.gfx_layout queue 0 0 0)
        b
      ≡ (if refuse then [] else asked_from n queue 0)
unfolding executed after_call
guarded_draws true p queue n b e e' = refl
guarded_draws false p queue n b e e' = executed-bound n p.gfx_layout queue 0 0 b e e'

-- In a command buffer that has no pipeline and no set bound yet, leaving out the bindings that do
-- not change is not seen: each of the first 1,024 commands is drawn once, in order, with its own
-- pipeline, descriptor set, scissor and fixed-function state, and with its own arguments. Nothing
-- is drawn of a packet with no commands, no vertex buffer or no index buffer.
pub executed-draw_commands :
    (p : RenderPacket) (queue : ℕ → DrawCommand) (count : ℕ) (b : Bound)
    → b.pipeline ≡ 0
    → b.descriptor_set ≡ 0
    → executed (vx_execute_draw_commands p queue count) b ≡ (
        if count == 0 || p.vertex_buffer == 0 || p.index_buffer == 0
        then []
        else asked_from (if ltb max_draws count then max_draws else count) queue 0)
unfolding vx_execute_draw_commands executed after_call
executed-draw_commands p queue count b e e' =
    guarded_draws (count == 0 || p.vertex_buffer == 0 || p.index_buffer == 0) p queue
      (if ltb max_draws count then max_draws else count)
      (record b { scissor = (pos 0, pos 0, p.width, p.height) }) e e'
