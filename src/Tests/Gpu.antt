-- ===== src/Tests/Gpu.antt =====
-- The GPU's threads at work: a packet drawn, a frame submitted, a copy carried out,
-- a window rebuilt.
use chess_rts.Base.{
  true, [], ◌+◌, ℕ, ◌≡◌, refl, Bool, false, ◌||◌, ◌==◌, if◌then◌else◌, some, List, arith,
}
use chess_rts.Base.Int.{pos}
use chess_rts.State.{RenderPacket, Globals}
use chess_rts.Draw.{vx_execute_draw_commands}
use chess_rts.Draw.Bindings.{Bound, executed, asked_from, executed-draw_commands}
use chess_rts.Render.Frame.{image, FrameAnswers, FrameCall, is_defined, is_skipped, render_frame}
use chess_rts.Render.Frame.Fence.{signalled, unsignalled, is_lost, fence_over, render_frame-fence}
use chess_rts.Render.Rebuild.{RebuildCall, rebuild_windows}
use chess_rts.Render.Rebuild.Calls.{wanted_calls}
use chess_rts.Render.Rebuild.Stopped.{Stopped, rebuild_windows-Stopped}
use chess_rts.Transfer.{serve_ring}
use chess_rts.Transfer.Serve.{Addressed}
use chess_rts.Transfer.Serve.Pass.{Passed, serve_ring-due}
use chess_rts.Tests.{whole, a_draw, a_packet, a_tenant, a_wsi, some_globals}
use chess_rts.Draw.Record.{present_src, depth_attachment, vx_record_commands}
use chess_rts.Draw.Record.Calls.{initial, executable, after_calls}
use chess_rts.Draw.Record.Phases.{record_commands-executable}
use chess_rts.Spin.Bounded.{init_wait_at_once}
use chess_rts.Boot.{purge_window, vx_stream_init}
use chess_rts.Boot.Pools.{NewHandles, vx_stream_allocate_tenant}
use chess_rts.Boot.Pools.Ledger.{created, destroyed, allocate_tenant-purged}

-- A command buffer that has just begun.
abbrev nothing_bound : Bound
nothing_bound = record {
  pipeline = 0;
  descriptor_set = 0;
  scissor = (pos 0, pos 0, 0, 0);
  cull_mode = 0;
  front_face = 0;
  topology = 0;
  depth_test = 0;
  depth_write = 0;
  depth_compare_op = 0;
}

executed-draw_commands_example :
    executed (vx_execute_draw_commands a_packet (λ _. a_draw) 2) nothing_bound
    ≡ asked_from 2 (λ _. a_draw) 0
executed-draw_commands_example =
    executed-draw_commands a_packet (λ _. a_draw) 2 nothing_bound refl refl

abbrev answers : FrameAnswers
answers = record { wait_times_out = false; acquire = image 1; submit_ok = true }

render_frame-fence_example :
    (r : Globals whole × List FrameCall) × (render_frame answers 0 1 2 some_globals ≡ some r)
    × (fence_over true 1 r.1 signalled
        ≡ (if is_lost answers (is_skipped 0 2 some_globals) 1 1 then unsignalled else signalled))
unfolding is_defined
render_frame-fence_example = render_frame-fence answers 1 0 1 2 some_globals refl

addressed : Addressed 0 16 some_globals.transfer_ring
addressed j lo hi ready = (0, target, omega arith)
  where
    target : (some_globals.transfer_ring j).target_window_id ≡ pos 0
    target = ground arith

serve_ring-due_example : Passed 16 0 some_globals (serve_ring 16 (λ _. false) 0 some_globals)
serve_ring-due_example = serve_ring-due (λ _. false) some_globals (λ j. refl) addressed

-- The wait for window 0 times out.
abbrev one_busy : ℕ → ℕ → Bool
one_busy w _ = w == 0

-- Windows 0 and 2 are to be rebuilt.
abbrev rebuilding : Globals whole
rebuilding = record some_globals {
  mailbox = record some_globals.mailbox {
    tenants = λ w. if w == 0 || w == 2 then record a_tenant { glfw_cmd = pos 3 } else a_tenant;
  };
}

rebuild_windows-Stopped_example :
    (g' : Globals whole) × (calls : List RebuildCall) × (rebuild_windows 4 one_busy 0 rebuilding
      ≡ some (g', calls))
    × Stopped 0 4 rebuilding g'
    × (calls ≡ wanted_calls 4 0 rebuilding)
rebuild_windows-Stopped_example = rebuild_windows-Stopped one_busy rebuilding

-- A packet whose image is acquired.
abbrev imaged : RenderPacket
imaged = record a_packet { swapchain_image = 101; swapchain_view = 201 }

record_commands-executable_example :
    after_calls 101 12 (vx_record_commands imaged (λ _. a_draw) 2) initial
    ≡ executable present_src depth_attachment
record_commands-executable_example =
    record_commands-executable imaged (λ _. a_draw) 2 (λ e. ground (arith, e))
      (λ e. ground (arith, e)) (λ e. ground (arith, e)) (λ k lt e. ground (arith, e))

-- Window 0 without its pools.
abbrev bare : Globals whole
bare = record some_globals {
  render_cmd_pools = λ _. 0;
  transfer_cmd_pools = λ _. 0;
  transfer_fences = λ _. 0;
}

abbrev some_handles : NewHandles
some_handles = record {
  render_pool = 70;
  render_buffers = λ i. i + 71;
  transfer_pool = 74;
  transfer_buffer = 75;
  transfer_fence = 76;
}

allocate_tenant-purged_example :
    let r = vx_stream_allocate_tenant some_handles (pos 0) (some a_wsi) 0 1 bare in
    (g' : Globals whole) × (vx_stream_init (λ _. false) (pos 0) a_wsi r.0 ≡ some g')
    × (destroyed (purge_window 0 g').1 ≡ created r.1)
    × ((vx_stream_allocate_tenant some_handles (pos 0) (some a_wsi) 0 1 g').1 ≡ [])
allocate_tenant-purged_example =
    allocate_tenant-purged some_handles some_handles (λ _. false) 0 a_wsi 0 1 bare (omega arith)
      (λ e. ground (arith, e))
      (record {
        render_pool = λ e. ground (arith, e);
        transfer_pool = λ e. ground (arith, e);
        fence = λ e. ground (arith, e);
      })
      (record { render = refl; transfer = refl; signal = refl })
      (init_wait_at_once (λ _. false) refl)
