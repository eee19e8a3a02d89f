-- ===== src/Lib.antt =====
-- The host of a strategy game: a C program that gives four windows ("tenants") to a Lua engine,
-- draws their packets with Vulkan on a render thread, copies buffers on a transfer thread, and
-- exchanges lockstep packets with up to eight peers over UDP. The Lua thread calls the C functions;
-- the main thread runs the windows; all share the globals of host/state.
--
-- The parts and their files:
--   Base      shared helpers: Boolean tests, C arrays as lists, signed integers, bits of words.
--   State     host/state/state_types.c, state_globals.c and the packets of generated/ssot_render.h:
--             one record per structure, arrays of windows and slots as functions of the index.
--   Ring      host/ipc/ring_stream.c: vx_stream_packet, vx_stream_acquire with what other threads do
--             between its steps (Ring/Acquire), vx_stream_commit, the reset (Ring/Reset) and the print-out
--             (Ring/Dump).
--   Render    render/gpu/vk_render_loop.c: the bookkeeping of the ring (render_take), the frame on the
--             GPU (Render/Frame) and the rebuild command (Render/Rebuild). Render/Fifo puts the Lua
--             thread and the render thread together: a step relation over one window's ring, with the
--             slots committed and taken as its history; Render/Fifo/Contents follows the packets in the
--             slots. Render/Round is a whole round of the thread, and its loop; Render/Handshake has
--             the round for a window and vx_stream_init access by access; Render/Debug is
--             render/debug/vk_debug.c, the messenger of the validation layer.
--   Draw      render/gpu/vk_draw.c and, in Draw/Record, vk_record.c: the Vulkan calls that draw a packet
--             and record its command buffer, and the state they leave.
--   Transfer  render/transfer: the ring of copy jobs, filled by the Lua thread (vk_transfer_api.c)
--             and emptied by the transfer thread (vk_transfer_loop.c); Transfer/Shared puts the two together
--             as a step relation, with what was asked for and served as its history.
--   Boot      host/ipc/mailbox.c, host/boot/lifecycle.c, host/threading/thread_lifecycle.c and
--             vx_stream_init: how the shared state and one window's part of it start and stop; and in
--             Boot/Pools render/tenant/vk_tenant_alloc.c, the command pools and the fence of a window.
--   Spin      host/ipc/sys_sync.c and the bounded waits of vx_stream_init and of the main loop.
--   Tenant    host/tenant: what the Lua thread reads and sets (Tenant/Input), the callbacks of the
--             window system (Tenant/Keys, Tenant/Mouse), and host/runtime/main_loop.c (Tenant/Loop);
--             in Tenant/Desk the command word between the three threads that store it, and in
--             Tenant/Kill the end of a window between the three threads that work with it.
--   Host      host/runtime/main_loop.c as a whole (the loop over the windows, the wait for the Lua thread
--             and the end), and in Host/Lua host/lua/lua_vm.c and host/boot/main_headless.c: the calls
--             that each makes of the Lua machine.
--   Net       network/transport/vx_net.c: the checksum of a simulation state, the sockets, the receive
--             loop with its filter and its learning of addresses, and the STUN request; in Net/Receive/Wire
--             the packed formats of network/protocol/shared_structs.h.
--   Layout    the layout in memory of the structures that the threads, the peers and the Lua side
--             share (generated/ssot_types.h, ssot_render.h, host/state/state_types.c and
--             shared_structs.h): sizes, offsets and alignment by C's rules on a 64-bit machine.
--   Tests     concrete states, and each result at one of them.
--
-- How they interact: vx_stream_init and vx_init_mailbox leave a ring that is fresh (Boot/Fresh), which
-- is where the system of Render/Fifo starts; the round of the render thread (Render/Fifo/Window) takes
-- a packet from that system and hands it to Render/Frame, which draws it with Draw. The command word
-- of a window's mailbox is set by Tenant/Input and served by Tenant/Loop and Render/Rebuild.
--
-- How the code is represented: an operation is a function from the state it reads to the state it
-- leaves and what it returns; an atomic is its value. Pointers and Vulkan handles are numbers, with 0
-- for NULL. Unsigned words keep their wrap-around; a shift or an array index out of range, and a read
-- past the bytes received, are values of their own (none, fault, overrun). What Vulkan, GLFW and the
-- socket calls answer is an argument, and the calls made of them are listed in order. Floating-point
-- numbers are a parameter (State.Floats).
--
-- Fuel and bounds: the two waits poll at most 4,000 and 4,001 times, which is the fuel they are given
-- (2,000 polls before the timeout counts, then 2,000 of it); the search for a STUN attribute has the
-- length of the response as its fuel, since each attribute takes at least four bytes. The wait for
-- the Lua thread at the end of main has no bound; its fuel is an argument, and one poll more than the
-- first that sees the flag is enough. The loops of main and of the render thread run for as many rounds
-- as are listed. All other loops go over the arrays or lists that the code goes over.
--
-- Atomicity: in Render/Fifo each call of vx_stream_acquire and vx_stream_commit, and the
-- bookkeeping of the render thread, is one step. Ring/Acquire takes vx_stream_acquire apart into
-- its loads and its exchanges, for the safety of one call; Render/Fifo/Scan has each of its four
-- rounds as a step of its own, and the load of ready_idx in the render thread too, with the bound
-- on the packets taken during a call under which that makes no difference. A test
-- (Tests/Stream/Scan) runs into the difference when two are taken. Render/Fifo/Windows puts the
-- four windows and their restarts together, and Render/Round the rounds of the render thread,
-- during which the other threads do nothing. Render/Handshake has each access of the render thread
-- to the shared state of a window, and each of vx_stream_init, as a step of its own, in one total
-- order: all accesses are taken to be sequentially consistent, which the release stores and acquire
-- loads of the code do not ensure, and the results on mutual exclusion say so; the frame on the GPU
-- stays one step. Transfer/Handshake does so for the transfer thread, where the copy on the GPU is
-- one step, and Tenant/Kill has both threads and the wait of CMD_KILL_WINDOW. Tenant/Desk does so
-- for the command word and its two arguments, as the Lua thread stores them and the main loop and
-- the render thread serve them; the final stores of a service (the size, the surface, the command)
-- are one step there, and Tenant/Desk/Row shows that without a break the steps are the calls of
-- Tenant/Input and Tenant/Loop.
--
-- Not covered: a NULL window from glfwCreateWindow, which the source dereferences (boot_window goes
-- on with the handle 0, and the result on the commands excludes it); a packet's draw_queue is a
-- pointer in the source and its contents here, so that NULL and a queue that the Lua thread changes
-- while it is drawn are not seen; the spin counts are int there and do not overflow here.
--
-- Not modelled: the Lua engine and game, the Python tools and the shaders; the Lua virtual machine,
-- pthread wrappers and all other printing. Datagrams are received as POSIX has it: one that is longer
-- than the buffer is cut off, where Windows answers with an error that ends the receive.
pub mod Base
pub mod State
pub mod Ring
pub mod Render
pub mod Draw
pub mod Transfer
pub mod Boot
pub mod Spin
pub mod Tenant
pub mod Host
pub mod Net
pub mod Layout
pub mod Tests
