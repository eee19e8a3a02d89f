-- ===== src/Tests/Tenants.antt =====
-- The callbacks and the main loop at work: keys held, a window booted.
use chess_rts.Base.{◌≡◌, false, ◌==◌, if◌then◌else◌, some, List, [], ◌∷◌, arith}
use chess_rts.Base.Int.{pos}
use chess_rts.Base.Bits.{bit_at}
use chess_rts.Tenant.Keys.{key_w, key_s, press, release, Callbacks, Host, Glfw}
use chess_rts.Tenant.Keys.Held.{Event, run, held, run-held}
use chess_rts.Tenant.Loop.{Answers, Main}
use chess_rts.Tests.{whole, some_globals}

abbrev some_callbacks : Callbacks whole
some_callbacks = record {
  is_fullscreen = λ _. false;
  win_x = λ _. pos 0;
  win_y = λ _. pos 0;
  win_w = λ _. pos 1280;
  win_h = λ _. pos 720;
  last_mx = λ _. pos 3;
  last_my = λ _. pos 0;
  first_mouse = λ _. false;
}

abbrev a_host : Host whole
a_host = record { mailbox = some_globals.mailbox; callbacks = some_callbacks }

abbrev a_glfw : Glfw
a_glfw = record {
  code = λ _. pos 1;
  window_pos = (pos 0, pos 0);
  window_size = (pos 1280, pos 720);
  mode_width = pos 1920;
  mode_height = pos 1080;
  refresh_rate = pos 60;
}

-- W and S are pressed and W is released, in window 1; W is pressed in window 2.
abbrev some_events : List Event
some_events =
    (pos 1, key_w, press)
    ∷ (pos 1, key_s, press)
    ∷ (pos 2, key_w, press)
    ∷ (pos 1, key_w, release)
    ∷ []

run-held_example :
    bit_at 1 ((run a_glfw some_events a_host).mailbox.tenants 1).wasd_mask
    ≡ held 1 1 some_events (bit_at 1 0)
run-held_example = run-held a_glfw some_events a_host 1 1 (omega arith)

abbrev pub some_answers : Answers
some_answers = record {
  create_window = λ _ _. 50;
  framebuffer_size = λ _. (pos 800, pos 600);
  create_surface = λ _ _. some 60;
  should_close = λ _. false;
  busy = λ _. false;
  escape = pos 256;
}

-- A host with window 1 open.
abbrev pub a_main : Main whole
a_main = record { globals = some_globals; windows = λ id. if id == 1 then 50 else 0 }
