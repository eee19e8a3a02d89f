-- ===== src/Host/Lua/Arg.antt =====
-- What the script finds in the table `arg`, and what becomes of the Lua state.
use chess_rts.Base.{
  ℕ, zero, suc, ◌+◌, ◌≡◌, refl, ap, ◌<◌, ◌≤◌, ◌∙◌, Bool, true, false, Option, none, some, List, [],
  ◌∷◌, ◌++◌, arith, if◌then◌else◌, get_elem?, update, update_self, update_ne, ◌≢◌, ◌↔◌, ne→==_false,
}
use mathlib.Core.List.{append_assoc}
use chess_rts.Base.Int.{pos}
use chess_rts.State.{Floats, Globals}
use chess_rts.Boot.{vx_core_shutdown}
use chess_rts.Host.Lua.{
  LuaCall, open_libs, new_table, push_string, raw_set_i, set_global_arg, do_file, close, push_args,
  prepare, headless_main, LuaAnswers, lua_co_overlord_loop,
}

-- The Lua machine as the program uses it: the string on top of the stack, the table below it, what
-- the script has found in `arg`, and the states that were closed, the last one first.
pub record Machine : Type 0 where
  pub top : ℕ
  pub table : ℕ → Option ℕ
  pub found : Option (ℕ → Option ℕ)
  pub closed : List ℕ

-- `lua_setglobal` and `luaL_dofile` are taken together where the script starts.
pub obeys : LuaCall → Machine → Machine
obeys (open_libs state) m = m
obeys new_table m = record m { table = λ _. none }
obeys (push_string s) m = record m { top = s }
obeys (raw_set_i i) m = record m { table = update m.table i (some m.top) }
obeys set_global_arg m = m
obeys do_file m = record m { found = some m.table }
obeys (close state) m = record m { closed = state ∷ m.closed }

pub run : List LuaCall → Machine → Machine
run [] m = m
run (c ∷ calls) m = run calls (obeys c m)

abbrev pub off : Machine
off = record { top = 0; table = λ _. none; found = none; closed = [] }

run-append : (xs ys : List LuaCall) (m : Machine) → run (xs ++ ys) m ≡ run ys (run xs m)
unfolding run
run-append [] ys m = refl
run-append (x ∷ xs) ys m = run-append xs ys (obeys x m)

abbrev stored : ℕ → ℕ → Machine → Machine
stored a k m = record m { top = a; table = update m.table k (some a) }

-- Storing the arguments from `k` on leaves what is below `k`.
args_below :
    (argv : List ℕ) (k : ℕ) (m : Machine) (j : ℕ)
    → j < k
    → (run (push_args k argv) m).table j ≡ m.table j
unfolding run obeys push_args
args_below [] k m j lt = refl
args_below (a ∷ argv) k m j lt =
    args_below argv (k + 1) (stored a k m) j (omega arith)
    ∙ update_ne m.table k j (some a) (λ e. absurd (omega (arith, e)))

args_table :
    (argv : List ℕ) (k : ℕ) (m : Machine) (i : ℕ)
    → ((j : ℕ) → k ≤ j → m.table j ≡ none)
    → (run (push_args k argv) m).table (k + i) ≡ get_elem? argv i
unfolding run obeys push_args
args_table [] k m i empty = empty (k + i) (omega arith)
args_table (a ∷ argv) k m zero empty =
    ap (run (push_args (k + 1) argv) (stored a k m)).table {x = k + 0} {y = k} (omega arith)
    ∙ args_below argv (k + 1) (stored a k m) k (omega arith)
    ∙ update_self m.table k (some a)
args_table (a ∷ argv) k m (suc i) empty =
    ap (run (push_args (k + 1) argv) (stored a k m)).table {x = k + suc i} {y = k + 1 + i}
      (omega arith)
    ∙ args_table argv (k + 1) (stored a k m) i (λ j le.
      update_ne m.table k j (some a) (λ e. absurd (omega (arith, e))) ∙ empty j (omega arith))

args_keep : (argv : List ℕ) (k : ℕ) (m : Machine) → (run (push_args k argv) m).closed ≡ m.closed
unfolding run obeys push_args
args_keep [] k m = refl
args_keep (a ∷ argv) k m = args_keep argv (k + 1) (stored a k m)

whole_run :
    (state : ℕ) (argv : List ℕ)
    → run (prepare state argv ++ close state ∷ []) off ≡ record (run (push_args 0 argv) off) {
      found = some (run (push_args 0 argv) off).table;
      closed = state ∷ (run (push_args 0 argv) off).closed;
    }
unfolding run obeys
whole_run state argv =
    ap (λ l. run l off)
      (append_assoc (push_args 0 argv) (set_global_arg ∷ do_file ∷ []) (close state ∷ []))
    ∙ run-append (push_args 0 argv) _ off

-- The script has found the arguments in its table, each at its index and nothing else, and the
-- state is closed once.
abbrev pub Passed : ℕ → List ℕ → List LuaCall → Type 0
Passed state argv calls =
    ((table : ℕ → Option ℕ) × ((run calls off).found ≡ some table)
      × ((i : ℕ) → table i ≡ get_elem? argv i))
    × ((run calls off).closed ≡ state ∷ [])

calls-Passed :
    (state : ℕ) (argv : List ℕ) → Passed state argv (prepare state argv ++ close state ∷ [])
calls-Passed state argv =
    let after = whole_run state argv in
    let stored_args = run (push_args 0 argv) off in
    (
      (
        stored_args.table,
        ap (λ (m : Machine). m.found) after,
        λ i.
            ap stored_args.table {x = i} {y = 0 + i} (omega arith)
            ∙ args_table argv 0 off i (λ j le. refl),
      ),
      ap (λ (m : Machine). m.closed) after ∙ ap (λ l. state ∷ l) (args_keep argv 0 off),
    )

abbrev after_script : {fl : Floats} → LuaAnswers fl → Globals fl → Globals fl
after_script a g = if a.status_ok then a.script g else vx_core_shutdown (a.script g)

status_code : (ok : Bool) → ((if ok then pos 0 else pos 1) ≡ pos 0) ↔ (ok ≡ true)
status_code true = (λ e. refl, λ e. refl)
status_code false = (λ e. ground arith, λ e. ground arith)

kept :
    {fl : Floats} (ok : Bool) (g : Globals fl)
    → let g' = (if ok then g else vx_core_shutdown g) in
      (g'.mailbox.lua_finished ≡ g.mailbox.lua_finished)
      × (g'.mailbox.is_running ≡ (if ok then g.mailbox.is_running else pos 0))
unfolding vx_core_shutdown
kept true g = (refl, refl)
kept false g = (refl, refl)

-- With a Lua state, the script of either program finds its command line in `arg`, argument `i` at
-- index `i` and nothing else, and the state is closed once. The headless program returns 0 exactly
-- if the script ended without an error. In the game, a script that ends with an error has the
-- running flag cleared; `lua_finished` is what the script left, in either case.
pub script_lem :
    {fl : Floats} (a : LuaAnswers fl) (argv : List ℕ) (g : Globals fl)
    → a.new_state ≢ 0
    → Passed a.new_state argv (headless_main a.new_state a.status_ok argv).1
      × (((headless_main a.new_state a.status_ok argv).0 ≡ pos 0) ↔ (a.status_ok ≡ true))
      × ((g' : Globals fl) × (calls : List LuaCall) × (lua_co_overlord_loop a argv g
            ≡ some (g', calls))
          × Passed a.new_state argv calls
          × (g'.mailbox.lua_finished ≡ (a.script g).mailbox.lua_finished)
          × (g'.mailbox.is_running
              ≡ (if a.status_ok then (a.script g).mailbox.is_running else pos 0)))
unfolding lua_co_overlord_loop headless_main
script_lem a argv g ne = rw (ne→==_false a.new_state 0 ne) (
  calls-Passed a.new_state argv,
  status_code a.status_ok,
  (
    after_script a g,
    _,
    refl,
    calls-Passed a.new_state argv,
    (kept a.status_ok (a.script g)).0,
    (kept a.status_ok (a.script g)).1,
  ),
)
