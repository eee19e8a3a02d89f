-- ===== src/Host/Lua.antt =====
-- host/lua/lua_vm.c, the thread that runs the game's script, and host/boot/main_headless.c, the
-- program without windows. The Lua machine is not modelled: the state that `luaL_newstate` returns
-- (0 is NULL), whether the script ends without an error and what it leaves of the globals are
-- arguments. A string of `argv` is the number of its pointer.
pub mod Arg
use chess_rts.Base.{
  ℕ, zero, suc, ◌+◌, Bool, true, false, Option, none, some, List, [], ◌∷◌, ◌++◌, if◌then◌else◌,
  ◌==◌,
}
use chess_rts.Base.Int.{ℤ, pos}
use chess_rts.State.{Floats, Globals}
use chess_rts.Boot.{vx_core_shutdown}

pub data LuaCall : Type 0 where
  open_libs : (state : ℕ) → LuaCall
  new_table : LuaCall
  push_string : (string : ℕ) → LuaCall
  raw_set_i : (i : ℕ) → LuaCall
  set_global_arg : LuaCall
  do_file : LuaCall
  close : (state : ℕ) → LuaCall

-- `for (int i = 0; i < argc; i++)`, from argument `i` on.
pub push_args : ℕ → List ℕ → List LuaCall
push_args i [] = []
push_args i (a ∷ argv) = push_string a ∷ raw_set_i i ∷ push_args (i + 1) argv

-- The calls up to the script.
abbrev pub prepare : ℕ → List ℕ → List LuaCall
prepare state argv =
    open_libs state ∷ new_table ∷ (push_args 0 argv ++ (set_global_arg ∷ do_file ∷ []))

-- `new_state` is what `luaL_newstate` returns, `script` what the script leaves, `status_ok` whether
-- it ends without an error.
pub record LuaAnswers (fl : Floats) : Type 1 where
  pub new_state : ℕ
  pub status_ok : Bool
  pub script : Globals fl → Globals fl

-- The thread. `none` is undefined behaviour: the state is used without a test for NULL.
pub lua_co_overlord_loop :
    {fl : Floats} → LuaAnswers fl → List ℕ → Globals fl → Option (Globals fl × List LuaCall)
lua_co_overlord_loop a argv g =
    if a.new_state == 0
    then none
    else some (
      if a.status_ok then a.script g else vx_core_shutdown (a.script g),
      prepare a.new_state argv ++ close a.new_state ∷ [],
    )

-- `main` of the headless program: what it returns, and its calls.
pub headless_main : (new_state : ℕ) → (status_ok : Bool) → List ℕ → ℤ × List LuaCall
headless_main new_state status_ok argv =
    if new_state == 0
    then (pos 1, [])
    else (if status_ok then pos 0 else pos 1, prepare new_state argv ++ close new_state ∷ [])
