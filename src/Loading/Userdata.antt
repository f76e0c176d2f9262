-- ===== src/Loading/Userdata.antt =====
-- The luaopen_* functions of the modules that make a metatable for their userdata. The metatables are
-- those of testcase.timer, testcase.process and testcase.socketpair; Lua 5.3 and later store the name.
pub mod Dispatch
pub mod Methods
use lua_testcase.Common.{Bool, ◌∷◌, [], if◌then◌else◌}
use lua_testcase.Loading.{
  Functions, M, ◌>>◌, ◌>>=◌, push, new_metatable, new_table, text, set_field, pop, cfunction,
  raw_set, done, clear,
}
use lua_testcase.Loading.Loops.{fill, fill_do, fill_fields}

abbrev pub timer_mmethod : Functions
timer_mmethod = ("__tostring", "tostring_lua") ∷ []

abbrev pub timer_method : Functions
timer_method =
    ("reset", "reset_lua")
    ∷ ("total", "total_lua")
    ∷ ("start", "start_lua")
    ∷ ("stop", "stop_lua")
    ∷ ("elapsed", "elapsed_lua")
    ∷ ("elapsed_sec", "elapsed_sec_lua")
    ∷ []

abbrev pub fork_mmethod : Functions
fork_mmethod = ("__gc", "gc_lua") ∷ ("__tostring", "tostring_lua") ∷ []

abbrev pub fork_method : Functions
fork_method = ("pid", "pid_lua") ∷ ("is_child", "is_child_lua") ∷ ("wait", "wait_lua") ∷ []

abbrev pub socketpair_mmethod : Functions
socketpair_mmethod = ("__gc", "gc_lua") ∷ ("__tostring", "tostring_lua") ∷ []

abbrev pub socketpair_method : Functions
socketpair_method =
    ("fd", "fd_lua")
    ∷ ("nonblock", "nonblock_lua")
    ∷ ("recvbuf", "recvbuf_lua")
    ∷ ("sendbuf", "sendbuf_lua")
    ∷ ("close", "close_lua")
    ∷ ("shutdown", "shutdown_lua")
    ∷ ("shutrd", "shutrd_lua")
    ∷ ("shutwr", "shutwr_lua")
    ∷ ("read", "read_lua")
    ∷ ("write", "write_lua")
    ∷ []

-- Metamethods and methods with lua_rawset, as src/timer.c and src/fork.c do by loops of their own.
unfoldable pub set_methods : (Functions → M (Unit {0})) → Functions → Functions → M (Unit {0})
set_methods loop mmethod method = do
  loop mmethod
  push (text "__index")
  new_table
  loop method
  raw_set

-- The same with lua_setfield, as src/socketpair.c does.
pub set_method_fields : Functions → Functions → M (Unit {0})
set_method_fields mmethod method = do
  fill_fields mmethod
  new_table
  fill_fields method
  set_field "__index"

-- The table that the module timer is.
unfoldable pub timer_module : M (Unit {0})
timer_module = do
  new_table
  push (text "new")
  push (cfunction "new_lua")
  raw_set
  push (text "usleep")
  push (cfunction "usleep_lua")
  raw_set
  push (text "sleep")
  push (cfunction "sleep_lua")
  raw_set
  push (text "nanotime")
  push (cfunction "nanotime_lua")
  raw_set

module _ (sets_name : Bool) where
  unfoldable pub luaopen_timer : M (Unit {0})
  luaopen_timer = do
    fresh ← new_metatable sets_name "testcase.timer"
    if fresh then set_methods fill_do timer_mmethod timer_method else done
    clear
    timer_module

  unfoldable pub luaopen_fork : M (Unit {0})
  luaopen_fork = do
    fresh ← new_metatable sets_name "testcase.process"
    set_methods fill fork_mmethod fork_method
    pop
    push (cfunction "fork_lua")

  pub luaopen_socketpair : M (Unit {0})
  luaopen_socketpair = do
    fresh ← new_metatable sets_name "testcase.socketpair"
    if fresh then set_method_fields socketpair_mmethod socketpair_method else done
    clear
    push (cfunction "new_lua")
