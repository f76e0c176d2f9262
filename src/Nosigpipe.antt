-- ===== src/Nosigpipe.antt =====
-- src/nosigpipe.c: the module that ignores SIGPIPE as it is loaded, with the calls of src/signal.c.
use lua_testcase.Common.{List, [], ◌∷◌, true, false, none, some}
use lua_testcase.Lua.{Value, boolean}
use lua_testcase.Lua.Run.{pure, call, ◌>>=◌}
use lua_testcase.Signal.{Platform}
use lua_testcase.Signal.Calls.{Handler, ignore}

-- luaopen_testcase_nosigpipe, which does not look at the result of signal.
unfoldable pub luaopen_nosigpipe : Platform → Handler (List Value)
luaopen_nosigpipe p = elim (p "SIGPIPE") [
  | none ↦ pure (boolean false ∷ [])
  | some sig ↦ (call (ignore sig) >>= λ r. pure (boolean true ∷ []))
]
