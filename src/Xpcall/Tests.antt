-- ===== src/Xpcall/Tests.antt =====
-- src/xpcall.c on functions that return and that fail, and its theorem at a concrete input.
use lua_testcase.Lua.{Value, function, nil, boolean, bad_argument, string}
use lua_testcase.Common.{List, some, [], ◌∷◌, ◌≡◌, refl, false, none, zero}
use lua_testcase.Lua.Run.{Kernel, returned, raised}
use lua_testcase.Xpcall.{xpcall_lua, run, insert, Call, Reply, pcall, finish, results}

-- Only the function 0 returns; the handler turns each error into the same text.
abbrev runs : Kernel Call Reply
runs t (run (some (function zero)) h) = record { failure = none }
runs t c = record { failure = some (string "traceback") }

abbrev three : List Value
three = function 2 ∷ function 5 ∷ nil ∷ []

fails : (xpcall_lua three runs tt []).0 ≡ returned (boolean false ∷ string "traceback" ∷ [])
unfolding xpcall_lua insert pcall finish results
fails = refl

no_handler : xpcall_lua (function 1 ∷ nil ∷ []) runs tt [] ≡ (raised (bad_argument 2), tt, [])
unfolding xpcall_lua
no_handler = refl
