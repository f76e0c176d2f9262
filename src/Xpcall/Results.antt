-- ===== src/Xpcall/Results.antt =====
-- What src/xpcall.c returns.
use lua_testcase.Lua.{Value, boolean, function}
use lua_testcase.Common.{Option, List, ℕ, true, ◌∷◌, [], some, ◌≡◌, false, none, arith}
use lua_testcase.Lua.Run.{Kernel, returned}
use lua_testcase.Xpcall.{xpcall_lua, insert, pcall, finish, results, Call, Reply, run}

-- The values that stand for how a run of the function ended.
abbrev pub ended : Option Value → List Value
ended none = boolean true ∷ []
ended (some e) = boolean false ∷ e ∷ []

-- With two functions first, whatever else it is given, xpcall runs the first once, under the second as
-- the message handler, and returns exactly true where it returns, and false and the handler's value where
-- it fails: the handler, which stays on the stack below, is not among the results.
xpcall_lua-ended :
    (k : Kernel Call Reply) (i j : ℕ) (more : List Value)
    → let f = function i in
      let h = function j in
      let c = run (some f) (some h) in
      let r = k [] c in
      xpcall_lua (f ∷ h ∷ more) k tt [] ≡ (returned (ended r.failure), tt, (c, r) ∷ [])
unfolding xpcall_lua insert pcall finish results
xpcall_lua-ended k i j more =
    let r = k [] (run (some (function i)) (some (function j))) in ground arith
