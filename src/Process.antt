-- ===== src/Process.antt =====
-- src/chdir.c and src/getpid.c. The call of the system is an argument, since programs that make other
-- calls besides run these functions too.
use lua_testcase.Common.{String, ℕ, List, ◌∷◌, [], if◌then◌else◌, true, false}
use lua_testcase.Common.Int.{ℤ, pos, eqb_ℤ}
use lua_testcase.Lua.{Value, boolean, integer, errno_object, Conversions}
use lua_testcase.Lua.Run.{Action, ◌>>=◌, pure}
use lua_testcase.Lua.Args.{check_string}

module _ {C R S : Type 0} where
  -- chdir gives its return value and errno.
  unfoldable pub chdir_lua :
      (String → Action C R S (ℤ × ℕ)) → Conversions → List Value → Action C R S (List Value)
  chdir_lua chdir c args = do
    pathname ← check_string c args 1
    r ← chdir pathname
    pure (
        if eqb_ℤ r.0 (pos 0)
        then boolean true ∷ []
        else boolean false ∷ errno_object r.1 "chdir" [] ∷ [])

  unfoldable pub getpid_lua : Action C R S ℤ → Action C R S (List Value)
  getpid_lua getpid = do pid ← getpid; pure (integer pid ∷ [])
