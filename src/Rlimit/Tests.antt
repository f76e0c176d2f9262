-- ===== src/Rlimit/Tests.antt =====
-- src/rlimit.c against a system that keeps limits, and its theorems at concrete inputs.
use lua_testcase.Lua.Plain.{plain}
use lua_testcase.Common.Int.{ℤ, pos, signed64, eqb_ℤ}
use lua_testcase.Lua.Run.{Trace, Kernel, raised, returned}
use lua_testcase.Rlimit.{
  rlimit_lua, Platform, is_option, check_rtype, Call, Reply, option_of, Limits, check_limit,
  getrlimit, setrlimit, pushed, limits_of, change, setlimit, store, stored, getlimit, got, result,
}
use lua_testcase.Rlimit.RoundTrip.{check_limit-pushed}
use lua_testcase.Lua.{string, integer, nil, arg_error, table, field, end}
use lua_testcase.Common.{
  ◌≡◌, refl, String, ◌^◌, Option, arith, ◌<◌, none, ◌-◌, ◌⊎◌, ◌∷◌, [], some, ◌≤◌, ◌≢◌, inl,
  if◌then◌else◌, str_eq, ◌&&◌,
}

-- The limits that are in force after the calls of a trace.
abbrev limits_in : Trace Call Reply → ℤ → Limits
limits_in [] r = record { cur = 1024; max = 4096 }
limits_in ((getrlimit q, a) ∷ t) r = limits_in t r
limits_in ((setrlimit q cur max, a) ∷ t) r =
    if eqb_ℤ q r && eqb_ℤ a.ret (pos 0) then record { cur = cur; max = max } else limits_in t r

abbrev keeper : Kernel Call Reply
keeper t (getrlimit r) = record { ret = pos 0; errno = 0; limits = limits_in t r }
keeper t (setrlimit r cur max) = record { ret = pos 0; errno = 0; limits = limits_in t r }

abbrev constant_of : String → Option ℤ
constant_of s = if str_eq s "nofile" then some (pos 7) else none

abbrev linux : Platform
linux = record { constant = constant_of; infinity = 2 ^ 64 - 1; enosys = 38 }

-- The maximum is left out.
sets_current :
    (rlimit_lua linux plain (string "nofile" ∷ integer (pos 512) ∷ nil ∷ []) keeper tt []).0
    ≡ returned (
        table (
          field "resource"
            (string "nofile")
            (field "cur" (integer (pos 512)) (field "max" (integer (pos 4096)) end)))
        ∷ [])
unfolding rlimit_lua check_rtype option_of is_option limits_of change setlimit check_limit store
    stored getlimit got result
sets_current = refl

check_limit-pushed_example :
    (((2 ^ 63 < 2 ^ 63) ⊎ (2 ^ 63 ≡ 2 ^ 64 - 1))
      → check_limit linux plain
          (nil ∷ pushed linux plain (2 ^ 63) ∷ [])
          2
          "nofile"
          "cur"
          keeper
          tt
          []
        ≡ (returned (some (2 ^ 63)), tt, []))
    × ((2 ^ 63 ≤ 2 ^ 63) × (2 ^ 63 ≢ 2 ^ 64 - 1)
        → check_limit linux plain
            (nil ∷ pushed linux plain (2 ^ 63) ∷ [])
            2
            "nofile"
            "cur"
            keeper
            tt
            []
          ≡ (
            raised (
                arg_error 2
                  "invalid %s for resource '%s': expected -1 (infinity) or a non-negative integer, got %lld"
                  ("cur" ∷ "nofile" ∷ [])
                  (signed64 (2 ^ 63) ∷ [])),
            tt,
            [],
          ))
check_limit-pushed_example =
    check_limit-pushed linux plain keeper (2 ^ 63) "nofile" "cur" [] (omega arith) (inl refl)
