-- ===== src/Rlimit/Errors.antt =====
-- The calls of src/rlimit.c that are refused, and what they leave alone.
use lua_testcase.Common.Int.{eqb_ℤ, minus_one, pos, negsuc, ℤ}
use lua_testcase.Common.{◌≡◌, String, List, false, ℕ, true, some, ◌∷◌, none, suc, [], arith}
use lua_testcase.Rlimit.{
  rlimit_lua, Platform, Call, Reply, check_rtype, limits_of, change, option_of, setlimit,
  check_limit, store, is_option, getlimit, resource_names, getrlimit,
}
use lua_testcase.Lua.Run.{Kernel, Trace, raised, returned}
use lua_testcase.Lua.{
  Conversions, Value, string, bad_argument, nil, integer, errno_object, arg_error, error,
}
use lua_testcase.Rlimit.RoundTrip.{check_rtype_known}

module _ (p : Platform) (c : Conversions) (k : Kernel Call Reply) (t : Trace Call Reply) where
  -- A name that is not in RESOURCE_NAMES raises an argument error, and one for which the system has no
  -- constant gives nil and an ENOSYS error; neither calls the system.
  pub unsupported :
      (name : String) (rest : List Value)
      → (is_option name resource_names ≡ false
          → rlimit_lua p c (string name ∷ rest) k tt t ≡ (raised (bad_argument 1), tt, t))
        × (is_option name resource_names ≡ true
            → p.constant name ≡ none
            → rlimit_lua p c (string name ∷ rest) k tt t ≡ (
              returned (
                  nil
                  ∷ errno_object p.enosys "getrlimit"
                      ("resource '%s' is not supported on this platform" ∷ name ∷ [])
                  ∷ []),
              tt,
              t,
            ))
  unfolding rlimit_lua check_rtype option_of limits_of
  unsupported name rest = (λ u. ground arith, λ u v. ground arith)

  -- Where getrlimit answers, a limit below -1, as the current or as the maximum one beside a limit that
  -- is left out, raises an argument error that names the resource and the number, and nothing left out
  -- twice raises an error: no setrlimit is called, only the getrlimit before.
  refused_limits :
      (name : String) (resource : ℤ) (n : ℕ) (other : Value)
      → is_option name resource_names ≡ true
      → p.constant name ≡ some resource
      → eqb_ℤ resource minus_one ≡ false
      → eqb_ℤ (k t (getrlimit resource)).ret (pos 0) ≡ true
      → let t' : Trace Call Reply = (getrlimit resource, k t (getrlimit resource)) ∷ t in
        let bad = negsuc (suc n) in
        let message : String =
          "invalid %s for resource '%s': expected -1 (infinity) or a non-negative integer, got %lld" in
        (rlimit_lua p c (string name ∷ integer bad ∷ other ∷ []) k tt t
          ≡ (raised (arg_error 2 message ("cur" ∷ name ∷ []) (bad ∷ [])), tt, t'))
        × (rlimit_lua p c (string name ∷ nil ∷ integer bad ∷ []) k tt t
            ≡ (raised (arg_error 3 message ("max" ∷ name ∷ []) (bad ∷ [])), tt, t'))
        × (rlimit_lua p c (string name ∷ nil ∷ nil ∷ []) k tt t
            ≡ (raised (error "either cur or max must be specified"), tt, t'))
  unfolding rlimit_lua limits_of change setlimit check_limit store getlimit
  refused_limits name resource n other known defined supported answers = ground (
    arith,
    check_rtype_known p c k name resource (integer (negsuc (suc n)) ∷ other ∷ []) t,
    check_rtype_known p c k name resource (nil ∷ integer (negsuc (suc n)) ∷ []) t,
    check_rtype_known p c k name resource (nil ∷ nil ∷ []) t,
  )
