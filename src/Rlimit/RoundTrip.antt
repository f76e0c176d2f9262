-- ===== src/Rlimit/RoundTrip.antt =====
-- Limits of src/rlimit.c as they go to the system and come back to Lua.
use lua_testcase.Common.{
  ◌⊎◌, ◌<◌, ℕ, ◌-◌, ◌^◌, ◌≤◌, ◌<◌, ◌≡◌, ◌≢◌, ◌⊎◌, true, String, [], ◌∷◌, some, arith, Option, none,
  List,
}
use lua_testcase.Common.Int.{ℤ, pos, eqb_ℤ, signed64, u64_mod, negsuc}
use lua_testcase.Lua.{nil, Conversions, arg_error, Value, string, integer}
use lua_testcase.Lua.Run.{Kernel, Trace, returned, raised}
use lua_testcase.Rlimit.{
  Platform, Call, getrlimit, setrlimit, Reply, check_limit, pushed, check_rtype, is_option,
  resource_names, option_of,
}

module _ (p : Platform) (c : Conversions) (k : Kernel Call Reply) where
  -- A limit that rlimit_lua has reported can be given back to it: below 2 ^ 63, and infinity, it is
  -- taken for the limit that it was. (A system whose infinity is not 2 ^ 64 - 1 is taken to have no
  -- limit of 2 ^ 64 - 1.) Any other limit has been reported as a number below -1, which is refused.
  pub check_limit-pushed :
      (v : ℕ) (resname field : String) (t : Trace Call Reply)
      → v < u64_mod
      → p.infinity ≡ u64_mod - 1 ⊎ (v ≢ u64_mod - 1)
      → (((v < 2 ^ 63) ⊎ (v ≡ p.infinity))
          → check_limit p c (nil ∷ pushed p c v ∷ []) 2 resname field k tt t
            ≡ (returned (some v), tt, t))
        × ((2 ^ 63 ≤ v) × (v ≢ p.infinity)
            → check_limit p c (nil ∷ pushed p c v ∷ []) 2 resname field k tt t ≡ (
              raised (
                  arg_error 2
                    "invalid %s for resource '%s': expected -1 (infinity) or a non-negative integer, got %lld"
                    (field ∷ resname ∷ [])
                    (signed64 v ∷ [])),
              tt,
              t,
            ))
  unfolding check_limit
  check_limit-pushed v resname field t h q = (λ r. ground arith, λ r. ground arith)

  -- What the system does with limits: getrlimit succeeds, it gives what it gave when nothing was
  -- called since, and after a setrlimit that succeeded it gives what was set.
  pub record KeepsLimits : Type 0 where
    pub reads : (t : Trace Call Reply) (r : ℤ) → eqb_ℤ (k t (getrlimit r)).ret (pos 0) ≡ true
    pub stable :
        (t : Trace Call Reply) (r : ℤ)
        → (k ((getrlimit r, k t (getrlimit r)) ∷ t) (getrlimit r)).limits
          ≡ (k t (getrlimit r)).limits
    pub keeps :
        (t : Trace Call Reply) (r : ℤ) (cur max : ℕ) (answer : Reply)
        → eqb_ℤ answer.ret (pos 0) ≡ true
        → (k ((setrlimit r cur max, answer) ∷ t) (getrlimit r)).limits
          ≡ record { cur = cur; max = max }

-- What a caller asks for a limit: no change, or a limit.
pub data Request : Type 0 where
  omitted : Request
  given : ℤ → Request

abbrev pub value_of : Request → Value
value_of omitted = nil
value_of (given x) = integer x

-- -1, or a limit that is not the system's number for infinity.
abbrev pub IsRequest : ℕ → Request → Type 0
IsRequest infinity omitted = Unit
IsRequest infinity (given (pos n)) = (n < 2 ^ 63) × (n ≢ infinity)
IsRequest infinity (given (negsuc n)) = n ≡ 0

abbrev asked : ℕ → Request → Option ℕ
asked infinity omitted = none
asked infinity (given (pos n)) = some n
asked infinity (given (negsuc n)) = some infinity

module _ (p : Platform) (c : Conversions) (k : Kernel Call Reply) where
  -- What is reported for a limit that was `old`, after the request.
  abbrev pub reported : Request → ℕ → Value
  reported omitted old = pushed p c old
  reported (given x) old = integer x

  abbrev IsGiven : Request → Type 0
  IsGiven omitted = ⊥
  IsGiven (given x) = Unit

  pub check_rtype_known :
      (name : String) (resource : ℤ) (rest : List Value) (t : Trace Call Reply)
      → is_option name resource_names ≡ true
      → p.constant name ≡ some resource
      → check_rtype p c (string name ∷ rest) k tt t ≡ (returned (name, resource), tt, t)
  unfolding check_rtype option_of
  check_rtype_known name resource rest t known defined = ground arith
