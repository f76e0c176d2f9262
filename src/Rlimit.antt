-- ===== src/Rlimit.antt =====
-- src/rlimit.c: resource limits. The system's RLIMIT_* constants, RLIM_INFINITY and ENOSYS are
-- parameters; rlim_t is an unsigned type of 64 bits, and getrlimit and setrlimit are calls of the
-- system.
pub mod Errors
pub mod RoundTrip
mod Tests
use lua_testcase.Common.{
  ℕ, suc, ◌+◌, Bool, true, false, not, ◌||◌, String, List, [], ◌∷◌, Option, none, some, str_eq, ltb,
  ◌==◌, length, if◌then◌else◌,
}
use lua_testcase.Common.Int.{ℤ, pos, minus_one, eqb_ℤ, ltb_ℤ, pos_part, signed64}
use lua_testcase.Lua.{
  Value, nil, integer, string, errno_object, table, end, set_field, Conversions, bad_argument,
  arg_error, error,
}
use lua_testcase.Lua.Run.{Action, pure, raise, call, ◌>>=◌}
use lua_testcase.Lua.Args.{arg, is_none_or_nil, to_string, check_integer}

-- RESOURCE_NAMES
abbrev pub resource_names : List String
resource_names =
    "as" ∷ "core" ∷ "cpu" ∷ "data" ∷ "fsize" ∷ "locks" ∷ "memlock" ∷ "msgqueue" ∷ "nice" ∷ "nofile"
    ∷ "nproc" ∷ "rss" ∷ "rtprio" ∷ "rttime" ∷ "sigpending" ∷ "stack" ∷ []

-- What the system defines: RLIMIT_* for the resource of a name (none where the macro is not
-- defined), RLIM_INFINITY and ENOSYS.
pub record Platform : Type 0 where
  pub constant : String → Option ℤ
  pub infinity : ℕ
  pub enosys : ℕ

pub data Call : Type 0 where
  getrlimit : ℤ → Call
  setrlimit : ℤ → ℕ → ℕ → Call

-- struct rlimit
pub record Limits : Type 0 where
  pub cur : ℕ
  pub max : ℕ

-- The return value, errno, and the limits that getrlimit fills in.
pub record Reply : Type 0 where
  pub ret : ℤ
  pub errno : ℕ
  pub limits : Limits

abbrev pub Handler : Type 0 → Type 0
Handler A = Action Call Reply (Unit {0}) A

-- A step that gives up with results of the whole function, or goes on.
pub data Step (A : Type 0) : Type 0 where
  give_up : List Value → Step A
  go_on : A → Step A

-- luaL_checkoption: a text that is in the list.
pub is_option : String → List String → Bool
is_option s [] = false
is_option s (x ∷ xs) = str_eq x s || is_option s xs

pub option_of : Option String → List String → Option String
option_of none l = none
option_of (some s) l = if is_option s l then some s else none

-- What check_limit leaves in the limit, and what it returns.
abbrev pub or_old : Option ℕ → ℕ → ℕ
or_old none old = old
or_old (some new) old = new

abbrev specified : Option ℕ → ℕ
specified none = 0
specified (some v) = 1

module _ (p : Platform) (c : Conversions) where
  -- check_rtype gives the name and the constant; -1 where the system has none.
  pub check_rtype : List Value → Handler (String × ℤ)
  check_rtype args = elim (option_of (to_string c (arg args 1)) resource_names) [
    | none ↦ raise (bad_argument 1)
    | some s ↦ elim (p.constant s) [ none ↦ pure (s, minus_one) | some v ↦ pure (s, v) ]
  ]

  got : String → Reply → Handler (Step Limits)
  got resname r =
      if eqb_ℤ r.ret (pos 0)
      then pure (go_on r.limits)
      else pure (
          give_up (
            nil
            ∷ errno_object r.errno "getrlimit"
                ("failed to getrlimit for resource '%s'" ∷ resname ∷ [])
            ∷ []))

  pub getlimit : ℤ → String → Handler (Step Limits)
  unfolding got
  getlimit resource resname = call (getrlimit resource) >>= got resname

  -- check_limit gives the new limit, if one is specified.
  pub check_limit : List Value → ℕ → String → String → Handler (Option ℕ)
  check_limit args i resname field =
      if is_none_or_nil (arg args i)
      then pure none
      else (check_integer c args i >>= λ v.
          if ltb_ℤ v minus_one
          then raise (
              arg_error i
                "invalid %s for resource '%s': expected -1 (infinity) or a non-negative integer, got %lld"
                (field ∷ resname ∷ []) (v ∷ []))
          else if eqb_ℤ v minus_one
          then pure (some p.infinity)
          else pure (some (pos_part v)))

  -- The call of setrlimit, and the limits that are in force after it.
  stored : ℤ → String → Reply → Handler (Step Limits)
  stored resource resname r =
      if eqb_ℤ r.ret (pos 0)
      then getlimit resource resname
      else pure (
          give_up (
            nil
            ∷ errno_object r.errno "setrlimit"
                ("failed to setrlimit for resource '%s'" ∷ resname ∷ [])
            ∷ []))

  store : ℤ → String → Limits → Option ℕ → Option ℕ → Handler (Step Limits)
  store resource resname rl cur max =
      if specified cur + specified max == 0
      then raise (error "either cur or max must be specified")
      else if not (or_old cur rl.cur == rl.cur) || not (or_old max rl.max == rl.max)
      then (call (setrlimit resource (or_old cur rl.cur) (or_old max rl.max))
          >>= stored resource resname)
      else getlimit resource resname

  -- C leaves the order of the two calls of check_limit open; it is from left to right here.
  pub setlimit : List Value → ℤ → String → Limits → Handler (Step Limits)
  setlimit args resource resname rl = do
    cur ← check_limit args 2 resname "cur"
    max ← check_limit args 3 resname "max"
    store resource resname rl cur max

  -- A limit as Lua gets it: -1 where there is none.
  abbrev pub pushed : ℕ → Value
  pushed v = if v == p.infinity then integer minus_one else integer (signed64 v)

  result : String → Step Limits → Handler (List Value)
  result resname (give_up vs) = pure vs
  result resname (go_on rl) = pure (
      table (
        set_field "max" (pushed rl.max)
          (set_field "cur" (pushed rl.cur) (set_field "resource" (string resname) end)))
      ∷ [])

  -- lua_gettop(L) > 1
  change : List Value → ℤ → String → Step Limits → Handler (Step Limits)
  change args resource resname (give_up vs) = pure (give_up vs)
  change args resource resname (go_on rl) =
      if ltb 1 (length args) then setlimit args resource resname rl else pure (go_on rl)

  limits_of : List Value → String × ℤ → Handler (List Value)
  limits_of args (resname, resource) =
      if eqb_ℤ resource minus_one
      then pure (
          nil
          ∷ errno_object p.enosys "getrlimit"
              ("resource '%s' is not supported on this platform" ∷ resname ∷ [])
          ∷ [])
      else (getlimit resource resname >>= λ first.
          (change args resource resname first >>= result resname))

  pub rlimit_lua : List Value → Handler (List Value)
  rlimit_lua args = check_rtype args >>= limits_of args
