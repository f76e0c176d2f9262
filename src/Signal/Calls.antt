-- ===== src/Signal/Calls.antt =====
-- The functions of src/signal.c that take a signal by its name or its number, and alarm.
use lua_testcase.Common.{
  ℕ, ◌≡◌, Bool, true, false, String, List, [], ◌∷◌, Option, none, some, arith, if◌then◌else◌,
}
use lua_testcase.Common.Int.{ℤ, pos, minus_one, eqb_ℤ, to_int, to_u32}
use lua_testcase.Lua.{
  Value, nil, boolean, integer, quotient, string, strerror, Conversions, arg_error,
}
use lua_testcase.Lua.Run.{Action, Kernel, Trace, Outcome, raised, pure, raise, call, ◌>>=◌}
use lua_testcase.Lua.Args.{arg, to_integer, check_integer, check_string}
use lua_testcase.Signal.{Entry, Platform, signals, lookup_by_name, lookup_by_num}

-- kill, raise, signal with SIG_IGN, signal with SIG_DFL, alarm.
pub data Call : Type 0 where
  kill : ℤ → ℤ → Call
  raise_signal : ℤ → Call
  ignore restore : ℤ → Call
  alarm : ℕ → Call

-- The return value, where -1 stands for SIG_ERR of signal, and errno.
pub record Reply : Type 0 where
  pub ret : ℤ
  pub errno : ℕ

abbrev pub Handler : Type 0 → Type 0
Handler A = Action Call Reply (Unit {0}) A

-- lua_type(L, i) == LUA_TNUMBER
abbrev pub is_number_type : Option Value → Bool
is_number_type (some (integer v)) = true
is_number_type (some (quotient m n)) = true
is_number_type _ = false

abbrev or_zero : Option ℤ → ℤ
or_zero (some v) = v
or_zero none = pos 0

abbrev done_if : Bool → Reply → List Value
done_if true r = boolean true ∷ []
done_if false r = boolean false ∷ strerror r.errno ∷ []

abbrev pub succeeded : Reply → Bool
succeeded r = if eqb_ℤ r.ret minus_one then false else true

module _ (p : Platform) (c : Conversions) where
  num_or_raise : ℕ → Option Entry → Handler ℤ
  num_or_raise i none = raise (arg_error i "invalid signal name" [] [])
  num_or_raise i (some e) = pure e.num

  -- lua_tointeger gives 0 for a number that has no integer.
  unfoldable pub get_signal : List Value → ℕ → Handler ℤ
  unfolding num_or_raise
  get_signal args i =
      if is_number_type (arg args i)
      then pure (to_int (or_zero (to_integer c (arg args i))))
      else (check_string c args i >>= λ name. num_or_raise i (lookup_by_name (signals p) name))

  unfoldable pub kill_lua : List Value → Handler (List Value)
  unfolding get_signal
  kill_lua args = do
    sig ← get_signal args 1
    pid ← check_integer c args 2
    r ← call (kill (to_int pid) sig)
    pure (done_if (succeeded r) r)

  unfoldable pub raise_lua : List Value → Handler (List Value)
  unfolding get_signal
  raise_lua args = do
    sig ← get_signal args 1
    r ← call (raise_signal sig)
    pure (done_if (eqb_ℤ r.ret (pos 0)) r)

  unfoldable pub sigignore_lua : List Value → Handler (List Value)
  unfolding get_signal
  sigignore_lua args = do
    sig ← get_signal args 1
    r ← call (ignore sig)
    pure (done_if (succeeded r) r)

  unfoldable pub sigdefault_lua : List Value → Handler (List Value)
  unfolding get_signal
  sigdefault_lua args = do
    sig ← get_signal args 1
    r ← call (restore sig)
    pure (done_if (succeeded r) r)

  name_or_nil : Option Entry → List Value
  name_or_nil none = nil ∷ []
  name_or_nil (some e) = string e.name ∷ []

  num_or_nil : Option Entry → List Value
  num_or_nil none = nil ∷ []
  num_or_nil (some e) = integer e.num ∷ []

  unfoldable pub tosigname_lua : List Value → Handler (List Value)
  unfolding name_or_nil
  tosigname_lua args = do
    num ← check_integer c args 1
    pure (name_or_nil (lookup_by_num (signals p) (to_int num)))

  unfoldable pub tosignum_lua : List Value → Handler (List Value)
  unfolding num_or_nil
  tosignum_lua args = do
    name ← check_string c args 1
    pure (num_or_nil (lookup_by_name (signals p) name))

  unfoldable pub alarm_lua : List Value → Handler (List Value)
  alarm_lua args = do
    sec ← check_integer c args 1
    r ← call (alarm (to_u32 sec))
    pure (integer r.ret ∷ [])

  -- A text that is no name of SIGNALS raises an argument error in kill, raise, sigignore and
  -- sigdefault, and the system is not called.
  pub unknown_name :
      (k : Kernel Call Reply) (t : Trace Call Reply) (s : String) (rest : List Value)
      → lookup_by_name (signals p) s ≡ none
      → let args = string s ∷ rest in
        let refused : Outcome (List Value) × Unit {0} × Trace Call Reply =
          (raised (arg_error 1 "invalid signal name" [] []), tt, t) in
        (kill_lua args k tt t ≡ refused)
        × (raise_lua args k tt t ≡ refused)
        × (sigignore_lua args k tt t ≡ refused)
        × (sigdefault_lua args k tt t ≡ refused)
  unfolding kill_lua raise_lua sigignore_lua sigdefault_lua
  unknown_name k t s rest h = ground arith
