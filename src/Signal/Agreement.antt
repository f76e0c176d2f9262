-- ===== src/Signal/Agreement.antt =====
-- The functions of src/signal.c agree on names and numbers, as they are called from Lua.
use lua_testcase.Common.{◌≡◌, String, List, [], ◌∷◌, some, arith, Option-cases, inl, inr, IsOneOf}
use lua_testcase.Common.Int.{ℤ, to_int}
use lua_testcase.Lua.{Value, integer, string, Conversions}
use lua_testcase.Lua.Run.{Kernel, Trace, returned}
use lua_testcase.Signal.{Platform, signal_names, signals, fold_case, lookup_by_name, lookup_by_num}
use lua_testcase.Signal.Lookup.{lookup_by_name_iff, lookup_by_name-lookup_by_num}
use lua_testcase.Signal.Calls.{
  Call, Reply, kill_lua, raise_lua, sigignore_lua, sigdefault_lua, tosigname_lua, tosignum_lua,
}

module _ (p : Platform) (c : Conversions) (k : Kernel Call Reply) (t : Trace Call Reply) where
  -- For a name of SIGNALS that the system defines as an int, in whatever case it is written, kill,
  -- raise, sigignore and sigdefault do what they do for the number: the same calls of the system, the
  -- same results.
  pub name_or_number :
      (n s : String) (v : ℤ) (rest : List Value)
      → IsOneOf n signal_names
      → p n ≡ some v
      → to_int v ≡ v
      → fold_case s ≡ fold_case n
      → (kill_lua p c (string s ∷ rest) k tt t ≡ kill_lua p c (integer v ∷ rest) k tt t)
        × (raise_lua p c (string s ∷ rest) k tt t ≡ raise_lua p c (integer v ∷ rest) k tt t)
        × (sigignore_lua p c (string s ∷ rest) k tt t ≡ sigignore_lua p c (integer v ∷ rest) k tt t)
        × (sigdefault_lua p c (string s ∷ rest) k tt t
            ≡ sigdefault_lua p c (integer v ∷ rest) k tt t)
  unfolding kill_lua raise_lua sigignore_lua sigdefault_lua
  name_or_number n s v rest i q w f =
      let found : lookup_by_name (signals p) s ≡ some (record { name = n; num = v }) =
        (lookup_by_name_iff p s (record { name = n; num = v })).1 (i, q, f) in
      ground arith

  -- tosignum takes the name that tosigname gives for a number back to that number (an int), and
  -- does not call the system.
  pub tosignum-tosigname :
      (v : ℤ) (s : String)
      → to_int v ≡ v
      → tosigname_lua p c (integer v ∷ []) k tt t ≡ (returned (string s ∷ []), tt, t)
      → tosignum_lua p c (string s ∷ []) k tt t ≡ (returned (integer v ∷ []), tt, t)
  unfolding tosigname_lua tosignum_lua
  tosignum-tosigname v s w h = elim (Option-cases (lookup_by_num (signals p) (to_int v))) [
    | inl q ↦ ground arith
    | inr (e, q) ↦ ground (arith, lookup_by_name-lookup_by_num p (to_int v) e)
  ]
