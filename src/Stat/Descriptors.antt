-- ===== src/Stat/Descriptors.antt =====
-- The calls that src/fstat.c makes.
use lua_testcase.Lua.{Conversions, Value}
use lua_testcase.Stat.{
  Modes, Call, Reply, fstat_lua, fstat, open_read, failed, close, follow_of, fstat_opened,
}
use lua_testcase.Lua.Run.{Trace, Kernel}
use lua_testcase.Common.Int.{ℤ, eqb_ℤ_refl, remove, is_in}
use lua_testcase.Common.{◌≡◌, List, Bool, ◌∷◌, if◌then◌else◌, true, String, [], arith}

-- The descriptors that are open after the calls of a trace, for a function that had none.
abbrev pub opened : Trace Call Reply → List ℤ
opened [] = []
opened ((open_read n p, r) ∷ t) = if failed r then opened t else r.ret ∷ opened t
opened ((close s, r) ∷ t) = remove s (opened t)
opened (e ∷ t) = opened t

-- fstat and close are called only with descriptors that are open.
abbrev pub UsesOpen : Trace Call Reply → Type 0
UsesOpen [] = Unit
UsesOpen ((fstat s, r) ∷ t) = (is_in s (opened t) ≡ true) × UsesOpen t
UsesOpen ((close s, r) ∷ t) = (is_in s (opened t) ≡ true) × UsesOpen t
UsesOpen (e ∷ t) = UsesOpen t

module _ (m : Modes) (c : Conversions) (k : Kernel Call Reply) where
  opened_closes :
      (n : Bool) (path : String)
      → let o = k [] (open_read n path) in
        let t : Trace Call Reply = (open_read n path, o) ∷ [] in
        let (_, _, t') = fstat_opened m c o k tt t in (opened t' ≡ []) × UsesOpen t'
  unfolding fstat_opened
  opened_closes n path = ground (arith, eqb_ℤ_refl (k [] (open_read n path)).ret)

  -- Whatever the arguments and however the system answers, fstat leaves no descriptor open, and names
  -- only one that it has opened and not yet closed.
  pub fstat_lua_closes :
      (args : List Value)
      → let (_, _, t) = fstat_lua m c args k tt [] in (opened t ≡ []) × UsesOpen t
  unfolding fstat_lua follow_of
  fstat_lua_closes args = grind (arith, opened_closes)
