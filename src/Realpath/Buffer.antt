-- ===== src/Realpath/Buffer.antt =====
-- The buffer of src/realpath.c over the life of the process.
use lua_testcase.Common.Int.{pos, minus_one}
use lua_testcase.Common.{ℕ, List, String, ◌∷◌, ◌≡◌, [], arith, some, ◌≤◌, Option, none, ◌<◌, ◌⊎◌}
use lua_testcase.Lua.Run.{Trace, Kernel}
use lua_testcase.Lua.{Conversions, Value, string}
use lua_testcase.Realpath.{
  luaopen, realpath_lua, start, Call, Reply, pathconf_path_max, realpath, Statics, to_size,
}

-- What Lua code makes the module do: it is opened, by any Lua state, or its function is called.
pub data Event : Type 0 where
  opens : Event
  resolves : List Value → Event

-- Each realpath of a trace writes into a buffer, no more than that holds.
abbrev pub Fits : Trace Call Reply → Type 0
Fits [] = Unit
Fits ((realpath p (some n), r) ∷ t) = (r.written ≤ n) × Fits t
Fits ((realpath p none, r) ∷ t) = ⊥
Fits ((pathconf_path_max, r) ∷ t) = Fits t

-- What realpath is documented to do: it writes at most PATH_MAX bytes.
abbrev pub WritesAtMost : ℕ → Kernel Call Reply → Type 0
WritesAtMost path_max k =
    (t : Trace Call Reply) (p : String) (b : Option ℕ) → (k t (realpath p b)).written ≤ path_max

-- pathconf gives no limit, or one that is not below PATH_MAX.
abbrev pub LimitIsLarge : ℕ → Kernel Call Reply → Type 0
LimitIsLarge path_max k =
    (t : Trace Call Reply)
    → let l = (k t pathconf_path_max).limit in (l ≡ minus_one) ⊎ (path_max ≤ to_size l)

module _ (c : Conversions) (k : Kernel Call Reply) where
  unfoldable pub session : List Event → Statics → Trace Call Reply → Statics × Trace Call Reply
  session [] s t = (s, t)
  session (opens ∷ es) s t = let (_, s', t') = luaopen k s t in session es s' t'
  session (resolves args ∷ es) s t = let (_, s', t') = realpath_lua c args k s t in session es s' t'

  abbrev Holds : ℕ → Statics → Trace Call Reply → Type 0
  Holds path_max s t = (path_max ≤ s.bufsiz) × (s.buf ≡ some s.bufsiz) × Fits t

  luaopen-Holds :
      (path_max : ℕ) (s : Statics) (t : Trace Call Reply)
      → LimitIsLarge path_max k
      → path_max ≤ s.bufsiz
      → Fits t
      → let (_, s', t') = luaopen k s t in Holds path_max s' t'
  unfolding luaopen
  luaopen-Holds path_max s t large h f = ground (arith, large t)

  realpath_lua-Holds :
      (path_max : ℕ) (args : List Value) (s : Statics) (t : Trace Call Reply)
      → WritesAtMost path_max k
      → Holds path_max s t
      → let (_, s', t') = realpath_lua c args k s t in Holds path_max s' t'
  unfolding realpath_lua
  realpath_lua-Holds path_max args s t most h = grind arith

  session-Holds :
      (path_max : ℕ) (es : List Event) (s : Statics) (t : Trace Call Reply)
      → WritesAtMost path_max k
      → LimitIsLarge path_max k
      → Holds path_max s t
      → let (s', t') = session es s t in Holds path_max s' t'
  unfolding session
  session-Holds path_max [] s t most large h = h
  session-Holds path_max (opens ∷ es) s t most large h =
      let (_, s', t') = luaopen k s t in
      session-Holds path_max es s' t' most large (luaopen-Holds path_max s t large h.0 h.2)
  session-Holds path_max (resolves args ∷ es) s t most large h =
      let (_, s', t') = realpath_lua c args k s t in
      session-Holds path_max es s' t' most large (realpath_lua-Holds path_max args s t most h)

  -- Where pathconf gives no limit below PATH_MAX and realpath writes at most PATH_MAX bytes: whatever
  -- Lua code does once the module is opened, opening it again included, no realpath writes beyond the
  -- module's buffer, or without one.
  pub session-Fits :
      (path_max : ℕ) (es : List Event)
      → WritesAtMost path_max k
      → LimitIsLarge path_max k
      → Fits (session (opens ∷ es) (start path_max) []).1
  unfolding session start
  session-Fits path_max es most large =
      let (_, s', t') = luaopen k (start path_max) [] in
      let h = luaopen-Holds path_max (start path_max) [] large (omega arith) tt in
      (session-Holds path_max es s' t' most large h).2

  -- The bound on pathconf is needed: where it gives a limit that is not negative, and realpath then
  -- resolves a path of more bytes, the first call of the function writes beyond the buffer.
  pub session-not-Fits :
      (path_max n : ℕ) (path : String)
      → (k [] pathconf_path_max).limit ≡ pos n
      → ((t : Trace Call Reply) → n < (k t (realpath path (some n))).written)
      → ¬ Fits (session (opens ∷ resolves (string path ∷ []) ∷ []) (start path_max) []).1
  unfolding session start luaopen realpath_lua
  session-not-Fits path_max n path e more h =
      ground (arith, more ((pathconf_path_max, k [] pathconf_path_max) ∷ []))
