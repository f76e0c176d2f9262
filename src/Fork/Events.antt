-- ===== src/Fork/Events.antt =====
-- What one process does over many userdata of src/fork.c.
use lua_testcase.Lua.Run.{Kernel, Trace}
use lua_testcase.Common.Int.{ℤ, minus_one}
use lua_testcase.Common.{ℕ, if◌then◌else◌, ◌==◌, List, ◌∷◌, [], suc}
use lua_testcase.Fork.{wait, gc, fork_lua, Macros, Errno, Call, Reply, pid_lua, is_child}

-- The userdata of the process, by their numbers, and the number of the next one; -1 stands where there
-- is none.
pub record Userdata : Type 0 where
  pub content : ℕ → ℤ
  pub next : ℕ

-- What Lua code does with them, and what its collector does.
pub data Event : Type 0 where
  forks : Event
  waits asks_pid asks_child collects : ℕ → Event

abbrev pub assign : (ℕ → ℤ) → ℕ → ℤ → ℕ → ℤ
assign f i v j = if j == i then v else f j

module _ (m : Macros) (e : Errno) (k : Kernel Call Reply) where
  unfoldable pub event : Event → Userdata → Trace Call Reply → Userdata × Trace Call Reply
  event forks u t =
      let (_, v, t') = fork_lua e k minus_one t in
      (record { content = assign u.content u.next v; next = suc u.next }, t')
  event (waits i) u t =
      let (_, v, t') = wait m e k (u.content i) t in
      (record u { content = assign u.content i v }, t')
  event (asks_pid i) u t =
      let (_, v, t') = pid_lua k (u.content i) t in
      (record u { content = assign u.content i v }, t')
  event (asks_child i) u t =
      let (_, v, t') = is_child k (u.content i) t in
      (record u { content = assign u.content i v }, t')
  event (collects i) u t =
      let (_, _, t') = gc k (u.content i) t in
      (record u { content = assign u.content i minus_one }, t')

  unfoldable pub events : List Event → Userdata → Trace Call Reply → Userdata × Trace Call Reply
  events [] u t = (u, t)
  events (x ∷ xs) u t = let (u', t') = event x u t in events xs u' t'
