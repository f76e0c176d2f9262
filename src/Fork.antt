-- ===== src/Fork.antt =====
-- src/fork.c: the process userdatum. The state of a run is its content, the pid_t: 0 in the child, the
-- child's number in its parent, and minus that number once wait has seen the child end. fork,
-- waitpid and kill are calls of the system, and the macros that take a status apart are a parameter.
pub mod Safety
pub mod Report
pub mod Events
pub mod Table
pub mod Inherited
mod Tests
use lua_testcase.Common.{
  ℕ, Bool, true, false, List, [], ◌∷◌, Option, none, some, if◌then◌else◌, ◌==◌, ◌&&◌,
}
use lua_testcase.Common.Int.{ℤ, pos, minus_one, eqb_ℤ, ltb_ℤ, neg}
use lua_testcase.Lua.Format.{pointer_text}
use lua_testcase.Lua.{
  Value, nil, boolean, integer, string, strerror, userdata, table, Fields, end, set_field, error,
}
use lua_testcase.Lua.Run.{Action, pure, raise, exit, call, get, put, ◌>>=◌, ◌>>◌, when}

-- The options of waitpid that the code passes: WUNTRACED | WCONTINUED, WNOHANG and 0.
pub data Options : Type 0 where
  untraced_continued nohang blocking : Options

pub data Call : Type 0 where
  fork : Call
  waitpid : ℤ → Options → Call
  kill_kill : ℤ → Call  -- kill(pid, SIGKILL)

-- The return value, errno, and the status that waitpid stores.
pub record Reply : Type 0 where
  pub ret : ℤ
  pub errno : ℕ
  pub status : ℕ

abbrev pub Handler : Type 0
Handler = Action Call Reply ℤ (List Value)

-- WIFEXITED, WEXITSTATUS, WIFSIGNALED, WTERMSIG, WCOREDUMP (false where it is not defined),
-- WIFSTOPPED, WSTOPSIG and WIFCONTINUED of <sys/wait.h>.
pub record Macros : Type 0 where
  pub is_exited : ℕ → Bool
  pub exit_status : ℕ → ℤ
  pub is_signaled : ℕ → Bool
  pub term_sig : ℕ → ℤ
  pub has_core_dump : ℕ → Bool
  pub is_stopped : ℕ → Bool
  pub stop_sig : ℕ → ℤ
  pub is_continued : ℕ → Bool

-- The constants of <errno.h> that the code names.
pub record Errno : Type 0 where
  pub echild : ℕ
  pub eagain : ℕ

module _ (m : Macros) where
  -- The fields that wait adds for a status, and whether the process has ended by it.
  unfoldable pub status_fields : ℕ → Fields → Fields
  status_fields w fs =
      if m.is_exited w
      then set_field "exit" (integer (m.exit_status w)) fs
      else if m.is_signaled w
      then (let fs' = set_field "sigterm" (integer (m.term_sig w)) fs in
          if m.has_core_dump w then set_field "coredump" (boolean true) fs' else fs')
      else if m.is_stopped w
      then set_field "sigstop" (integer (m.stop_sig w)) fs
      else if m.is_continued w
      then set_field "sigcont" (boolean true) fs
      else fs

  unfoldable pub has_ended : ℕ → Bool
  has_ended w = if m.is_exited w then true else m.is_signaled w

  waited : ℤ → Reply → Handler
  unfolding has_ended status_fields
  waited pid r =
      if eqb_ℤ r.ret minus_one
      then pure (nil ∷ strerror r.errno ∷ integer (pos r.errno) ∷ [])
      else do
        when (has_ended r.status) (put (neg pid))
        pure (table (status_fields r.status (set_field "pid" (integer pid) end)) ∷ [])

  unfoldable pub wait : Errno → Handler
  unfolding waited
  wait e = do
    pid ← get
    if eqb_ℤ pid (pos 0)
        then raise (error "cannot wait for self-process to terminate")
        else if ltb_ℤ pid (pos 1)
        then pure (nil ∷ strerror e.echild ∷ integer (pos e.echild) ∷ [])
        else (call (waitpid pid untraced_continued) >>= waited pid)

unfoldable pub is_child : Handler
is_child = do p ← get; pure (boolean (eqb_ℤ p (pos 0)) ∷ [])

unfoldable pub pid_lua : Handler
pid_lua = do p ← get; pure (integer p ∷ [])

-- The kill of gc, and the wait for the killed process.
reap_killed : ℤ → Reply → Handler
reap_killed pid r =
    if eqb_ℤ r.ret (pos 0) then (call (waitpid pid blocking) >> pure []) else pure []

kill_running : ℤ → Reply → Handler
unfolding reap_killed
kill_running pid r =
    if eqb_ℤ r.ret (pos 0) then (call (kill_kill pid) >>= reap_killed pid) else pure []

unfoldable pub gc : Handler
unfolding kill_running
gc = do
  pid ← get
  if eqb_ℤ pid (pos 0)
      then exit 0
      else if ltb_ℤ (pos 1) pid
      then (call (waitpid pid nohang) >>= kill_running pid)
      else pure []

-- fork_lua; a new userdatum's content is not set where the fork fails.
unfoldable pub fork_lua : Errno → Handler
fork_lua e = do
  r ← call fork
  if eqb_ℤ r.ret minus_one
      then pure (
          if r.errno == e.eagain
          then nil ∷ nil ∷ boolean true ∷ []
          else nil ∷ strerror r.errno ∷ integer (pos r.errno) ∷ [])
      else (put r.ret >> pure (userdata "testcase.process" r.ret ∷ []))

-- What the system prints of the userdatum's address is an argument.
pub tostring_lua : List ℕ → Handler
tostring_lua pointer = pure (pointer_text "testcase.process" pointer ∷ [])
