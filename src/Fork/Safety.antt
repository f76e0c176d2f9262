-- ===== src/Fork/Safety.antt =====
-- What the process userdatum of src/fork.c asks of the system over its life: a process that has been
-- waited for to its end is never named again, since its number may be another process's by then.
use lua_testcase.Common.{
  ℕ, suc, ◌≡◌, refl, Bool, false, not, ◌&&◌, ◌||◌, ◌⊎◌, inl, List, [], ◌∷◌, arith,
}
use lua_testcase.Common.Int.{ℤ, pos, minus_one, eqb_ℤ, neg}
use lua_testcase.Lua.Run.{Kernel, Trace}
use lua_testcase.Fork.{
  Macros, Errno, untraced_continued, nohang, blocking, Call, fork, waitpid, kill_kill, Reply,
  Handler, wait, is_child, pid_lua, gc,
}

-- The methods of a process; gc is not one of them, it comes last.
pub data Method : Type 0 where
  waits asks_child asks_pid : Method

module _ (m : Macros) where
  abbrev pub ended : ℕ → Bool
  ended w = m.is_exited w || m.is_signaled w

  -- Whether a call, as it was answered, has taken an ended child off the process table.
  abbrev pub reaps : Call × Reply → Bool
  reaps (waitpid p untraced_continued, r) = not (eqb_ℤ r.ret minus_one) && ended r.status
  reaps (waitpid p nohang, r) = not (eqb_ℤ r.ret minus_one) && not (eqb_ℤ r.ret (pos 0))
  reaps (waitpid p blocking, r) = not (eqb_ℤ r.ret minus_one)
  reaps (kill_kill p, r) = false
  reaps (fork, r) = false

  abbrev pub reaped : Trace Call Reply → Bool
  reaped [] = false
  reaped (e ∷ t) = reaps e || reaped t

  -- A trace's last call was a waitpid with WNOHANG that found the child running.
  abbrev pub FoundRunning : ℤ → Trace Call Reply → Type 0
  FoundRunning pid [] = ⊥
  FoundRunning pid ((c, r) ∷ t) = (c ≡ waitpid pid nohang) × (r.ret ≡ pos 0)

  -- A call names the child, and is a kill only of a child just found running.
  abbrev pub IsFit : ℤ → Call → Trace Call Reply → Type 0
  IsFit pid (waitpid p o) t = p ≡ pid
  IsFit pid (kill_kill p) t = (p ≡ pid) × FoundRunning pid t
  IsFit pid fork t = ⊥

  -- Every call was fit, and made while the child was not yet taken off the process table.
  abbrev pub IsSafe : ℤ → Trace Call Reply → Type 0
  IsSafe pid [] = Unit
  IsSafe pid ((c, r) ∷ t) = IsFit pid c t × (reaped t ≡ false) × IsSafe pid t

  module _ (e : Errno) where
    abbrev pub method : Method → Handler
    method waits = wait m e
    method asks_child = is_child
    method asks_pid = pid_lua

    unfoldable pub session :
        Kernel Call Reply → List Method → ℤ → Trace Call Reply → ℤ × Trace Call Reply
    session k [] s t = (s, t)
    session k (x ∷ xs) s t = let (_, s', t') = method x k s t in session k xs s' t'

    -- The calls made over a process's life: by its methods, and by gc in the end.
    unfoldable pub life : Kernel Call Reply → List Method → ℤ → Trace Call Reply
    unfolding session
    life k xs s = let (s', t') = session k xs s [] in (gc k s' t').2

  -- The content of a parent's userdatum: the number while the child is there, minus it after.
  Holds : ℕ → ℤ → Trace Call Reply → Type 0
  Holds n s t =
      IsSafe (pos (suc n)) t × (((s ≡ pos (suc n)) × (reaped t ≡ false)) ⊎ (s ≡ neg (pos (suc n))))

  method-Holds :
      (e : Errno) (k : Kernel Call Reply) (x : Method) (n : ℕ) (s : ℤ) (t : Trace Call Reply)
      → Holds n s t
      → let (_, s', t') = method e x k s t in Holds n s' t'
  unfolding Holds wait is_child pid_lua
  method-Holds e k waits n s t h = ground arith
  method-Holds e k asks_child n s t h = ground arith
  method-Holds e k asks_pid n s t h = ground arith

  session-Holds :
      (e : Errno) (k : Kernel Call Reply) (xs : List Method) (n : ℕ) (s : ℤ) (t : Trace Call Reply)
      → Holds n s t
      → let (s', t') = session e k xs s t in Holds n s' t'
  unfolding session
  session-Holds e k [] n s t h = h
  session-Holds e k (x ∷ xs) n s t h =
      let (_, s', t') = method e x k s t in
      session-Holds e k xs n s' t' (method-Holds e k x n s t h)

  gc-IsSafe :
      (k : Kernel Call Reply) (n : ℕ) (s : ℤ) (t : Trace Call Reply)
      → Holds n s t
      → IsSafe (pos (suc n)) (gc k s t).2
  unfolding Holds gc
  gc-IsSafe k n s t h = ground arith

  -- Over the life of a process userdatum in the parent, whatever methods are called and however the
  -- system answers: every call names the child's number, none is made after a call that reported the
  -- child's end, and SIGKILL is sent only right after a waitpid that found the child running.
  pub life-IsSafe :
      (e : Errno) (k : Kernel Call Reply) (xs : List Method) (n : ℕ)
      → IsSafe (pos (suc n)) (life e k xs (pos (suc n)))
  unfolding life Holds
  life-IsSafe e k xs n =
      let (s, t) = session e k xs (pos (suc n)) [] in
      gc-IsSafe k n s t (session-Holds e k xs n (pos (suc n)) [] (tt, inl (refl, refl)))
