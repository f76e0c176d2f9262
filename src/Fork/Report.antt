-- ===== src/Fork/Report.antt =====
-- What the methods of src/fork.c report, and what becomes of a process.
use lua_testcase.Common.{ℕ, suc, ◌≡◌, true, false, [], ◌∷◌, arith, if◌then◌else◌}
use lua_testcase.Common.Int.{ℤ, pos, negsuc, minus_one, eqb_ℤ, neg}
use lua_testcase.Lua.{
  Value, nil, boolean, integer, strerror, table, end, set_field, field_of, error,
}
use lua_testcase.Lua.Run.{Kernel, Trace, returned, raised, exited}
use lua_testcase.Fork.{
  Macros, Errno, Call, waitpid, kill_kill, untraced_continued, nohang, blocking, Reply, wait,
  is_child, gc, status_fields, has_ended,
}
use lua_testcase.Fork.Safety.{ended, reaped}

-- A status is of one kind: <sys/wait.h> has the four tests exclude one another.
pub record AreExclusive (m : Macros) : Type 0 where
  pub exited_only :
      (w : ℕ)
      → m.is_exited w ≡ true
      → (m.is_signaled w ≡ false) × (m.is_stopped w ≡ false) × (m.is_continued w ≡ false)
  pub signaled_only :
      (w : ℕ) → m.is_signaled w ≡ true → (m.is_stopped w ≡ false) × (m.is_continued w ≡ false)
  pub stopped_only : (w : ℕ) → m.is_stopped w ≡ true → m.is_continued w ≡ false

-- What the fields of a result of wait say of the status.
abbrev pub Reports : Macros → ℤ → ℕ → Value → Type 0
Reports m pid w v =
    (field_of "pid" v ≡ integer pid)
    × (field_of "exit" v ≡ (if m.is_exited w then integer (m.exit_status w) else nil))
    × (field_of "sigterm" v ≡ (if m.is_signaled w then integer (m.term_sig w) else nil))
    × (field_of "sigstop" v ≡ (if m.is_stopped w then integer (m.stop_sig w) else nil))
    × (field_of "sigcont" v ≡ (if m.is_continued w then boolean true else nil))

module _ (m : Macros) (e : Errno) (k : Kernel Call Reply) where
  -- Where the system gives a status, of one kind only, wait in the parent returns a table with the child's number, and
  -- of exit, sigterm, sigstop and sigcont the field for the kind of the status and no other; the
  -- userdatum is marked as ended if the child has exited or was killed by a signal, and only then.
  wait_report :
      (n : ℕ) (t : Trace Call Reply)
      → AreExclusive m
      → let r = k t (waitpid (pos (suc n)) untraced_continued) in
        eqb_ℤ r.ret minus_one ≡ false
        → let (o, s, _) = wait m e k (pos (suc n)) t in
          (v : Value) × (o ≡ returned (v ∷ []))
          × Reports m (pos (suc n)) r.status v
          × (s ≡ (if ended m r.status then neg (pos (suc n)) else pos (suc n)))
  unfolding wait status_fields has_ended
  wait_report n t x h =
      let w = (k t (waitpid (pos (suc n)) untraced_continued)).status in
      (
        table (status_fields m w (set_field "pid" (integer (pos (suc n))) end)),
        ground arith,
        ground (arith, x.exited_only w, x.signaled_only w, x.stopped_only w),
        ground arith,
      )

  -- In the child wait raises an error, is_child is true, and gc ends the process with status 0; none
  -- of them calls the system. Once the child has ended, wait gives ECHILD and gc does nothing.
  pub no_process :
      (n : ℕ) (t : Trace Call Reply)
      → (wait m e k (pos 0) t
          ≡ (raised (error "cannot wait for self-process to terminate"), pos 0, t))
        × (is_child k (pos 0) t ≡ (returned (boolean true ∷ []), pos 0, t))
        × (gc k (pos 0) t ≡ (exited 0, pos 0, t))
        × (wait m e k (negsuc n) t
            ≡ (returned (nil ∷ strerror e.echild ∷ integer (pos e.echild) ∷ []), negsuc n, t))
        × (gc k (negsuc n) t ≡ (returned [], negsuc n, t))
  unfolding wait is_child gc
  no_process n t = ground arith

-- gc leaves no zombie: if the system can wait for the child and kill it, then after gc in the parent
-- the child has been taken off the process table, whether it was running or had ended.
pub gc_reaps :
    (m : Macros) (k : Kernel Call Reply) (n : ℕ) (t : Trace Call Reply)
    → let pid = pos (suc (suc n)) in
      ((t : Trace Call Reply) → eqb_ℤ (k t (waitpid pid nohang)).ret minus_one ≡ false)
      → ((t : Trace Call Reply) → eqb_ℤ (k t (waitpid pid blocking)).ret minus_one ≡ false)
      → ((t : Trace Call Reply) → eqb_ℤ (k t (kill_kill pid)).ret (pos 0) ≡ true)
      → reaped m (gc k pid t).2 ≡ true
unfolding gc
gc_reaps m k n t can_wait can_reap can_kill =
    let pid = pos (suc (suc n)) in
    let t₁ : Trace Call Reply = (waitpid pid nohang, k t (waitpid pid nohang)) ∷ t in
    let t₂ : Trace Call Reply = (kill_kill pid, k t₁ (kill_kill pid)) ∷ t₁ in
    ground (arith, can_wait t, can_kill t₁, can_reap t₂)
