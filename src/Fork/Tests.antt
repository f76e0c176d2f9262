-- ===== src/Fork/Tests.antt =====
-- Runs of src/fork.c against systems that answer in a fixed way, and its theorems at concrete inputs.
use lua_testcase.Fork.Inherited.{RefusesOthers, KillsOwn, events-KillsOwn}
use lua_testcase.Fork.Events.{events, Event, event, forks, collects, Userdata}
use lua_testcase.Fork.Table.{ForksFresh, children, IsOwn, positive, events-IsOwn}
use lua_testcase.Common.{
  ℕ, ◌/◌, ◌%◌, ◌≡◌, refl, true, not, ◌&&◌, ◌==◌, [], ◌∷◌, arith, if◌then◌else◌, List, false, ◌⊎◌,
  Bool-cases, inl, inr,
}
use lua_testcase.Common.Int.{pos, is_in, minus_one, ℤ, eqb_ℤ}
use lua_testcase.Lua.Run.{Kernel}
use lua_testcase.Fork.{
  Macros, Errno, Call, fork, waitpid, kill_kill, untraced_continued, nohang, blocking, Reply, wait,
  pid_lua, gc, fork_lua,
}
use lua_testcase.Fork.Safety.{waits, asks_child, asks_pid, reaped, IsSafe, life, life-IsSafe}
use lua_testcase.Fork.Report.{AreExclusive, gc_reaps}

-- The macros of Linux.
abbrev linux : Macros
linux = record {
  is_exited = λ w. w % 128 == 0;
  exit_status = λ w. pos (w / 256 % 256);
  is_signaled = λ w. not (w % 128 == 0) && not (w % 128 == 127);
  term_sig = λ w. pos (w % 128);
  has_core_dump = λ w. w / 128 % 2 == 1;
  is_stopped = λ w. w % 256 == 127;
  stop_sig = λ w. pos (w / 256 % 256);
  is_continued = λ w. w == 65535;
}

linux-AreExclusive : AreExclusive linux
linux-AreExclusive = record {
  exited_only = λ w h. ground arith;
  signaled_only = λ w h. ground arith;
  stopped_only = λ w h. ground arith;
}

abbrev errno : Errno
errno = record { echild = 10; eagain = 11 }

abbrev reply : ℕ → ℕ → Reply
reply ret status = record { ret = pos ret; errno = 0; status = status }

-- Child 42 is stopped by signal 19 before it exits with status 3.
abbrev stopped_then_exited : Kernel Call Reply
stopped_then_exited [] c = reply 42 0x137f
stopped_then_exited (e ∷ t) c = reply 42 0x300

-- Child 42 runs on until it is killed.
abbrev running : Kernel Call Reply
running t (waitpid p nohang) = reply 0 0
running t (waitpid p untraced_continued) = reply 42 9
running t (waitpid p blocking) = reply 42 9
running t (kill_kill p) = reply 0 0
running t fork = reply 42 0

forked : (fork_lua errno running (pos 0) []).1 ≡ pos 42
unfolding fork_lua
forked = refl

-- After the exit the last wait makes no call, nor does gc.
two_calls :
    life linux errno stopped_then_exited (waits ∷ asks_pid ∷ waits ∷ waits ∷ []) (pos 42)
    ≡ (waitpid (pos 42) untraced_continued, reply 42 0x300)
      ∷ (waitpid (pos 42) untraced_continued, reply 42 0x137f)
      ∷ []
unfolding life wait pid_lua gc
two_calls = refl

life-IsSafe_example :
    IsSafe linux
      (pos 42)
      (life linux errno stopped_then_exited (waits ∷ asks_child ∷ waits ∷ []) (pos 42))
life-IsSafe_example =
    life-IsSafe linux errno stopped_then_exited (waits ∷ asks_child ∷ waits ∷ []) 41

gc_reaps_example : reaped linux (gc running (pos 42) []).2 ≡ true
gc_reaps_example = gc_reaps linux running 40 [] (λ t. refl) (λ t. refl) (λ t. refl)

abbrev answer : ℤ → Reply
answer v = record { ret = v; errno = 0; status = 0 }

abbrev free_number : List ℤ → ℤ
free_number l =
    if not (is_in (pos 2) l) then pos 2 else if not (is_in (pos 3) l) then pos 3 else minus_one

free_number_lem :
    (l : List ℤ)
    → (free_number l ≡ minus_one)
      ⊎ ((positive (free_number l) ≡ true) × (is_in (free_number l) l ≡ false))
free_number_lem l = elim (Bool-cases (is_in (pos 2) l)) [
  | inl two ↦ elim (Bool-cases (is_in (pos 3) l)) [
    | inl three ↦ inl (ground arith)
    | inr free ↦ rw (two, free) (inr (refl, free))
  ]
  | inr free ↦ rw free (inr (refl, free))
]

-- A system with two numbers for children, 2 and 3, where each child ends at once with status 0.
abbrev two_numbers : Kernel Call Reply
two_numbers t c = elim c [
  | fork ↦ answer (free_number (children linux t))
  | waitpid p o ↦ answer p
  | kill_kill p ↦ answer minus_one
]

two_numbers-ForksFresh : ForksFresh linux two_numbers
two_numbers-ForksFresh t = free_number_lem (children linux t)

abbrev reuse : List Event
reuse = forks ∷ forks ∷ forks ∷ Event.waits 0 ∷ forks ∷ Event.waits 0 ∷ collects 0 ∷ []

-- The number of the first child is given to the fourth one, which its userdatum then leaves alone.
reused :
    let (u, t) =
      events linux errno two_numbers reuse (record { content = λ i. minus_one; next = 0 }) [] in
    (u.content 3 ≡ pos 2) × (children linux t ≡ pos 2 ∷ pos 3 ∷ [])
unfolding events event fork_lua wait gc
reused = (refl, refl)

events-IsOwn_example :
    let (u, t) =
      events linux errno two_numbers reuse (record { content = λ i. minus_one; next = 0 }) [] in
    IsOwn linux t
    × ((i j : ℕ)
        → not (i == j) && positive (u.content i) && eqb_ℤ (u.content i) (u.content j) ≡ false)
    × ((i : ℕ) → positive (u.content i) && not (is_in (u.content i) (children linux t)) ≡ false)
events-IsOwn_example = events-IsOwn linux errno two_numbers reuse two_numbers-ForksFresh

-- A child with number 7 for its parent's other child, and number 9 for the child of its own, which runs.
abbrev only_nine : Kernel Call Reply
only_nine t c = elim c [
  | fork ↦ answer (pos 9)
  | waitpid p o ↦ answer (if is_in p (children linux t) then pos 0 else minus_one)
  | kill_kill p ↦ answer (pos 0)
]

only_nine-RefusesOthers : RefusesOthers linux only_nine
only_nine-RefusesOthers t p o = elim (Bool-cases (is_in p (children linux t))) [
  | inl own ↦ inr own
  | inr other ↦ rw other (inl refl)
]

abbrev inherited : Userdata
inherited = record { content = λ i. if i == 0 then pos 7 else minus_one; next = 1 }

abbrev collected : List Event
collected = forks ∷ collects 0 ∷ collects 1 ∷ []

one_kill :
    (events linux errno only_nine collected inherited []).1
    ≡ (waitpid (pos 9) blocking, answer (pos 0))
      ∷ (kill_kill (pos 9), answer (pos 0))
      ∷ (waitpid (pos 9) nohang, answer (pos 0))
      ∷ (waitpid (pos 7) nohang, answer minus_one)
      ∷ (fork, answer (pos 9))
      ∷ []
unfolding events event fork_lua gc
one_kill = refl

events-KillsOwn_example : KillsOwn linux (events linux errno only_nine collected inherited []).1
events-KillsOwn_example =
    events-KillsOwn linux errno only_nine collected inherited only_nine-RefusesOthers
