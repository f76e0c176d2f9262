-- ===== src/Fork/Inherited.antt =====
-- The userdata of src/fork.c in a process that a fork has made: it has copies of those of its parent,
-- whose numbers are its parent's children, not its own.
use lua_testcase.Common.{List, ◌∷◌, arith, [], ◌≡◌, suc, true, zero, ◌⊎◌}
use lua_testcase.Common.Int.{ℤ, negsuc, is_in, pos, minus_one}
use lua_testcase.Lua.Run.{Kernel, Trace}
use lua_testcase.Fork.{
  wait, gc, fork_lua, waited, kill_running, reap_killed, is_child, pid_lua, Macros, Errno, Call,
  Reply, kill_kill, Options, waitpid, nohang,
}
use lua_testcase.Fork.Events.{
  event, events, Userdata, Event, waits, asks_pid, asks_child, collects, forks,
}
use lua_testcase.Fork.Table.{children}

module _ (m : Macros) where
  -- Each SIGKILL names a child of the process, that is on the process table.
  abbrev pub KillsOwn : Trace Call Reply → Type 0
  KillsOwn [] = Unit
  KillsOwn ((kill_kill p, r) ∷ t) = (is_in p (children m t) ≡ true) × KillsOwn t
  KillsOwn (x ∷ t) = KillsOwn t

  -- waitpid fails for a number that is no child of the process.
  abbrev pub RefusesOthers : Kernel Call Reply → Type 0
  RefusesOthers k =
      (t : Trace Call Reply) (p : ℤ) (o : Options)
      → ((k t (waitpid p o)).ret ≡ minus_one) ⊎ (is_in p (children m t) ≡ true)

  module _ (e : Errno) (k : Kernel Call Reply) where
    wait-KillsOwn : (v : ℤ) (t : Trace Call Reply) → KillsOwn t → KillsOwn (wait m e k v t).2
    unfolding wait waited
    wait-KillsOwn v t h = ground arith

    gc-KillsOwn :
        (v : ℤ) (t : Trace Call Reply) → RefusesOthers k → KillsOwn t → KillsOwn (gc k v t).2
    unfolding gc kill_running reap_killed
    gc-KillsOwn (negsuc n) t law h = ground arith
    gc-KillsOwn (pos zero) t law h = h
    gc-KillsOwn (pos (suc n)) t law h = ground (arith, law t (pos (suc n)) nohang)

    event-KillsOwn :
        (x : Event) (u : Userdata) (t : Trace Call Reply)
        → RefusesOthers k
        → KillsOwn t
        → KillsOwn (event m e k x u t).1
    unfolding event pid_lua is_child fork_lua
    event-KillsOwn forks u t law h = ground arith
    event-KillsOwn (waits i) u t law h = wait-KillsOwn (u.content i) t h
    event-KillsOwn (asks_pid i) u t law h = h
    event-KillsOwn (asks_child i) u t law h = h
    event-KillsOwn (collects i) u t law h = gc-KillsOwn (u.content i) t law h

    events_from-KillsOwn :
        (xs : List Event) (u : Userdata) (t : Trace Call Reply)
        → RefusesOthers k
        → KillsOwn t
        → KillsOwn (events m e k xs u t).1
    unfolding events
    events_from-KillsOwn [] u t law h = h
    events_from-KillsOwn (x ∷ xs) u t law h =
        let (u', t') = event m e k x u t in
        events_from-KillsOwn xs u' t' law (event-KillsOwn x u t law h)

    -- Whatever userdata a process starts with, inherited ones of its parent included, and whatever it
    -- does with them and with its own: where waitpid fails for numbers that are not of its children, it
    -- sends SIGKILL to its own children only, and to none that it has waited for to its end.
    pub events-KillsOwn :
        (xs : List Event) (u : Userdata) → RefusesOthers k → KillsOwn (events m e k xs u []).1
    events-KillsOwn xs u law = events_from-KillsOwn xs u [] law tt
