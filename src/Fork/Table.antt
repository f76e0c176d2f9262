-- ===== src/Fork/Table.antt =====
-- The children of one process, over many userdata of src/fork.c at once. The system may give the number
-- of a child that has been waited for to a new process: no userdatum must then act on it.
use lua_testcase.Fork.Events.{
  event, Event, assign, events, Userdata, collects, forks, waits, asks_pid, asks_child,
}
use lua_testcase.Common.{
  ◌≡◌, List, ◌∷◌, false, if◌then◌else◌, ◌⊎◌, true, [], Bool, suc, arith, zero, refl, inl, ℕ, ◌≢◌,
  ◌==◌, ◌&&◌, inr, not,
}
use lua_testcase.Common.Int.{
  ℤ, eqb_ℤ, minus_one, pos, is_in, remove, negsuc, is_in-remove, eqb_ℤ_refl, eqb_ℤ→eq, eqb_ℤ_comm,
}
use lua_testcase.Lua.Run.{Trace, Kernel}
use lua_testcase.Fork.{
  wait, gc, fork_lua, waited, kill_running, reap_killed, Macros, Errno, Call, Reply, fork, waitpid,
  kill_kill, untraced_continued, pid_lua, is_child,
}
use lua_testcase.Fork.Safety.{reaps}

abbrev pub positive : ℤ → Bool
positive (pos zero) = false
positive (pos (suc n)) = true
positive (negsuc n) = false

differ : (a b : ℤ) → positive a ≡ true → positive b ≡ false → eqb_ℤ a b ≡ false
differ a b p q = ground arith

module _ (m : Macros) where
  -- The children that are on the process table: forked, and not yet waited for to their end.
  abbrev pub children : Trace Call Reply → List ℤ
  children [] = []
  children ((fork, r) ∷ t) = if positive r.ret then r.ret ∷ children t else children t
  children ((waitpid p o, r) ∷ t) =
      if reaps m (waitpid p o, r) then remove p (children t) else children t
  children ((kill_kill p, r) ∷ t) = children t

  -- Each waitpid and each kill names a child that is on the process table.
  abbrev pub IsOwn : Trace Call Reply → Type 0
  IsOwn [] = Unit
  IsOwn ((fork, r) ∷ t) = IsOwn t
  IsOwn ((waitpid p o, r) ∷ t) = (is_in p (children t) ≡ true) × IsOwn t
  IsOwn ((kill_kill p, r) ∷ t) = (is_in p (children t) ≡ true) × IsOwn t

  -- In the parent fork fails, or gives a number that no child on the process table has.
  abbrev pub ForksFresh : Kernel Call Reply → Type 0
  ForksFresh k =
      (t : Trace Call Reply)
      → let v = (k t fork).ret in
        (v ≡ minus_one) ⊎ ((positive v ≡ true) × (is_in v (children t) ≡ false))

  -- What a userdatum's content must be: the number of a child on the table, if it is positive.
  abbrev IsChild : ℤ → Trace Call Reply → Type 0
  IsChild v t = positive v ≡ true → is_in v (children t) ≡ true

  -- The other children stay on the table.
  abbrev Leaves : ℤ → Trace Call Reply → Trace Call Reply → Type 0
  Leaves v t t' =
      (w : ℤ) → eqb_ℤ v w ≡ false → is_in w (children t) ≡ true → is_in w (children t') ≡ true

  module _ (e : Errno) (k : Kernel Call Reply) where
    wait-IsOwn :
        (v : ℤ) (t : Trace Call Reply)
        → IsOwn t
        → IsChild v t
        → let (_, v', t') = wait m e k v t in
          IsOwn t' × IsChild v' t' × Leaves v t t' × ((v' ≡ v) ⊎ (positive v' ≡ false))
    unfolding wait waited
    wait-IsOwn (negsuc n) t o h =
        (ground arith, λ q. ground arith, λ w ne i. ground arith, ground arith)
    wait-IsOwn (pos zero) t o h = (o, λ q. cc, λ w ne i. i, inl refl)
    wait-IsOwn (pos (suc n)) t o h =
        let r = k t (waitpid (pos (suc n)) untraced_continued) in
        (
          ground (arith, h refl),
          λ q. ground (arith, h refl),
          λ w ne i. ground (arith, is_in-remove w (pos (suc n)) (children t) ne),
          ground arith,
        )

    gc-IsOwn :
        (v : ℤ) (t : Trace Call Reply)
        → IsOwn t
        → IsChild v t
        → let (_, _, t') = gc k v t in IsOwn t' × Leaves v t t'
    unfolding gc kill_running reap_killed
    gc-IsOwn (negsuc n) t o h = (ground arith, λ w ne i. ground arith)
    gc-IsOwn (pos zero) t o h = (o, λ w ne i. i)
    gc-IsOwn (pos (suc n)) t o h = (
      ground (arith, h refl),
      λ w ne i. ground (arith, is_in-remove w (pos (suc n)) (children t) ne),
    )

    fork_lua-IsOwn :
        (t : Trace Call Reply)
        → ForksFresh k
        → IsOwn t
        → let (_, v', t') = fork_lua e k minus_one t in
          IsOwn t'
          × IsChild v' t'
          × ((w : ℤ)
              → positive w ≡ true
              → is_in w (children t) ≡ true
              → (is_in w (children t') ≡ true) × (eqb_ℤ v' w ≡ false))
    unfolding fork_lua
    fork_lua-IsOwn t fresh o = (
      ground (arith, fresh t),
      λ q. ground (arith, fresh t, eqb_ℤ_refl (k t fork).ret),
      λ w q i. ground (arith, fresh t, eqb_ℤ→eq (k t fork).ret w),
    )

    -- No two userdata stand for the same child.
    abbrev pub AreApart : (ℕ → ℤ) → Type 0
    AreApart f = (i j : ℕ) → i ≢ j → positive (f i) ≡ true → eqb_ℤ (f i) (f j) ≡ false

    abbrev Holds : (ℕ → ℤ) → Trace Call Reply → Type 0
    Holds f t = IsOwn t × ((i : ℕ) → IsChild (f i) t) × AreApart f

    assign-Holds :
        (f : ℕ → ℤ) (i : ℕ) (v : ℤ) (t t' : Trace Call Reply)
        → Holds f t
        → IsOwn t'
        → IsChild v t'
        → Leaves (f i) t t'
        → ((v ≡ f i) ⊎ (positive v ≡ false))
        → Holds (assign f i v) t'
    assign-Holds f i v t t' (o, c, a) o' c' l d = (
      o',
      λ j q. ground (arith, c', l (f j), c j, a j i, eqb_ℤ_comm (f i) (f j)),
      λ x y ne q. ground (arith, a i y, a x i, a x y, differ (f x) v),
    )

    event-Holds :
        (x : Event) (u : Userdata) (t : Trace Call Reply)
        → ForksFresh k
        → Holds u.content t
        → let (u', t') = event m e k x u t in Holds u'.content t'
    unfolding event pid_lua is_child
    event-Holds (waits i) u t fresh (o, c, a) =
        let (_, v, t') = wait m e k (u.content i) t in
        let (o', c', l, d) = wait-IsOwn (u.content i) t o (c i) in
        assign-Holds u.content i v t t' (o, c, a) o' c' l d
    event-Holds (asks_pid i) u t fresh (o, c, a) =
        assign-Holds u.content i (u.content i) t t (o, c, a) o (c i) (λ w ne h. h) (inl refl)
    event-Holds (asks_child i) u t fresh (o, c, a) =
        assign-Holds u.content i (u.content i) t t (o, c, a) o (c i) (λ w ne h. h) (inl refl)
    event-Holds (collects i) u t fresh (o, c, a) =
        let (_, _, t') = gc k (u.content i) t in
        let (o', l) = gc-IsOwn (u.content i) t o (c i) in
        assign-Holds u.content i minus_one t t' (o, c, a) o' (λ q. cc) l (inr refl)
    event-Holds forks u t fresh (o, c, a) =
        let (_, v, t') = fork_lua e k minus_one t in
        let (o', c', l) = fork_lua-IsOwn t fresh o in
        let f = u.content in
        let n = u.next in
        (
          o',
          λ j q. ground (arith, c', l (f j), c j),
          λ x y ne q.
              ground (arith, a x y, l (f y), l (f x), c y, c x, eqb_ℤ_comm (f x) v, differ v (f y)),
        )

    events-Holds :
        (xs : List Event) (u : Userdata) (t : Trace Call Reply)
        → ForksFresh k
        → Holds u.content t
        → let (u', t') = events m e k xs u t in Holds u'.content t'
    unfolding events
    events-Holds [] u t fresh h = h
    events-Holds (x ∷ xs) u t fresh h =
        let (u', t') = event m e k x u t in events-Holds xs u' t' fresh (event-Holds x u t fresh h)

    -- In a process that forks, waits for its children and collects their userdata in any order, where the
    -- system gives a new child no number of a child that is still on the process table (it may give that
    -- of one that has been waited for): every waitpid and every SIGKILL names a child that is on the
    -- table, and at the end no two userdata stand for the same child, and each that has a positive
    -- number stands for a child on the table.
    pub events-IsOwn :
        (xs : List Event)
        → ForksFresh k
        → let (u, t) = events m e k xs (record { content = λ i. minus_one; next = 0 }) [] in
          IsOwn t
          × ((i j : ℕ)
              → not (i == j) && positive (u.content i) && eqb_ℤ (u.content i) (u.content j) ≡ false)
          × ((i : ℕ) → positive (u.content i) && not (is_in (u.content i) (children t)) ≡ false)
    events-IsOwn xs fresh =
        let start : Userdata = record { content = λ i. minus_one; next = 0 } in
        let (o, c, a) = events-Holds xs start [] fresh (tt, λ i q. cc, λ i j ne q. cc) in
        (o, λ i j. ground (arith, a i j), λ i. ground (arith, c i))
