-- ===== src/Loading/Functions.antt =====
-- The luaopen_* functions of the modules that are one function: src/chdir.c, src/close.c, src/fstat.c,
-- src/readdir.c, src/rlimit.c, src/shutdown.c, src/stat.c, src/getpid.c and src/xpcall.c.
use lua_testcase.Common.{◌≡◌, ◌∷◌, some, List, [], All, String, refl, arith}
use lua_testcase.Loading.{M, Machine, ◌>>◌, push, cfunction}

-- lua_errno_loadlib of the library lua-errno is a parameter.
module _ (loadlib : M (Unit {0})) where
  pub luaopen_chdir : M (Unit {0})
  luaopen_chdir = do loadlib; push (cfunction "chdir_lua")

  pub luaopen_close : M (Unit {0})
  luaopen_close = do loadlib; push (cfunction "close_lua")

  pub luaopen_fstat : M (Unit {0})
  luaopen_fstat = do loadlib; push (cfunction "fstat_lua")

  pub luaopen_readdir : M (Unit {0})
  luaopen_readdir = do loadlib; push (cfunction "readdir_lua")

  pub luaopen_rlimit : M (Unit {0})
  luaopen_rlimit = do loadlib; push (cfunction "rlimit_lua")

  pub luaopen_shutdown : M (Unit {0})
  luaopen_shutdown = do loadlib; push (cfunction "shutdown_lua")

  pub luaopen_stat : M (Unit {0})
  luaopen_stat = do loadlib; push (cfunction "stat_lua")

pub luaopen_getpid : M (Unit {0})
luaopen_getpid = push (cfunction "getpid_lua")

pub luaopen_xpcall : M (Unit {0})
luaopen_xpcall = push (cfunction "xpcall_lua")

-- The modules by their names, as package.loaded and require know them.
abbrev pub openers : M (Unit {0}) → List (String × (String × M (Unit {0})))
openers loadlib =
    ("chdir", ("chdir_lua", luaopen_chdir loadlib))
    ∷ ("close", ("close_lua", luaopen_close loadlib))
    ∷ ("fstat", ("fstat_lua", luaopen_fstat loadlib))
    ∷ ("readdir", ("readdir_lua", luaopen_readdir loadlib))
    ∷ ("rlimit", ("rlimit_lua", luaopen_rlimit loadlib))
    ∷ ("shutdown", ("shutdown_lua", luaopen_shutdown loadlib))
    ∷ ("stat", ("stat_lua", luaopen_stat loadlib))
    ∷ ("getpid", ("getpid_lua", luaopen_getpid))
    ∷ ("xpcall", ("xpcall_lua", luaopen_xpcall))
    ∷ []

abbrev Pushes : Machine → String → M (Unit {0}) → Type 0
Pushes s f m = (s' : Machine) × (m s ≡ some (tt, s')) × (s'.stack ≡ cfunction f ∷ s.stack)

pushed_after :
    (loadlib : M (Unit {0})) (s s' : Machine) (f : String)
    → loadlib s ≡ some (tt, s')
    → s'.stack ≡ s.stack
    → Pushes s f (loadlib >> push (cfunction f))
pushed_after loadlib s s' f run kept =
    (record s' { stack = cfunction f ∷ s'.stack }, ground arith, ground arith)

-- Where lua_errno_loadlib leaves the stack as it was, each of these modules is its function: opening it does
-- not fault, and pushes the function and nothing else.
pub openers-Pushes :
    (loadlib : M (Unit {0})) (s : Machine)
    → ((s : Machine) → (s' : Machine) × (loadlib s ≡ some (tt, s')) × (s'.stack ≡ s.stack))
    → All (λ m. Pushes s m.1.0 m.1.1) (openers loadlib)
unfolding luaopen_chdir luaopen_close luaopen_fstat luaopen_readdir luaopen_rlimit luaopen_shutdown
    luaopen_stat luaopen_getpid luaopen_xpcall
openers-Pushes loadlib s law =
    let (s', run, kept) = law s in
    let alone = λ (f : String).
      let x : Pushes s f (push (cfunction f)) =
        (record s { stack = cfunction f ∷ s.stack }, refl, refl) in
      x in
    let after = λ (f : String). pushed_after loadlib s s' f run kept in
    (
      after "chdir_lua",
      (
        after "close_lua",
        (
          after "fstat_lua",
          (
            after "readdir_lua",
            (
              after "rlimit_lua",
              (
                after "shutdown_lua",
                (after "stat_lua", (alone "getpid_lua", (alone "xpcall_lua", tt))),
              ),
            ),
          ),
        ),
      ),
    )
