-- ===== src/Walk/Trees.antt =====
-- Trees of files, how a system shows one, and the files that are to be found in it.
use lua_testcase.Common.{
  ℕ, suc, ◌==◌, ◌≡◌, Bool, true, false, List, [], ◌∷◌, ◌++◌, none, if◌then◌else◌, inl, inr, ltb,
}
use lua_testcase.Paths.{Text, trim_cwd}
use lua_testcase.Walk.{
  System, regular, directory, other, not_opened, opened, joined, is_hidden, ends_with,
}

-- What is at a name: a file, a directory, one that cannot be read, something else, nothing (a link that
-- leads nowhere), or what stat fails for.
mutual
  pub data Node : Type 0 where
    file : Node
    dir : Entries → Node
    closed : ℕ → Node
    special : Node
    gone : Node
    bad : ℕ → Node

  pub data Entries : Type 0 where
    end : Entries
    entry : Text → Node → Entries → Entries

abbrev pub names_of : Entries → List Text
names_of end = []
names_of (entry n t es) = n ∷ names_of es

-- stat and readdir answer as the tree has it, at all names but the hidden ones.
abbrev mutual
  pub Shows : System → Text → Node → Type 0
  Shows sys p file = sys.stat p ≡ inl regular
  Shows sys p (dir es) =
      (sys.stat p ≡ inl directory) × (sys.readdir p ≡ opened (names_of es) none) × ShowsAll sys p es
  Shows sys p (closed e) = (sys.stat p ≡ inl directory) × (sys.readdir p ≡ not_opened e)
  Shows sys p special = sys.stat p ≡ inl other
  Shows sys p gone = sys.stat p ≡ inr sys.enoent
  Shows sys p (bad e) = (sys.stat p ≡ inr e) × ((e == sys.enoent) ≡ false)

  pub ShowsAll : System → Text → Entries → Type 0
  ShowsAll sys p end = Unit
  ShowsAll sys p (entry n t es) =
      (is_hidden n ≡ false → Shows sys (joined p n) t) × ShowsAll sys p es

-- Whether there is, below hidden names not counted, what cannot be read.
unfoldable mutual
  pub is_broken : Node → Bool
  is_broken (dir es) = has_broken es
  is_broken (closed e) = true
  is_broken (bad e) = true
  is_broken file = false
  is_broken special = false
  is_broken gone = false

  pub has_broken : Entries → Bool
  has_broken end = false
  has_broken (entry n t es) =
      let rest = has_broken es in if is_hidden n then rest else if is_broken t then true else rest

unfoldable mutual
  pub depth : Node → ℕ
  depth (dir es) = suc (depth_of es)
  depth (closed e) = 1
  depth file = 0
  depth special = 0
  depth gone = 0
  depth (bad e) = 0

  pub depth_of : Entries → ℕ
  depth_of end = 0
  depth_of (entry n t es) =
      let d = depth t in let rest = depth_of es in if ltb d rest then rest else d

-- Whether an entry is a test file.
abbrev pub is_test : Text → Text → Node → Bool
is_test suffix n file = ends_with suffix n
is_test suffix n (dir es) = false
is_test suffix n (closed e) = false
is_test suffix n special = false
is_test suffix n gone = false
is_test suffix n (bad e) = false

-- The file that an entry is.
abbrev pub own_file : Text → Text → Text → Text → Node → List Text
own_file cwd suffix p n t =
    if is_hidden n then [] else if is_test suffix n t then trim_cwd cwd (joined p n) ∷ [] else []

-- The files of a directory: those that are directly in it, and then those of its directories.
unfoldable pub files_in : Text → Text → Text → Entries → List Text
files_in cwd suffix p end = []
files_in cwd suffix p (entry n t es) = own_file cwd suffix p n t ++ files_in cwd suffix p es

unfoldable mutual
  pub files_of : Text → Text → Text → Node → List Text
  files_of cwd suffix p (dir es) = files_in cwd suffix p es ++ files_below cwd suffix p es
  files_of cwd suffix p file = []
  files_of cwd suffix p (closed e) = []
  files_of cwd suffix p special = []
  files_of cwd suffix p gone = []
  files_of cwd suffix p (bad e) = []

  pub files_below : Text → Text → Text → Entries → List Text
  files_below cwd suffix p end = []
  files_below cwd suffix p (entry n t es) =
      let own = files_of cwd suffix (joined p n) t in
      (if is_hidden n then [] else own) ++ files_below cwd suffix p es
