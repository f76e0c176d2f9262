-- ===== src/Stat/Documented.antt =====
-- What src/stat.c and src/fstat.c return, against the fields that README.md documents of their tables.
use lua_testcase.Common.Int.{ℤ, pos}
use lua_testcase.Lua.{
  Fields, get_field, nil, Value, set_field, string, integer, field, end, table, bytes, errno_object,
  Conversions, boolean,
}
use lua_testcase.Common.{
  List, ℕ, String, ◌∷◌, [], ◌≡◌, ◌⊎◌, if◌then◌else◌, ◌==◌, str_eq, Bool, true, false, Option, ◌%◌,
  not, some, none,
}
use Prim.Native.Nat.{bit_and}
use lua_testcase.Stat.Perm.{parse_octal}
use lua_testcase.Lua.Run.{Outcome, returned, Kernel, Trace}
use lua_testcase.Stat.{Modes, Status, perm_of, Call, Reply, open_read}

-- The fields that are numbers.
abbrev pub numbers : Status → List (String × ℤ)
numbers b =
    ("dev", b.dev)
    ∷ ("ino", b.ino)
    ∷ ("mode", pos b.mode)
    ∷ ("nlink", b.nlink)
    ∷ ("uid", b.uid)
    ∷ ("gid", b.gid)
    ∷ ("rdev", b.rdev)
    ∷ ("size", b.size)
    ∷ ("blksize", b.blksize)
    ∷ ("blocks", b.blocks)
    ∷ ("atime", b.atime)
    ∷ ("mtime", b.mtime)
    ∷ ("ctime", b.ctime)
    ∷ []

-- The texts of the types.
abbrev pub types : Modes → List (String × ℕ)
types m =
    ("file", m.s_ifreg)
    ∷ ("directory", m.s_ifdir)
    ∷ ("symlink", m.s_iflnk)
    ∷ ("character_device", m.s_ifchr)
    ∷ ("block_device", m.s_ifblk)
    ∷ ("socket", m.s_ifsock)
    ∷ ("fifo", m.s_ififo)
    ∷ []

-- Whether a list of types has this text for the constant.
abbrev pub IsNamed : String → ℕ → List (String × ℕ) → Type 0
IsNamed s n [] = ⊥
IsNamed s n ((k, v) ∷ l) = ((s ≡ k) × (n ≡ v)) ⊎ IsNamed s n l

-- Whether the constant is in the list.
abbrev pub IsType : ℕ → List (String × ℕ) → Type 0
IsType n [] = ⊥
IsType n ((k, v) ∷ l) = (n ≡ v) ⊎ IsType n l

-- The field of the first type of the list that the constant is.
abbrev chosen : ℕ → List (String × ℕ) → Fields → Fields
chosen n [] fs = fs
chosen n ((k, v) ∷ l) fs = if n == v then set_field "type" (string k) fs else chosen n l fs

-- What the field says: a text for the constant, or nothing.
abbrev pub Says : ℕ → List (String × ℕ) → Value → Type 0
Says n l v = ((s : String) × (v ≡ string s) × IsNamed s n l) ⊎ ((v ≡ nil) × ¬ IsType n l)

abbrev has_no_type : List (String × ℤ) → Bool
has_no_type [] = true
has_no_type ((k, v) ∷ l) = if str_eq "type" k then false else has_no_type l

-- The fields of a table by the names of a list.
abbrev pub read : List (String × ℤ) → Fields → List Value
read [] fs = []
read ((k, v) ∷ l) fs = get_field k fs ∷ read l fs

abbrev pub values : List (String × ℤ) → List Value
values [] = []
values ((k, v) ∷ l) = integer v ∷ values l

-- The fields before the type is looked at.
abbrev fields_of : List (String × ℤ) → Fields → Fields
fields_of [] fs = fs
fields_of ((k, v) ∷ l) fs = field k (integer v) (fields_of l fs)

abbrev untyped : Status → Fields
untyped b = fields_of (numbers b) (field "perm" (bytes (perm_of b.mode)) end)

-- A table as README.md documents it for a status: every number under its name, as perm the octal text of
-- the mode's lowest ten bits, and as type a text that stands for the type bits of the mode, or nothing where
-- they are of no type that is listed.
abbrev pub Describes : Modes → Status → Value → Type 0
Describes m b v =
    (fs : Fields) × (v ≡ table fs)
    × (read (numbers b) fs ≡ values (numbers b))
    × ((perm : List ℕ) × (get_field "perm" fs ≡ bytes perm) × (parse_octal 0 perm ≡ b.mode % 1024))
    × Says (bit_and b.mode m.s_ifmt) (types m) (get_field "type" fs)

-- nil and the error of a call that failed, or else the documented table of the status.
abbrev pub Reports : Modes → String → Bool → ℕ → Status → Outcome (List Value) → Type 0
Reports m op true errno b r = r ≡ returned (nil ∷ errno_object errno op [] ∷ [])
Reports m op false errno b r = (v : Value) × (r ≡ returned (v ∷ [])) × Describes m b v

-- The arguments, with the option followsymlinks or without it.
abbrev pub arguments : String → Option Bool → List Value
arguments path none = string path ∷ []
arguments path (some follow) = string path ∷ boolean follow ∷ []

abbrev pub follows : Option Bool → Bool
follows none = true
follows (some follow) = follow

module _ (m : Modes) (c : Conversions) (k : Kernel Call Reply) where
  abbrev opening : String → Option Bool → Reply
  opening path option = k [] (open_read (not (follows option)) path)

  abbrev open_trace : String → Option Bool → Trace Call Reply
  open_trace path option = (open_read (not (follows option)) path, opening path option) ∷ []
