-- ===== src/Stat.antt =====
-- src/stat.c and src/fstat.c: the status of a file as a table, which each of them builds by code of its own;
-- the numbers of a struct stat are kept as integers, its mode as the bits that it is.
-- The S_IF* constants are parameters.
pub mod Perm
pub mod Descriptors
pub mod Documented
mod Tests
use Prim.Native.Nat.{bit_and}
use lua_testcase.Lua.Args.{is_none_or_nil, arg, check_string, check_boolean}
use lua_testcase.Lua.{
  Value, Conversions, Fields, table, set_field, nil, bytes, errno_object, integer, end, string,
}
use lua_testcase.Lua.Run.{Action, pure, ◌>>=◌, call, ◌>>◌}
use lua_testcase.Common.Int.{ℤ, eqb_ℤ, minus_one, pos}
use lua_testcase.Common.{
  String, ℕ, Bool, if◌then◌else◌, List, ◌∷◌, suc, take, ◌%◌, [], ◌/◌, ◌+◌, true, ◌==◌, not, zero,
}

pub data Call : Type 0 where
  stat lstat : String → Call
  open_read : Bool → String → Call  -- open with O_RDONLY | O_CLOEXEC, and O_NOFOLLOW if the test holds
  fstat close : ℤ → Call

-- struct stat
pub record Status : Type 0 where
  pub dev : ℤ
  pub ino : ℤ
  pub mode : ℕ
  pub nlink : ℤ
  pub uid : ℤ
  pub gid : ℤ
  pub rdev : ℤ
  pub size : ℤ
  pub blksize : ℤ
  pub blocks : ℤ
  pub atime : ℤ
  pub mtime : ℤ
  pub ctime : ℤ

-- The return value, errno after the call, and the status that is filled in.
pub record Reply : Type 0 where
  pub ret : ℤ
  pub errno : ℕ
  pub status : Status

-- S_IFMT and the file types.
pub record Modes : Type 0 where
  pub s_ifmt : ℕ
  pub s_ifreg : ℕ
  pub s_ifdir : ℕ
  pub s_iflnk : ℕ
  pub s_ifchr : ℕ
  pub s_ifblk : ℕ
  pub s_ifsock : ℕ
  pub s_ififo : ℕ

abbrev pub Handler : Type 0
Handler = Action Call Reply (Unit {0}) (List Value)

abbrev pub failed : Reply → Bool
failed r = eqb_ℤ r.ret minus_one

-- The octal digits of a number below 8 ^ rounds, before those of `rest`.
octal : ℕ → ℕ → List ℕ → List ℕ
octal zero n rest = rest
octal (suc rounds) n rest =
    let more = octal rounds (n / 8) ((b'0' + n % 8) ∷ rest) in if n == 0 then rest else more

-- "%#o"
pub format_octal : ℕ → List ℕ
unfolding octal
format_octal n = b'0' ∷ octal 22 n []

-- snprintf(perm, 6, "%#o", mode & 01777), which keeps five characters.
pub perm_of : ℕ → List ℕ
perm_of mode = take 5 (format_octal (mode % 1024))

abbrev pushint2tbl : String → ℤ → Fields → Fields
pushint2tbl k v = set_field k (integer v)

-- The string is a text, or its bytes.
abbrev pushstr2tbl : String → Value → Fields → Fields
pushstr2tbl k v = set_field k v

module _ (m : Modes) where
  -- The switch and the table of stat.c; a type of none of the kinds has no field.
  pub type_fields : ℕ → Fields → Fields
  type_fields mode fs =
      let t = bit_and mode m.s_ifmt in
      if t == m.s_ifreg
      then pushstr2tbl "type" (string "file") fs
      else if t == m.s_ifdir
      then pushstr2tbl "type" (string "directory") fs
      else if t == m.s_iflnk
      then pushstr2tbl "type" (string "symlink") fs
      else if t == m.s_ifchr
      then pushstr2tbl "type" (string "character_device") fs
      else if t == m.s_ifblk
      then pushstr2tbl "type" (string "block_device") fs
      else if t == m.s_ifsock
      then pushstr2tbl "type" (string "socket") fs
      else if t == m.s_ififo
      then pushstr2tbl "type" (string "fifo") fs
      else fs

  pub table_of : Status → Value
  table_of b = table (
      type_fields b.mode (
        pushstr2tbl "perm" (bytes (perm_of b.mode)) (
          pushint2tbl "ctime" b.ctime (
            pushint2tbl "mtime" b.mtime (
              pushint2tbl "atime" b.atime (
                pushint2tbl "blocks" b.blocks (
                  pushint2tbl "blksize" b.blksize (
                    pushint2tbl "size" b.size (
                      pushint2tbl "rdev" b.rdev (
                        pushint2tbl "gid" b.gid (
                          pushint2tbl "uid" b.uid (
                            pushint2tbl "nlink" b.nlink (
                              pushint2tbl "mode" (pos b.mode)
                                (pushint2tbl "ino" b.ino (pushint2tbl "dev" b.dev end)))))))))))))))

  -- The switch and the table of fstat.c.
  pub fstat_type_fields : ℕ → Fields → Fields
  fstat_type_fields mode fs =
      let t = bit_and mode m.s_ifmt in
      if t == m.s_ifreg
      then pushstr2tbl "type" (string "file") fs
      else if t == m.s_ifdir
      then pushstr2tbl "type" (string "directory") fs
      else if t == m.s_iflnk
      then pushstr2tbl "type" (string "symlink") fs
      else if t == m.s_ifchr
      then pushstr2tbl "type" (string "character_device") fs
      else if t == m.s_ifblk
      then pushstr2tbl "type" (string "block_device") fs
      else if t == m.s_ifsock
      then pushstr2tbl "type" (string "socket") fs
      else if t == m.s_ififo
      then pushstr2tbl "type" (string "fifo") fs
      else fs

  pub fstat_table_of : Status → Value
  fstat_table_of b = table (
      fstat_type_fields b.mode (
        pushstr2tbl "perm" (bytes (perm_of b.mode)) (
          pushint2tbl "ctime" b.ctime (
            pushint2tbl "mtime" b.mtime (
              pushint2tbl "atime" b.atime (
                pushint2tbl "blocks" b.blocks (
                  pushint2tbl "blksize" b.blksize (
                    pushint2tbl "size" b.size (
                      pushint2tbl "rdev" b.rdev (
                        pushint2tbl "gid" b.gid (
                          pushint2tbl "uid" b.uid (
                            pushint2tbl "nlink" b.nlink (
                              pushint2tbl "mode" (pos b.mode)
                                (pushint2tbl "ino" b.ino (pushint2tbl "dev" b.dev end)))))))))))))))

  module _ (c : Conversions) where
    -- The option followsymlinks, true where it is left out.
    follow_of : List Value → Action Call Reply (Unit {0}) Bool
    follow_of args = if is_none_or_nil (arg args 2) then pure true else check_boolean args 2

    pub stat_lua : List Value → Handler
    stat_lua args = do
      path ← check_string c args 1
      follow ← follow_of args
      r ← call (if follow then stat path else lstat path)
      pure (if failed r then nil ∷ errno_object r.errno "stat" [] ∷ [] else table_of r.status ∷ [])

    -- fstat on the descriptor, and its close.
    fstat_opened : Reply → Handler
    fstat_opened o = if failed o then pure (nil ∷ errno_object o.errno "fstat" [] ∷ []) else do
      r ← call (fstat o.ret)
      closed ← call (close o.ret)
      pure (
          if failed r
          then nil ∷ errno_object closed.errno "fstat" [] ∷ []
          else fstat_table_of r.status ∷ [])

    pub fstat_lua : List Value → Handler
    fstat_lua args = do
      path ← check_string c args 1
      follow ← follow_of args
      o ← call (open_read (not follow) path)
      fstat_opened o
