-- ===== src/Stat/Tests.antt =====
-- src/stat.c and src/fstat.c against a small system, and their theorems at concrete inputs.
use lua_testcase.Lua.Plain.{plain}
use lua_testcase.Stat.Descriptors.{opened, UsesOpen, fstat_lua_closes}
use lua_testcase.Lua.Run.{Kernel, returned}
use lua_testcase.Common.{List, [], ◌≡◌, ◌∷◌, refl, false}
use lua_testcase.Lua.{Value, string, field_of, boolean}
use lua_testcase.Common.Int.{pos}
use lua_testcase.Stat.{
  Modes, Status, perm_of, format_octal, stat_lua, fstat_lua, table_of, follow_of, type_fields, Call,
  Reply, open_read,
}

abbrev linux : Modes
linux = record {
  s_ifmt = 61440;
  s_ifreg = 32768;
  s_ifdir = 16384;
  s_iflnk = 40960;
  s_ifchr = 8192;
  s_ifblk = 24576;
  s_ifsock = 49152;
  s_ififo = 4096;
}

abbrev a_status : Status
a_status = record {
  dev = pos 1;
  ino = pos 2;
  mode = 33188;
  nlink = pos 1;
  uid = pos 0;
  gid = pos 0;
  rdev = pos 0;
  size = pos 17;
  blksize = pos 4096;
  blocks = pos 8;
  atime = pos 100;
  mtime = pos 101;
  ctime = pos 102;
}

-- One file, opened as descriptor 3.
abbrev one_file : Kernel Call Reply
one_file t (open_read n p) = record { ret = pos 3; errno = 0; status = a_status }
one_file t c = record { ret = pos 0; errno = 0; status = a_status }

abbrev path_and_follow : List Value
path_and_follow = string "a" ∷ boolean false ∷ []

a_file :
    (stat_lua linux plain path_and_follow one_file tt []).0
    ≡ returned (table_of linux a_status ∷ [])
unfolding stat_lua follow_of
a_file = refl

its_type : field_of "type" (table_of linux a_status) ≡ string "file"
unfolding table_of type_fields
its_type = refl

its_perm : perm_of 33188 ≡ b'0' ∷ b'6' ∷ b'4' ∷ b'4' ∷ []
unfolding perm_of format_octal
its_perm = refl

fstat_lua_closes_example :
    let (_, _, t) = fstat_lua linux plain path_and_follow one_file tt [] in
    (opened t ≡ []) × UsesOpen t
fstat_lua_closes_example = fstat_lua_closes linux plain one_file path_and_follow
