-- ===== src/Lua/Format.antt =====
-- Texts as their bytes, and lua_pushfstring with "%p".
use Prim.Native.Char.{code}
use lua_testcase.Common.{ℕ, List, [], ◌∷◌, ◌++◌, String}
use lua_testcase.Lua.{Value, bytes}

-- The bytes of an ASCII text.
abbrev pub bytes_of : String → List ℕ
bytes_of String.[] = []
bytes_of (String.◌∷◌ c s) = code c ∷ bytes_of s

-- lua_pushfstring(L, name ": %p", p), with what the system prints of the pointer.
abbrev pub pointer_text : String → List ℕ → Value
pointer_text name pointer = bytes (bytes_of name ++ (b':' ∷ b' ' ∷ pointer))
