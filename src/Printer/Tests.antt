-- ===== src/Printer/Tests.antt =====
-- Formats and lines.
use lua_testcase.Common.{List, [], ◌∷◌, none, some, ◌≡◌, refl}
use lua_testcase.Lua.Format.{bytes_of}
use lua_testcase.Printer.{parse_format, parse_loop, step, printline, print_lines, find_newline}
use lua_testcase.Printer.Formats.{Piece, plain, escape, specifier, render}

-- "failed to load %q: 100%% of %s"
abbrev pieces : List Piece
pieces =
    plain (bytes_of "failed to load ")
    ∷ specifier b'q' (b':' ∷ [])
    ∷ plain (bytes_of "100")
    ∷ escape
    ∷ plain (bytes_of " of ")
    ∷ []

renders : render pieces ≡ bytes_of "failed to load %q: 100%% of "
renders = refl

params :
    parse_format (bytes_of "failed to load %q: 100%% of %s")
    ≡ (2, (b'q' ∷ [], 1) ∷ (b's' ∷ [], 2) ∷ [])
unfolding parse_format parse_loop step
params = refl

-- Specifiers that no space divides are not found.
not_found : parse_format (bytes_of "%d,%d") ≡ (0, [])
unfolding parse_format parse_loop step
not_found = refl

writes :
    printline (some (bytes_of "> ")) none (bytes_of "a\n\nb")
    ≡ some (
        bytes_of "> "
        ∷ bytes_of "a"
        ∷ (b'\n' ∷ [])
        ∷ bytes_of "> "
        ∷ []
        ∷ (b'\n' ∷ [])
        ∷ bytes_of "> "
        ∷ bytes_of "b"
        ∷ [])
unfolding printline print_lines find_newline
writes = refl
