-- ===== src/ShellParse/Tests.antt =====
-- ParseShellCommand at concrete lines.
use gitus.Prelude.{Bytes, Free, arith, codes, beq, ◌≡◌, ◌≢◌, done, join, no_fuel, ◌∷◌, [], refl}
use gitus.ShellParse.{is_white_space, parse_shell_command, quote}
use gitus.ShellParse.Scan.{is_quote}
use gitus.ShellParse.Words.{IsWord, parse_shell_command-words}
use gitus.ShellParse.Quoted.{quoted}
use gitus.ShellParse.Totality.{parse_shell_command_total}

-- `git` `gc` and a path
abbrev pack : Bytes
pack = codes "git-upload-pack"

abbrev path : Bytes
path = codes "ns/re"

pack-IsWord : IsWord pack
unfolding is_white_space
pack-IsWord = ground arith

path-IsWord : IsWord path
unfolding is_white_space
path-IsWord = ground arith

path-Free : Free is_quote path
path-Free = ground arith

parse_shell_command-words_example :
    parse_shell_command (codes "git-upload-pack ns/re") ≡ done (pack ∷ path ∷ [])
parse_shell_command-words_example =
    parse_shell_command-words pack (path ∷ []) pack-IsWord (path-IsWord, tt)

parse_shell_command_total_example : parse_shell_command (codes "git 'a") ≢ no_fuel
parse_shell_command_total_example = parse_shell_command_total (codes "git 'a")

-- An argument that Quote has escaped is not read back: the escape ends the argument.
quote_not_read :
    parse_shell_command (quoted (quote (codes "a'b"))) ≡ done (codes "a" ∷ codes "\\''b'" ∷ [])
unfolding parse_shell_command quote is_white_space beq join
quote_not_read = refl
