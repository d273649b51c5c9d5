-- ===== src/Hooks/Tests.antt =====
-- Tests of the hooks, with calls on files that all succeed.
use gitus.Prelude.{
  codes, Bytes, Dict, lookup, none, ◌++◌, insert, some, ◌∷◌, ◌≡◌, [], false, refl, true, beq,
}
use gitus.Hooks.{
  FileCalls, install_managed_hook, shell_quote, pre_receive_content, update_content, is_gitus_hook,
  pre_receive_hook, update_hook, has_managed_hook,
}
use gitus.Hooks.Quoted.{shell_word, outside, shell_word-shell_quote}
use gitus.Hooks.Kept.{install_managed_hook-keeps}
use gitus.Hooks.Installed.{install_managed_hook-installed}

abbrev calls : FileCalls
calls = record {
  read_file = λ n. none;
  open_file = λ n. none;
  write_string = λ n. none;
  mkdir_all = λ n. none;
  create_temp = λ n. none;
  close_file = λ n. none;
  chmod = λ n. none;
  rename = λ n. none;
  remove_file = λ n. none;
}

abbrev exe : Bytes
exe = codes "/bin/gitus"

abbrev config : Bytes
config = codes "/etc/it's"

abbrev hooks : Dict Bytes
hooks = (codes "update", codes "mine") ∷ []

abbrev written : Dict Bytes
written =
    (codes "pre-receive", pre_receive_content exe config (codes "a:b"))
    ∷ (codes "update", update_content exe config (codes "a:b"))
    ∷ []

two_written : install_managed_hook calls (some exe) config (codes "a:b") [] ≡ (none, written)
unfolding install_managed_hook lookup insert beq
two_written = refl

mine_kept : lookup (codes "update") hooks ≡ some (codes "mine")
unfolding lookup beq
mine_kept = refl

mine_foreign : is_gitus_hook (codes "mine") ≡ false
unfolding is_gitus_hook
mine_foreign = refl

install_managed_hook-keeps_example :
    lookup (codes "update") (install_managed_hook calls (some exe) config (codes "a:b") hooks).1
    ≡ some (codes "mine")
install_managed_hook-keeps_example =
    install_managed_hook-keeps calls (some exe) config (codes "a:b") hooks (codes "update")
      (codes "mine") mine_kept mine_foreign

install_managed_hook-installed_example :
    (lookup pre_receive_hook written ≡ some (pre_receive_content exe config (codes "a:b")))
    × (lookup update_hook written ≡ some (update_content exe config (codes "a:b")))
    × (has_managed_hook calls written ≡ true)
    × (install_managed_hook calls (some exe) config (codes "a:b") written ≡ (none, written))
install_managed_hook-installed_example =
    install_managed_hook-installed calls exe config (codes "a:b") [] written two_written

shell_word-shell_quote_example :
    shell_word outside (shell_quote config ++ codes " update-trigger")
    ≡ some (config, codes " update-trigger")
shell_word-shell_quote_example = shell_word-shell_quote config b' ' (codes "update-trigger") refl
