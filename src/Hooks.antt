-- ===== src/Hooks.antt =====
-- pkg/gitlib/hooks.go: the hooks of a repository. The directory of the hooks is a map from names to
-- contents.
pub mod Templates
pub mod Installed
pub mod Kept
pub mod Quoted
mod Tests
use gitus.Prelude.{
  Bool, Bytes, List, [], ◌∷◌, ◌++◌, Option, none, some, true, false, if◌then◌else◌, Dict, lookup,
  insert, remove, codes, beq, contains, filterb, is_empty, not, ◌==◌, ◌||◌, ◌&&◌,
}
use gitus.Hooks.Templates.{lines, update_head, update_tail, pre_receive_head, pre_receive_tail}

-- The names of git's hooks.
abbrev pub hook_list : List Bytes
hook_list =
    codes "applypatch-msg"
    ∷ codes "pre-applypatch"
    ∷ codes "post-applypatch"
    ∷ codes "pre-commit"
    ∷ codes "pre-merge-commit"
    ∷ codes "prepare-commit-msg"
    ∷ codes "commit-msg"
    ∷ codes "post-commit"
    ∷ codes "pre-rebase"
    ∷ codes "post-checkout"
    ∷ codes "post-merge"
    ∷ codes "pre-push"
    ∷ codes "pre-receive"
    ∷ codes "update"
    ∷ codes "proc-receive"
    ∷ codes "post-receive"
    ∷ codes "post-update"
    ∷ codes "reference-transaction"
    ∷ codes "push-to-checkout"
    ∷ codes "pre-auto-gc"
    ∷ codes "post-rewrite"
    ∷ codes "rebase"
    ∷ codes "sendemail-validate"
    ∷ codes "fsmonitor-watchman"
    ∷ codes "p4-changelist"
    ∷ codes "p4-prepare-changelist"
    ∷ codes "p4-post-changelist"
    ∷ codes "p4-pre-submit"
    ∷ codes "post-index-change"
    ∷ []

-- The errors of the calls on the file of a hook, by its name; `none` where the call succeeds.
-- `read_file` has the errors other than that the file does not exist.
pub record FileCalls : Type 0 where
  pub read_file : Bytes → Option Bytes
  pub open_file : Bytes → Option Bytes
  pub write_string : Bytes → Option Bytes
  pub mkdir_all : Bytes → Option Bytes
  pub create_temp : Bytes → Option Bytes
  pub close_file : Bytes → Option Bytes
  pub chmod : Bytes → Option Bytes
  pub rename : Bytes → Option Bytes
  pub remove_file : Bytes → Option Bytes

pub data HookError : Type 0 where
  unknown_config_path : HookError
  unknown_executable : HookError
  hook_not_managed : HookError
  failed_call : Bytes → HookError

-- What os.ReadFile gives.
pub data HookFile : Type 0 where
  contents : Bytes → HookFile
  missing : HookFile
  unreadable : Bytes → HookFile

abbrev pub read_outcome : Option Bytes → Option Bytes → HookFile
read_outcome (some e) c = unreadable e
read_outcome none none = missing
read_outcome none (some c) = contents c

unfoldable pub read_hook : FileCalls → Dict Bytes → Bytes → HookFile
unfolding lookup
read_hook f hooks name = read_outcome (f.read_file name) (lookup name hooks)

abbrev is_some : Option Bytes → Bool
is_some none = false
is_some (some b) = true

-- A file that can be opened is set; a file that exists can be opened where it can be read.
unfoldable pub get_all_set_hooks_name : FileCalls → Dict Bytes → List Bytes
unfolding lookup
get_all_set_hooks_name f hooks =
    filterb (λ name. is_some (lookup name hooks) && not (is_some (f.open_file name))) hook_list

abbrev pub hook_text : HookFile → Bytes × Option Bytes
hook_text (contents c) = (c, none)
hook_text missing = ([], none)
hook_text (unreadable e) = ([], some e)

unfoldable pub get_hook : FileCalls → Dict Bytes → Bytes → Bytes × Option Bytes
unfolding read_hook
get_hook f hooks name = hook_text (read_hook f hooks name)

-- Opening truncates the file, also where the writing fails then.
abbrev pub saved_hook : Option Bytes → Bytes → Bytes → Dict Bytes → Option Bytes × Dict Bytes
unfolding insert
saved_hook (some e) name content hooks = (some e, insert name [] hooks)
saved_hook none name content hooks = (none, insert name content hooks)

abbrev pub opened_hook :
    FileCalls → Option Bytes → Bytes → Bytes → Dict Bytes → Option Bytes × Dict Bytes
opened_hook f (some e) name content hooks = (some e, hooks)
opened_hook f none name content hooks = saved_hook (f.write_string name) name content hooks

unfoldable pub save_hook : FileCalls → Bytes → Bytes → Dict Bytes → Option Bytes × Dict Bytes
unfolding saved_hook
save_hook f name content hooks = opened_hook f (f.open_file name) name content hooks

abbrev pub removed_hook : Option Bytes → Bytes → Dict Bytes → Option Bytes × Dict Bytes
unfolding remove
removed_hook (some e) name hooks = (some e, hooks)
removed_hook none name hooks = (none, remove name hooks)

-- os.Remove fails for a file that does not exist; its error is a parameter.
unfoldable pub delete_hook : FileCalls → Bytes → Dict Bytes → Option Bytes × Dict Bytes
unfolding removed_hook
delete_hook f name hooks = removed_hook (f.remove_file name) name hooks

abbrev pub managed_hook_marker : Bytes
managed_hook_marker = codes "# managed by gitus"

unfoldable pub is_gitus_hook : Bytes → Bool
unfolding contains
is_gitus_hook content =
    contains content managed_hook_marker || contains content (codes "gitus web-hooks send")

abbrev pub update_hook : Bytes
update_hook = codes "update"

abbrev pub pre_receive_hook : Bytes
pre_receive_hook = codes "pre-receive"

abbrev pub is_managed : HookFile → Bool
is_managed (contents c) = is_gitus_hook c
is_managed missing = false
is_managed (unreadable e) = false

unfoldable pub has_managed_hook : FileCalls → Dict Bytes → Bool
unfolding read_hook
has_managed_hook f hooks = is_managed (read_hook f hooks update_hook)

-- A quote becomes four bytes, between two quotes.
abbrev pub quoted : Bytes → Bytes
quoted [] = []
quoted (c ∷ s) = (if c == 39 then 39 ∷ b'\\' ∷ 39 ∷ 39 ∷ [] else c ∷ []) ++ quoted s

unfoldable pub shell_quote : Bytes → Bytes
shell_quote s = 39 ∷ (quoted s ++ (39 ∷ []))

-- The first two lines of a hook.
abbrev pub with_marker : Bytes → Bytes
with_marker s = codes "#!/bin/sh" ++ (10 ∷ (managed_hook_marker ++ (10 ∷ s)))

-- What follows the first two lines.
unfoldable pub update_rest : Bytes → Bytes → Bytes → Bytes
unfolding shell_quote
update_rest exe config repo =
    (lines update_head
      ++ (shell_quote exe
          ++ (codes " -config "
              ++ (shell_quote config
                  ++ (codes " update-trigger "
                      ++ (shell_quote repo
                          ++ (codes
                                " \"$refname\" \"$newrev_type\" \"$oldrev\" \"$newrev\" >/dev/null 2>&1 || true"
                              ++ (10 ∷ lines update_tail))))))))

abbrev pub update_content : Bytes → Bytes → Bytes → Bytes
update_content exe config repo = with_marker (update_rest exe config repo)

-- What follows the first two lines.
unfoldable pub pre_receive_rest : Bytes → Bytes → Bytes → Bytes
unfolding shell_quote
pre_receive_rest exe config repo =
    (lines pre_receive_head
      ++ (codes "\tif ! "
          ++ (shell_quote exe
              ++ (codes " -config "
                  ++ (shell_quote config
                      ++ (codes " storage-check "
                          ++ (shell_quote repo
                              ++ (codes "; then" ++ (10 ∷ lines pre_receive_tail)))))))))

abbrev pub pre_receive_content : Bytes → Bytes → Bytes → Bytes
pre_receive_content exe config repo = with_marker (pre_receive_rest exe config repo)

-- The check of one hook before any is written.
abbrev pub hook_problem : HookFile → Option HookError
hook_problem (contents c) = if not (is_gitus_hook c) then some hook_not_managed else none
hook_problem missing = none
hook_problem (unreadable e) = some (failed_call e)

abbrev pub first_error : List (Option Bytes) → Option Bytes
first_error [] = none
first_error (none ∷ es) = first_error es
first_error (some e ∷ es) = some e

abbrev pub renamed_hook : Option Bytes → Bytes → Bytes → Dict Bytes → Option HookError × Dict Bytes
unfolding insert
renamed_hook (some e) name content hooks = (some (failed_call e), hooks)
renamed_hook none name content hooks = (none, insert name content hooks)

-- The calls that write the file aside, in their order.
abbrev pub calls_of : FileCalls → Bytes → List (Option Bytes)
calls_of f name =
    f.mkdir_all name
    ∷ f.create_temp name
    ∷ f.write_string name
    ∷ f.close_file name
    ∷ f.chmod name
    ∷ f.rename name
    ∷ []

-- The file takes its name when all calls have succeeded.
unfoldable pub written_aside :
    FileCalls → Bytes → Bytes → Dict Bytes → Option HookError × Dict Bytes
unfolding renamed_hook
written_aside f name content hooks = renamed_hook (first_error (calls_of f name)) name content hooks

abbrev pub installed_over :
    FileCalls → Bytes → Bytes → Dict Bytes → HookFile → Option HookError × Dict Bytes
unfolding written_aside
installed_over f name content hooks (contents c) =
    if beq c content then (none, hooks) else written_aside f name content hooks
installed_over f name content hooks missing = written_aside f name content hooks
installed_over f name content hooks (unreadable e) = (some (failed_call e), hooks)

unfoldable pub install_hook_file :
    FileCalls → Bytes → Bytes → Dict Bytes → Option HookError × Dict Bytes
unfolding installed_over read_hook
install_hook_file f name content hooks =
    installed_over f name content hooks (read_hook f hooks name)

abbrev pub then_install :
    FileCalls → Bytes → Bytes → Option HookError × Dict Bytes → Option HookError × Dict Bytes
unfolding install_hook_file
then_install f name content (some e, hooks) = (some e, hooks)
then_install f name content (none, hooks) = install_hook_file f name content hooks

-- The second hook is checked where the first has no problem, and written where the first was.
abbrev pub install_both :
    FileCalls
    → Bytes
    → Bytes
    → Dict Bytes
    → Option HookError
    → Option HookError
    → Option HookError × Dict Bytes
unfolding install_hook_file then_install
install_both f pre_receive update hooks (some e) problem = (some e, hooks)
install_both f pre_receive update hooks none (some e) = (some e, hooks)
install_both f pre_receive update hooks none none =
    then_install f update_hook update (install_hook_file f pre_receive_hook pre_receive hooks)

abbrev pub with_executable :
    FileCalls → Option Bytes → Bytes → Bytes → Dict Bytes → Option HookError × Dict Bytes
unfolding install_both read_hook
with_executable f none config repo hooks = (some unknown_executable, hooks)
with_executable f (some exe) config repo hooks =
    install_both f (pre_receive_content exe config repo) (update_content exe config repo) hooks
      (hook_problem (read_hook f hooks pre_receive_hook))
      (hook_problem (read_hook f hooks update_hook))

-- By the path of the executable, the path of the configuration and the name of the repository.
unfoldable pub install_managed_hook :
    FileCalls → Option Bytes → Bytes → Bytes → Dict Bytes → Option HookError × Dict Bytes
unfolding with_executable
install_managed_hook f exe config repo hooks =
    if is_empty config
    then (some unknown_config_path, hooks)
    else with_executable f exe config repo hooks
