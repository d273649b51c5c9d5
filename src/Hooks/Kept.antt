-- ===== src/Hooks/Kept.antt =====
-- A hook of somebody else is never overwritten, and what is installed stays as it is.
use gitus.Prelude.{
  Bytes, ◌≡◌, refl, Option, none, some, true, false, Dict, lookup, lookup-insert, beq, Option-cases,
  Bool-cases, inl, inr, is_empty, ◌∙◌, ◌⊎◌, ap, beq→eq,
}
use gitus.Hooks.{
  FileCalls, HookError, HookFile, contents, missing, unreadable, read_hook, is_gitus_hook,
  hook_problem, install_hook_file, written_aside, install_managed_hook, update_hook,
  pre_receive_hook, install_both, installed_over, then_install, first_error, hook_not_managed,
  failed_call, calls_of, with_executable, pre_receive_content, unknown_config_path,
  unknown_executable, update_content,
}

-- What installing one file leaves of the others.
written_aside-others :
    (f : FileCalls) (n content : Bytes) (hooks : Dict Bytes) (j : Bytes)
    → beq n j ≡ false
    → lookup j (written_aside f n content hooks).1 ≡ lookup j hooks
unfolding written_aside
written_aside-others f n content hooks j h = elim (Option-cases (first_error (calls_of f n))) [
  | inl e ↦ rw e (lookup-insert n j content hooks ∙ (rw h refl))
  | inr e ↦ rw e.1 refl
]

installed_over-others :
    (f : FileCalls) (n content : Bytes) (hooks : Dict Bytes) (r : HookFile) (j : Bytes)
    → beq n j ≡ false
    → lookup j (installed_over f n content hooks r).1 ≡ lookup j hooks
unfolding installed_over
installed_over-others f n content hooks (contents c) j h = elim (Bool-cases (beq c content)) [
  | inl e ↦ rw e refl
  | inr e ↦ rw e (written_aside-others f n content hooks j h)
]
installed_over-others f n content hooks missing j h = written_aside-others f n content hooks j h
installed_over-others f n content hooks (unreadable e) j h = refl

pub install_hook_file-others :
    (f : FileCalls) (n content : Bytes) (hooks : Dict Bytes) (j : Bytes)
    → beq n j ≡ false
    → lookup j (install_hook_file f n content hooks).1 ≡ lookup j hooks
unfolding install_hook_file
install_hook_file-others f n content hooks j h =
    installed_over-others f n content hooks (read_hook f hooks n) j h

then_install-others :
    (f : FileCalls) (n content : Bytes) (r : Option HookError × Dict Bytes) (j : Bytes)
    → beq n j ≡ false
    → lookup j (then_install f n content r).1 ≡ lookup j r.1
unfolding then_install
then_install-others f n content (some e, hooks) j h = refl
then_install-others f n content (none, hooks) j h = install_hook_file-others f n content hooks j h

-- A hook that is not ours is a problem.
foreign-problem :
    (f : FileCalls) (hooks : Dict Bytes) (n c : Bytes)
    → lookup n hooks ≡ some c
    → is_gitus_hook c ≡ false
    → (e : HookError) × (hook_problem (read_hook f hooks n) ≡ some e)
unfolding read_hook
foreign-problem f hooks n c l g = elim (Option-cases (f.read_file n)) [
  | inl r ↦ (hook_not_managed, rw (r, l, g) refl)
  | inr r ↦ (failed_call r.0, rw (r.1) refl)
]

none-some : ((e : HookError) × ◌≡◌ {A = Option HookError} none (some e)) → ⊥
none-some (e, h) = cc

-- The two hooks, for what the checks of them say.
install_both-keeps :
    (f : FileCalls) (p u : Bytes) (hooks : Dict Bytes) (a b : Option HookError) (j c : Bytes)
    → lookup j hooks ≡ some c
    → (beq pre_receive_hook j ≡ true → (e : HookError) × (a ≡ some e))
    → (beq update_hook j ≡ true → (e : HookError) × (b ≡ some e))
    → lookup j (install_both f p u hooks a b).1 ≡ some c
unfolding install_both
install_both-keeps f p u hooks (some e) b j c l x y = l
install_both-keeps f p u hooks none (some e) j c l x y = l
install_both-keeps f p u hooks none none j c l x y = elim (Bool-cases (beq pre_receive_hook j)) [
  | inl h ↦ absurd (none-some (x h))
  | inr h ↦ elim (Bool-cases (beq update_hook j)) [
    | inl k ↦ absurd (none-some (y k))
    | inr k ↦
        then_install-others f update_hook u (install_hook_file f pre_receive_hook p hooks) j k
        ∙ (install_hook_file-others f pre_receive_hook p hooks j h ∙ l)
  ]
]

with_executable-keeps :
    (f : FileCalls) (exe : Option Bytes) (config repo : Bytes) (hooks : Dict Bytes) (name c : Bytes)
    → lookup name hooks ≡ some c
    → is_gitus_hook c ≡ false
    → lookup name (with_executable f exe config repo hooks).1 ≡ some c
unfolding with_executable
with_executable-keeps f none config repo hooks name c l g = l
with_executable-keeps f (some exe) config repo hooks name c l g =
    install_both-keeps f (pre_receive_content exe config repo) (update_content exe config repo)
      hooks (hook_problem (read_hook f hooks pre_receive_hook))
      (hook_problem (read_hook f hooks update_hook)) name c l
      (λ h.
        foreign-problem f hooks pre_receive_hook c
          (ap (λ n. lookup n hooks) (beq→eq pre_receive_hook name h) ∙ l) g)
      (λ h.
        foreign-problem f hooks update_hook c
          (ap (λ n. lookup n hooks) (beq→eq update_hook name h) ∙ l) g)

-- Whatever the calls on files give, installing leaves every hook that is not one of ours as it is.
pub install_managed_hook-keeps :
    (f : FileCalls) (exe : Option Bytes) (config repo : Bytes) (hooks : Dict Bytes) (name c : Bytes)
    → lookup name hooks ≡ some c
    → is_gitus_hook c ≡ false
    → lookup name (install_managed_hook f exe config repo hooks).1 ≡ some c
unfolding install_managed_hook
install_managed_hook-keeps f exe config repo hooks name c l g =
    elim (Bool-cases (is_empty config)) [
      | inl h ↦ rw h l
      | inr h ↦ rw h (with_executable-keeps f exe config repo hooks name c l g)
    ]

-- One hook that is not ours: neither of the two is written.
both-foreign :
    (f : FileCalls) (p u : Bytes) (hooks : Dict Bytes) (a b : Option HookError)
    → ((e : HookError) × (a ≡ some e)) ⊎ ((e : HookError) × (b ≡ some e))
    → (e : HookError) × (install_both f p u hooks a b ≡ (some e, hooks))
unfolding install_both
both-foreign f p u hooks (some e) b h = (e, refl)
both-foreign f p u hooks none (some e) h = (e, refl)
both-foreign f p u hooks none none (inl h) = absurd (none-some h)
both-foreign f p u hooks none none (inr h) = absurd (none-some h)

executable-foreign :
    (f : FileCalls) (exe : Option Bytes) (config repo : Bytes) (hooks : Dict Bytes) (c : Bytes)
    → (lookup pre_receive_hook hooks ≡ some c) ⊎ (lookup update_hook hooks ≡ some c)
    → is_gitus_hook c ≡ false
    → (e : HookError) × (with_executable f exe config repo hooks ≡ (some e, hooks))
unfolding with_executable
executable-foreign f none config repo hooks c l g = (unknown_executable, refl)
executable-foreign f (some exe) config repo hooks c (inl l) g =
    both-foreign f (pre_receive_content exe config repo) (update_content exe config repo) hooks
      (hook_problem (read_hook f hooks pre_receive_hook))
      (hook_problem (read_hook f hooks update_hook))
      (inl (foreign-problem f hooks pre_receive_hook c l g))
executable-foreign f (some exe) config repo hooks c (inr l) g =
    both-foreign f (pre_receive_content exe config repo) (update_content exe config repo) hooks
      (hook_problem (read_hook f hooks pre_receive_hook))
      (hook_problem (read_hook f hooks update_hook))
      (inr (foreign-problem f hooks update_hook c l g))

-- Where one of the two hooks exists and is not ours, installing fails and no hook changes.
pub install_managed_hook-foreign :
    (f : FileCalls) (exe : Option Bytes) (config repo : Bytes) (hooks : Dict Bytes) (c : Bytes)
    → (lookup pre_receive_hook hooks ≡ some c) ⊎ (lookup update_hook hooks ≡ some c)
    → is_gitus_hook c ≡ false
    → (e : HookError) × (install_managed_hook f exe config repo hooks ≡ (some e, hooks))
unfolding install_managed_hook
install_managed_hook-foreign f exe config repo hooks c l g = elim (Bool-cases (is_empty config)) [
  | inl h ↦ (unknown_config_path, rw h refl)
  | inr h ↦ rw h (executable-foreign f exe config repo hooks c l g)
]
