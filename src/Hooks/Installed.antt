-- ===== src/Hooks/Installed.antt =====
-- Hooks that were installed are ours, and installing them again changes nothing.
use gitus.Prelude.{
  Bool, Bytes, [], ◌∷◌, ◌++◌, ◌≡◌, refl, Option, none, some, true, false, Dict, lookup,
  lookup-insert, beq, contains, has_prefix, Option-cases, codes, inl, inr, ap, same_byte, ◌||◌,
  beq_refl, sym, Bool-cases, ◌∙◌, beq→eq, is_empty,
}
use gitus.Hooks.{
  FileCalls, HookError, read_hook, is_gitus_hook, hook_problem, install_hook_file, written_aside,
  install_managed_hook, update_hook, pre_receive_hook, with_marker, first_error, calls_of,
  managed_hook_marker, installed_over, renamed_hook, then_install, read_outcome, install_both,
  with_executable, has_managed_hook, pre_receive_content, update_content, is_managed, update_rest,
  pre_receive_rest,
}
use gitus.Hooks.Kept.{install_hook_file-others}

has_prefix-nil : (s : Bytes) → has_prefix s [] ≡ true
unfolding has_prefix
has_prefix-nil [] = refl
has_prefix-nil (c ∷ s) = refl

or_true : (b : Bool) → (b || true) ≡ true
or_true true = refl
or_true false = refl

has_prefix-append : (m s : Bytes) → has_prefix (m ++ s) m ≡ true
unfolding has_prefix
has_prefix-append [] s = has_prefix-nil s
has_prefix-append (c ∷ m) s = rw (same_byte c) (has_prefix-append m s)

contains-here : (m s : Bytes) → contains (m ++ s) m ≡ true
unfolding contains
contains-here [] [] = refl
contains-here [] (c ∷ s) = refl
contains-here (c ∷ m) s = rw (has_prefix-append (c ∷ m) s) refl

contains-append : (p m s : Bytes) → contains (p ++ (m ++ s)) m ≡ true
unfolding contains
contains-append [] m s = contains-here m s
contains-append (c ∷ p) m s =
    rw (contains-append p m s) (or_true (has_prefix (c ∷ (p ++ (m ++ s))) m))

with_marker-is_gitus_hook : (s : Bytes) → is_gitus_hook (with_marker s) ≡ true
unfolding is_gitus_hook
with_marker-is_gitus_hook s =
    rw (contains-append (codes "#!/bin/sh" ++ (10 ∷ [])) managed_hook_marker (10 ∷ s)) refl

renamed_hook-set :
    (o : Option Bytes) (n content : Bytes) (hooks hooks' : Dict Bytes)
    → renamed_hook o n content hooks ≡ (none, hooks')
    → lookup n hooks' ≡ some content
unfolding renamed_hook
renamed_hook-set (some e) n content hooks hooks' h = cc (ap (λ r. r.0) h)
renamed_hook-set none n content hooks hooks' h =
    ap (lookup n) (sym (ap (λ r. r.1) h))
    ∙ (lookup-insert n n content hooks ∙ (rw (beq_refl n) refl))

installed_over-set :
    (f : FileCalls) (n content : Bytes) (hooks hooks' : Dict Bytes) (o : Option Bytes)
    → o ≡ lookup n hooks
    → installed_over f n content hooks (read_outcome none o) ≡ (none, hooks')
    → lookup n hooks' ≡ some content
unfolding installed_over written_aside
installed_over-set f n content hooks hooks' none e h =
    renamed_hook-set (first_error (calls_of f n)) n content hooks hooks' h
installed_over-set f n content hooks hooks' (some c) e h = elim (Bool-cases (beq c content)) [
  | inl t ↦
      let kept : hooks ≡ hooks' = ap (λ r. r.1) (rw t at h) in
      ap (lookup n) (sym kept) ∙ (sym e ∙ ap some (beq→eq c content t))
  | inr t ↦ renamed_hook-set (first_error (calls_of f n)) n content hooks hooks' (rw t at h)
]

install_hook_file-set :
    (f : FileCalls) (n content : Bytes) (hooks hooks' : Dict Bytes)
    → install_hook_file f n content hooks ≡ (none, hooks')
    → (f.read_file n ≡ none) × (lookup n hooks' ≡ some content)
unfolding install_hook_file read_hook
install_hook_file-set f n content hooks hooks' h = elim (Option-cases (f.read_file n)) [
  | inl r ↦ (r, installed_over-set f n content hooks hooks' (lookup n hooks) refl (rw r at h))
  | inr r ↦ cc (ap (λ p. p.0) (rw (r.1) at h))
]

-- A file that has the text already is left alone.
install_hook_file-again :
    (f : FileCalls) (n content : Bytes) (hooks : Dict Bytes)
    → f.read_file n ≡ none
    → lookup n hooks ≡ some content
    → install_hook_file f n content hooks ≡ (none, hooks)
unfolding install_hook_file read_hook installed_over
install_hook_file-again f n content hooks r l = rw (r, l, beq_refl content) refl

-- It is no problem either.
hook_problem-ours :
    (f : FileCalls) (n s : Bytes) (hooks : Dict Bytes)
    → f.read_file n ≡ none
    → lookup n hooks ≡ some (with_marker s)
    → hook_problem (read_hook f hooks n) ≡ none
unfolding read_hook
hook_problem-ours f n s hooks r l = rw (r, l, with_marker-is_gitus_hook s) refl

is_managed-ours :
    (f : FileCalls) (n s : Bytes) (hooks : Dict Bytes)
    → f.read_file n ≡ none
    → lookup n hooks ≡ some (with_marker s)
    → is_managed (read_hook f hooks n) ≡ true
unfolding read_hook
is_managed-ours f n s hooks r l = rw (r, l) (with_marker-is_gitus_hook s)

module _ (f : FileCalls) (p u : Bytes) where
  -- Both files are set.
  then_install-set :
      (r : Option HookError × Dict Bytes) (hooks hooks' : Dict Bytes)
      → install_hook_file f pre_receive_hook p hooks ≡ r
      → then_install f update_hook u r ≡ (none, hooks')
      → ((f.read_file pre_receive_hook ≡ none) × (lookup pre_receive_hook hooks' ≡ some p))
        × ((f.read_file update_hook ≡ none) × (lookup update_hook hooks' ≡ some u))
  unfolding then_install beq
  then_install-set (some e, h1) hooks hooks' a b = cc (ap (λ q. q.0) b)
  then_install-set (none, h1) hooks hooks' a b =
      let first = install_hook_file-set f pre_receive_hook p hooks h1 a in
      let second = install_hook_file-set f update_hook u h1 hooks' b in
      (
        (
          first.0,
          ap (λ (r : Option HookError × Dict Bytes). lookup pre_receive_hook r.1) (sym b)
              ∙ (install_hook_file-others f update_hook u h1 pre_receive_hook refl ∙ first.1),
        ),
        second,
      )

  -- What both checks said, when both files are set.
  install_both-set :
      (hooks hooks' : Dict Bytes) (a b : Option HookError)
      → install_both f p u hooks a b ≡ (none, hooks')
      → ((f.read_file pre_receive_hook ≡ none) × (lookup pre_receive_hook hooks' ≡ some p))
        × ((f.read_file update_hook ≡ none) × (lookup update_hook hooks' ≡ some u))
  unfolding install_both
  install_both-set hooks hooks' (some e) b h = cc (ap (λ q. q.0) h)
  install_both-set hooks hooks' none (some e) h = cc (ap (λ q. q.0) h)
  install_both-set hooks hooks' none none h =
      then_install-set (install_hook_file f pre_receive_hook p hooks) hooks hooks' refl h

  install_both-again :
      (hooks : Dict Bytes)
      → (f.read_file pre_receive_hook ≡ none) × (lookup pre_receive_hook hooks ≡ some p)
      → (f.read_file update_hook ≡ none) × (lookup update_hook hooks ≡ some u)
      → install_both f p u hooks none none ≡ (none, hooks)
  unfolding install_both
  install_both-again hooks a b =
      ap (then_install f update_hook u) (install_hook_file-again f pre_receive_hook p hooks a.0 a.1)
      ∙ install_hook_file-again f update_hook u hooks b.0 b.1

-- After an install that succeeds, the two hooks hold the texts for the executable, the configuration
-- and the repository, the update hook counts as ours, and installing once more succeeds and changes
-- nothing.
pub install_managed_hook-installed :
    (f : FileCalls) (exe config repo : Bytes) (hooks hooks' : Dict Bytes)
    → install_managed_hook f (some exe) config repo hooks ≡ (none, hooks')
    → (lookup pre_receive_hook hooks' ≡ some (pre_receive_content exe config repo))
      × (lookup update_hook hooks' ≡ some (update_content exe config repo))
      × (has_managed_hook f hooks' ≡ true)
      × (install_managed_hook f (some exe) config repo hooks' ≡ (none, hooks'))
unfolding install_managed_hook with_executable has_managed_hook
install_managed_hook-installed f exe config repo hooks hooks' h =
    elim (Bool-cases (is_empty config)) [
      | inl e ↦ cc (ap (λ q. q.0) (rw e at h))
      | inr e ↦
          let p = pre_receive_content exe config repo in
          let u = update_content exe config repo in
          let r =
            install_both-set f p u hooks hooks' (hook_problem (read_hook f hooks pre_receive_hook))
              (hook_problem (read_hook f hooks update_hook)) (rw e at h) in
          (
            r.0.1,
            r.1.1,
            is_managed-ours f update_hook (update_rest exe config repo) hooks' r.1.0 r.1.1,
            rw
                (
                  e,
                  hook_problem-ours f pre_receive_hook (pre_receive_rest exe config repo) hooks'
                      r.0.0 r.0.1,
                  hook_problem-ours f update_hook (update_rest exe config repo) hooks' r.1.0 r.1.1,
                )
                (install_both-again f p u hooks' r.0 r.1),
          )
    ]
