-- ===== src/Ssh/NoLogin.antt =====
-- HandleSSHLogin with the context that cmd/gitus/main.go builds for it, which has no login info.
use gitus.Prelude.{
  Bytes, ◌≡◌, arith, some, true, false, none, refl, ◌⊎◌, inl, inr, beq_refl, Bool, beq, not, ◌&&◌,
  Option, beq→eq, ◌↔◌,
}
use gitus.Config.{
  is_in_host_mode, is_in_browse_only_mode, effective_global_visibility_at, global_visibility_public,
  global_visibility_private,
}
use gitus.Ssh.{
  Env, pass, crash, handle_ssh_login, Request, read_request, handle_ssh_forge_mode, authenticate,
  get_authorized_key,
}

-- The site is public or private, so logins over SSH are served.
abbrev pub IsServed : Env → Type 0
IsServed e =
    (effective_global_visibility_at e.config e.now ≡ global_visibility_public)
    ⊎ (effective_global_visibility_at e.config e.now ≡ global_visibility_private)

-- The database has a key for the user under the name, and, where the keys are kept in a file, it is the
-- key that the file has there.
pub record IsKnownKey (e : Env) (username keyname : Bytes) : Type 0 where
  pub key : Bytes
  pub in_database : e.get_auth_key_by_name username keyname ≡ some key
  pub in_file :
      e.config.uses_authorized_keys_command ≡ false
      → get_authorized_key e.managed username keyname ≡ key

module _ (e : Env) (username keyname : Bytes) where
  served :
      IsServed e
      → not (beq (effective_global_visibility_at e.config e.now) global_visibility_public)
          && not (beq (effective_global_visibility_at e.config e.now) global_visibility_private)
        ≡ false
  unfolding beq
  served (inl h) = rw h refl
  served (inr h) = rw h refl

  intact :
      (k : IsKnownKey e username keyname) (b : Bool)
      → e.config.uses_authorized_keys_command ≡ b
      → not b && not (beq (get_authorized_key e.managed username keyname) k.key) ≡ false
  intact k true h = refl
  intact k false h = rw (k.in_file h, beq_refl k.key) refl

  authenticated :
      IsServed e → IsKnownKey e username keyname → authenticate e username keyname ≡ pass tt
  unfolding authenticate
  authenticated s k = rw (served s, k.in_database, intact k _ refl) refl

  passed :
      is_in_host_mode e.config ≡ false
      → is_in_browse_only_mode e.config ≡ false
      → handle_ssh_login e username keyname ≡ crash
      → authenticate e username keyname ≡ pass tt
  unfolding handle_ssh_login handle_ssh_forge_mode authenticate
  passed m b h = ground arith

  authenticate-IsServed :
      (b c : Bool)
      → beq (effective_global_visibility_at e.config e.now) global_visibility_public ≡ b
      → beq (effective_global_visibility_at e.config e.now) global_visibility_private ≡ c
      → authenticate e username keyname ≡ pass tt
      → IsServed e
  unfolding authenticate
  authenticate-IsServed true c p q h = inl (beq→eq _ _ p)
  authenticate-IsServed false true p q h = inr (beq→eq _ _ q)
  authenticate-IsServed false false p q h = absurd (ground arith)

  authenticate-IsKnownKey :
      (o : Option Bytes)
      → e.get_auth_key_by_name username keyname ≡ o
      → authenticate e username keyname ≡ pass tt
      → IsKnownKey e username keyname
  unfolding authenticate
  authenticate-IsKnownKey none p h = absurd (ground arith)
  authenticate-IsKnownKey (some key) p h = record {
    key = key;
    in_database = p;
    in_file = λ u. beq→eq (get_authorized_key e.managed username keyname) key (ground arith);
  }

  -- With no login info, in neither host mode nor browse-only mode, a request that is read (its command
  -- is one of git's, its repository and namespace are found, and it is no push to an archived
  -- repository) ends in a nil dereference exactly if the site serves logins and the key is known:
  -- the database has it, and where keys are kept in a file, the file has the same.
  pub handle_ssh_login-crash :
      (q : Request)
      → is_in_host_mode e.config ≡ false
      → is_in_browse_only_mode e.config ≡ false
      → e.login_info ≡ none
      → read_request e ≡ pass q
      → (handle_ssh_login e username keyname ≡ crash) ↔ (IsServed e × IsKnownKey e username keyname)
  unfolding handle_ssh_login handle_ssh_forge_mode
  handle_ssh_login-crash q m b l r = (
    λ h.
        let a = passed m b h in
        (authenticate-IsServed _ _ refl refl a, authenticate-IsKnownKey _ refl a),
    λ k. rw (m, b, authenticated k.0 k.1, r, l) refl,
  )
