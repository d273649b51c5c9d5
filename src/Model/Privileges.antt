-- ===== src/Model/Privileges.antt =====
-- What the privileges of a repository and its namespace allow in the web interface.
use gitus.Prelude.{Option, ◌≡◌, true, arith, none}
use gitus.Model.{
  LoginInfo, Namespace, Repository, can_modify_repository_refs, can_edit_repository_settings,
  Option, true, some, none,
}

-- Whoever may edit the settings of a repository may also create and delete its branches and tags.
pub can_edit-can_modify :
    (l : Option LoginInfo) (ns : Option Namespace) (repo : Repository)
    → can_edit_repository_settings l ns repo ≡ true
    → can_modify_repository_refs l ns repo ≡ true
unfolding can_modify_repository_refs can_edit_repository_settings
can_edit-can_modify none ns repo h = cc
can_edit-can_modify (some l) ns repo h = ground arith
