-- ===== src/Submodules/Tests.antt =====
-- URLs of submodules.
use gitus.Submodules.{
  resolve_submodule_url, resolved, elsewhere, suggested_git_url, is_gitus_full_name, relative_url,
  named_url, trim_git, has_suffix, path_base, trim_slashes, before_query, is_scp_like,
}
use gitus.Submodules.Suggested.{resolve_submodule_url-suggested_git_url}
use gitus.Prelude.{
  codes, ◌≡◌, refl, Bytes, beq, contains, has_prefix, trim_space, trim_left, is_space, cut, split,
}

abbrev abc : Bytes
abc = codes "abc"

by_name :
    resolve_submodule_url abc (codes "../ghi.git") ≡ resolved (codes "../ghi.git") (codes "abc:ghi")
unfolding resolve_submodule_url relative_url named_url trim_git has_suffix path_base trim_slashes
    before_query is_scp_like is_gitus_full_name suggested_git_url beq contains has_prefix trim_space
    trim_left is_space cut split
by_name = refl

of_a_shell : resolve_submodule_url abc (codes "git@host:x/y") ≡ elsewhere (codes "git@host:x/y")
unfolding resolve_submodule_url relative_url named_url trim_git has_suffix path_base trim_slashes
    before_query is_scp_like is_gitus_full_name suggested_git_url beq contains has_prefix trim_space
    trim_left is_space cut split
of_a_shell = refl

-- A full name keeps its suffix, and its suggestion loses it.
with_suffix :
    resolve_submodule_url abc (suggested_git_url (resolve_submodule_url abc (codes "d:g.git")))
    ≡ resolved (codes "../d:g.git") (codes "d:g")
unfolding resolve_submodule_url relative_url named_url trim_git has_suffix path_base trim_slashes
    before_query is_scp_like is_gitus_full_name suggested_git_url beq contains has_prefix trim_space
    trim_left is_space cut split
with_suffix = refl

resolve_submodule_url-suggested_git_url_example :
    resolve_submodule_url
      (codes "x")
      (suggested_git_url (resolve_submodule_url abc (codes "../ghi.git")))
    ≡ resolved
        (suggested_git_url (resolve_submodule_url abc (codes "../ghi.git")))
        (resolve_submodule_url abc (codes "../ghi.git")).full_name
unfolding resolve_submodule_url relative_url named_url trim_git has_suffix path_base trim_slashes
    before_query is_scp_like is_gitus_full_name suggested_git_url beq contains has_prefix trim_space
    trim_left is_space cut split
resolve_submodule_url-suggested_git_url_example =
    resolve_submodule_url-suggested_git_url abc (codes "x") (codes "../ghi.git") refl refl
