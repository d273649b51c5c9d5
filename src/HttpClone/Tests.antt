-- ===== src/HttpClone/Tests.antt =====
-- The routes at one repository, whose git directory is /g/re.git.
use gitus.Prelude.{
  Bytes, [], codes, some, none, ◌≡◌, false, refl, true, beq, has_prefix, join, split,
}
use gitus.HttpClone.{
  Env, Request, found, object, BodyRead, CloneLimiter, Found, get_info, handle, find_repository,
  get_object, content, effective_global_visibility_at, served, valid_repository_name, file_under,
  path_clean,
}
use gitus.Config.Samples.{forge_config}
use gitus.HttpClone.Public.{IsOpen, handle-IsOpen}
use gitus.HttpClone.Files.{IsFileOf, get_object-IsFileOf}
use gitus.CloneLimiter.{CloneLimiter}
use gitus.Model.Samples.{public_ns, public_repo}
use gitus.Config.{effective_global_visibility_at, is_in_browse_only_mode}
use gitus.Model.Names.{
  valid_repository_name, valid_strict_repository_name, valid_from, is_name_byte,
}
use gitus.FilePaths.{path_clean, path_join, path_rel, base_components, components, strip_common}

abbrev re : Found
re = record { namespace = public_ns; repository = public_repo; git_directory = codes "/g/re.git" }

abbrev env : Env
env = record {
  config = forge_config;
  now = 0;
  resolve = λ name. found re;
  run_git = λ dir option input. some (codes "pack");
  read_file = λ file. content file;
  update_server_info = λ dir. true;
}

abbrev get : Bytes → Request
get path = record {
  repo_name = codes "ns:re";
  path = path;
  service = none;
  body = BodyRead.body [];
  cancelled = false;
}

abbrev blob : Bytes
blob = codes "/g/re.git/objects/a"

got_object : (handle object env (get (codes "a")) none).0 ≡ served blob
unfolding handle get_object find_repository effective_global_visibility_at valid_repository_name
    valid_strict_repository_name valid_from is_name_byte beq is_in_browse_only_mode file_under
    path_clean path_join path_rel base_components components strip_common has_prefix join split
got_object = refl

handle-IsOpen_example : IsOpen env (get (codes "a"))
handle-IsOpen_example = handle-IsOpen object env (get (codes "a")) none blob got_object

got_object_alone : (get_object env (get (codes "a")) none).0 ≡ served blob
unfolding handle
got_object_alone = got_object

get_object-IsFileOf_example : IsFileOf env (get (codes "a")) blob
get_object-IsFileOf_example = get_object-IsFileOf env (get (codes "a")) none blob got_object_alone

abbrev refs : Bytes
refs = codes "/g/re.git/info/refs"

got_refs : (get_info env (get (codes "refs")) none).0 ≡ served refs
unfolding get_info find_repository effective_global_visibility_at valid_repository_name
    valid_strict_repository_name valid_from is_name_byte beq is_in_browse_only_mode file_under
    path_clean path_join path_rel base_components components strip_common has_prefix join split
got_refs = refl

abbrev one_slot : CloneLimiter
one_slot = record { capacity = 1; used = 0 }
