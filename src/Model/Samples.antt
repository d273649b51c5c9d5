-- ===== src/Model/Samples.antt =====
-- A public repository for the tests.
use gitus.Prelude.{codes, none}
use gitus.Model.{Repository, Namespace, repo_type_git, namespace_normal_public, repo_normal_public}

abbrev pub public_repo : Repository
public_repo = record {
  repo_type = repo_type_git;
  namespace = codes "ns";
  name = codes "re";
  access_control_list = none;
  owner = codes "bob";
  status = repo_normal_public;
}

abbrev pub public_ns : Namespace
public_ns = record {
  name = codes "ns";
  owner = codes "ann";
  status = namespace_normal_public;
  acl = none;
}
