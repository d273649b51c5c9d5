-- ===== src/Storage/Tests.antt =====
-- A push of two files and a link, with new objects in a quarantine directory outside the repository.
use gitus.Prelude.{
  codes, Bytes, true, ◌≡◌, List, refl, some, if◌then◌else◌, arith, beq, ◌∷◌, [], subst, sym,
}
use gitus.Storage.{
  Surroundings, handle_storage_check, refused, DirEntry, found, local, file, other, is_outside,
  sum_files, split_repo_full_name,
}
use gitus.Storage.Measured.{refusal, over, measured, handle_storage_check-over, Fits}
use gitus.HttpClone.{found}

abbrev files : Bytes → List DirEntry
files p = if beq p (codes "/q") then file 40 ∷ [] else file 30 ∷ other ∷ file 31 ∷ []

abbrev surroundings : Surroundings
surroundings = record {
  repository_size_limit = 100;
  use_namespace = true;
  get_repository_by_name = some (λ ns name. found (local name));
  walk_dir = files;
  rel_path = λ dir p. some (codes "../q");
  quarantine_path = codes "/q";
}

refused_by_one :
    handle_storage_check surroundings (codes "a:b") ≡ refused (record { size = 101; limit = 100 })
unfolding handle_storage_check sum_files is_outside
refused_by_one = refl

measured_size : measured surroundings (codes "a:b") ≡ some 101
unfolding is_outside split_repo_full_name
measured_size = refl

handle_storage_check-over_example :
    refusal (handle_storage_check surroundings (codes "a:b"))
    ≡ over 100 (measured surroundings (codes "a:b"))
handle_storage_check-over_example =
    handle_storage_check-over surroundings (codes "a:b") (ground arith)
      (subst Fits (sym measured_size) (ground arith))
