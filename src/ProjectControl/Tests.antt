-- ===== src/ProjectControl/Tests.antt =====
-- worker/scripting_engine/project_control.cpp: a file of a project.
use minide.Base.{◌≡◌, refl, Option, some, [], ◌∷◌, Bytes, codes, pos, bytes_eq}
use minide.Base.Dict.{find, put}
use minide.HashedFile.{Files}
use minide.Router.Handler.{Client}
use minide.ProjectControl.{get_min_ide_directory, read_project_file, save_project_file}
use minide.ProjectControl.Files.{read_project_file-save}
use minide.Samples.{sample_json, sample_access, sample_access-KeepsFiles}

abbrev client : Option (Client Bytes)
client = some (record {
  root = codes "/w";
  active_project = codes "/w/p";
  data_id = pos 1;
  control_id = pos 2;
})

abbrev before : Files
before = (codes "/w/p/.minIDE", []) ∷ []

abbrev after : Files
after = (codes "/w/p/.minIDE", []) ∷ (codes "/w/p/.minIDE/a", codes "{}") ∷ []

saves :
    save_project_file sample_json sample_access client (codes "a") (codes "{}") before
    ≡ (pos 0, after)
unfolding save_project_file get_min_ide_directory find put bytes_eq
saves = refl

read_project_file-save_example :
    (j : Bytes) × (sample_json.parse (codes "{}") ≡ some j)
    × (read_project_file sample_json sample_access client (codes "a") after ≡ sample_json.dump j)
read_project_file-save_example =
    read_project_file-save sample_json sample_access client sample_access-KeepsFiles (codes "a")
      (codes "{}") before after saves (unfold get_min_ide_directory find bytes_eq in refl)
