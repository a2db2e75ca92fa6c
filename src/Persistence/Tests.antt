-- ===== src/Persistence/Tests.antt =====
-- worker/workspace/project_persistence.cpp: a project that is saved and loaded.
use minide.Base.{◌≡◌, refl, true, false, some, [], ◌∷◌, Bytes, codes}
use minide.Base.Dict.{find, put}
use minide.HashedFile.{Files}
use minide.Persistence.{Project, new_project, save_project, load_project, project_json, save_text}
use minide.Persistence.RoundTrip.{load_project-save}
use minide.Samples.{sample_json, sample_json-IsLawful, sample_access, sample_access-KeepsFiles}

abbrev split_project : Project Bytes
split_project = record {
  split_source_and_include = true;
  ignore_seeming_split = false;
  root = codes "/home/ws/p";
  raw = [];
}

abbrev saved_files : Files
saved_files =
    (
      codes "/home/ws/p/.minIDE/project.json",
      sample_json.dump (project_json sample_json sample_access split_project),
    )
    ∷ []

load_project-save_example :
    load_project sample_json sample_access (new_project (codes "/home/ws/p")) saved_files
    ≡ some (
      true,
      record split_project {
        raw = sample_json.dump (project_json sample_json sample_access split_project);
      },
    )
load_project-save_example =
    load_project-save sample_json sample_access sample_json-IsLawful sample_access-KeepsFiles
      split_project [] saved_files saves
  where
    saves : save_project sample_json sample_access split_project [] ≡ some (true, saved_files)
    saves = unfold save_project save_text put find in refl
