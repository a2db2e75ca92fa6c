-- ===== src/Workspace/Tests.antt =====
-- Workspace: the theorems over a small file system with the workspace /home/ws.
use minide.Base.{refl, true, false, none, some, List, [], ◌∷◌, ◌++◌, Bytes, codes, bytes_eq, pos}
use minide.FileSystem.{FileSystem}
use minide.Jail.{Jail}
use minide.Workspace.Verify.{verify_path}
use minide.Workspace.Requests.{Workspace, handle, loads}
use minide.Workspace.Refusals.{AnsweredOnce, handle-AnsweredOnce, Refused, handle-Refused}

-- Paths are their texts; the files are a list. Every path lies in the jail as `ws/a`.
abbrev inside_files : FileSystem Bytes (List Bytes)
inside_files = record {
  of_string = λ s. s;
  generic_string = λ p. p;
  is_empty = λ p. bytes_eq p [];
  filename = λ p. codes "ws";
  parent_path = λ p. codes "/home/";
  join = λ a b. a ++ b;
  parts = λ p. codes "ws" ∷ codes "a" ∷ [];
  canonical = λ d p. some p;
  relative = λ d p base. some (codes "ws/a");
  exists = λ d p. true;
  readable = λ d p. true;
  remove = λ p d. some (p ∷ d);
  can_scan = λ d p recursive. true;
}

-- The same where no path lies in the jail, and where no file exists.
abbrev outside_files : FileSystem Bytes (List Bytes)
outside_files = record inside_files { relative = λ d p base. none }

abbrev no_files : FileSystem Bytes (List Bytes)
no_files = record outside_files { exists = λ d p. false }

abbrev workspace : Workspace Bytes
workspace = record { root = codes "/home/ws"; active_project = [] }

abbrev home : Jail Bytes
home = record { jail_root = codes "/home/" }

handle-Refused_example :
    Refused outside_files workspace []
      (pos 3)
      (handle outside_files true workspace [] (pos 3) (loads []))
handle-Refused_example =
    handle-Refused outside_files workspace [] (pos 3) (loads [])
      (unfold bytes_eq verify_path in refl)

handle-AnsweredOnce_example :
    AnsweredOnce no_files (pos 3) (handle no_files true workspace [] (pos 3) (loads (codes "ws/x")))
handle-AnsweredOnce_example =
    handle-AnsweredOnce no_files workspace [] (pos 3) (loads (codes "ws/x"))
