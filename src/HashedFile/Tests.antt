-- ===== src/HashedFile/Tests.antt =====
-- worker/workspace/hashed_file.cpp: files whose hash is their content, in lower case.
use minide.Base.{true, false, [], ◌∷◌, codes}
use minide.HashedFile.{Files, FileOps}

abbrev granting : FileOps
granting = record {
  opens = λ files name. true;
  removes = λ files name. true;
  renames = λ files source target. true;
  sha256 = λ content. content;
}

abbrev no_renames : FileOps
no_renames = record granting { renames = λ files source target. false }

abbrev old_files : Files
old_files = (codes "a", codes "old") ∷ []
