-- ===== src/Router/Toggle.antt =====
-- toggleSourceHeader of worker/routers/workspace.cpp, and the same function of backend/src/backend/
-- server/api/workspace.cpp: where the partner of a source or a header is looked for.
use minide.Base.{
  ◌≡◌, refl, sym, ap, ◌∙◌, inl, inr, Bool, true, false, not, ◌&&◌, Option, none, some, List, [],
  ◌∷◌, ◌++◌, Bytes, codes, bytes_eq, if◌then◌else◌, Bool-cases, All, append_assoc, append-nil,
}
use minide.FileSystem.{FileAccess}
use minide.Router.Extensions.{is_any}

-- The result, in the order of the tuple.
pub record Found (FilePath : Type 0) : Type 0 where
  pub special_dir_partner : FilePath
  pub same_place_partner : FilePath
  pub special_exists : Bool
  pub any_found : Bool

-- `parts.push_front` for each part.
unfoldable pub push_fronts : List Bytes → List Bytes → List Bytes
push_fronts [] parts = parts
push_fronts (x ∷ xs) parts = push_fronts xs (x ∷ parts)

abbrev pub is_special : Bool → Bytes → Bool
is_special true part = is_any part (codes "source" ∷ codes "sources" ∷ codes "src" ∷ [])
is_special false part = is_any part (codes "include" ∷ codes "headers" ∷ [])

abbrev pub candidates : Bool → List Bytes
candidates true = codes "include" ∷ codes "headers" ∷ []
candidates false = codes "source" ∷ codes "src" ∷ codes "sources" ∷ []

abbrev pub default_dir : Bool → Bytes
default_dir true = codes "include"
default_dir false = codes "source"

module _ {FilePath Disk : Type 0} (fa : FileAccess FilePath Disk) where
  -- The loop over the parts, from the innermost one.
  unfoldable pub search_special : Bool → List Bytes → FilePath → Bool × FilePath
  search_special is_source [] reduced = (false, reduced)
  search_special is_source (part ∷ parts) reduced =
      let rest = search_special is_source parts (fa.files.parent_path reduced) in
      if is_special is_source part then (true, reduced) else rest

  -- `TEST_SPECIAL_DIR` for each candidate.
  unfoldable pub test_special_dirs : Disk → FilePath → List Bytes → FilePath → FilePath
  test_special_dirs disk parent [] special_dir = special_dir
  test_special_dirs disk parent (name ∷ names) special_dir =
      let dir = fa.files.join parent (fa.files.of_string name) in
      test_special_dirs disk parent names
        (if fa.files.is_empty special_dir && fa.files.exists disk dir then dir else special_dir)

  abbrev pub with_extension : FilePath → Bytes → FilePath
  with_extension original target = fa.files.of_string (fa.stem original ++ target)

  abbrev pub partner_in : FilePath → FilePath → FilePath → Bytes → FilePath
  partner_in dir relative original target =
      fa.files.join (fa.files.join dir relative) (with_extension original target)

  abbrev pub same_place : FilePath → Bytes → FilePath
  same_place original target =
      fa.files.join (fa.files.parent_path original) (with_extension original target)

  -- The default directory is taken where no candidate is there.
  abbrev pub found_in :
      Bool → FilePath → FilePath → FilePath → FilePath → Bytes → Bool → Found FilePath
  found_in is_source parent special_dir relative original target any = record {
    special_dir_partner =
        partner_in
          (if fa.files.is_empty special_dir
            then fa.files.join parent (fa.files.of_string (default_dir is_source))
            else special_dir)
          relative original target;
    same_place_partner = same_place original target;
    special_exists = not (fa.files.is_empty special_dir);
    any_found = any;
  }

  abbrev pub no_special : FilePath → Bytes → Bool → Found FilePath
  no_special original target any = record {
    special_dir_partner = fa.files.of_string [];
    same_place_partner = same_place original target;
    special_exists = false;
    any_found = any;
  }

  -- `none` is the exception of `proximate`.
  abbrev pub with_relative :
      Disk → Bool → FilePath → FilePath → Bytes → Bool → Option FilePath → Option (Found FilePath)
  with_relative disk is_source reduced original target any none = none
  with_relative disk is_source reduced original target any (some relative) =
      let parent = fa.files.parent_path reduced in
      some (
        found_in is_source parent
          (test_special_dirs disk parent (candidates is_source) (fa.files.of_string [])) relative
          original target any)

  abbrev pub at_reduced : Disk → Bool → FilePath → FilePath → Bytes → Bool → Option (Found FilePath)
  at_reduced disk is_source reduced original target any =
      if not (fa.files.is_empty reduced)
        && not (bytes_eq (fa.files.generic_string reduced) (codes "/"))
      then with_relative disk is_source reduced original target any
          (fa.proximate disk (fa.files.parent_path original) reduced)
      else some (no_special original target any)

  unfoldable pub toggle_source_header : Disk → FilePath → Bool → Bytes → Option (Found FilePath)
  unfolding push_fronts search_special test_special_dirs
  toggle_source_header disk original is_source target =
      let start = fa.files.parent_path original in
      let (any, reduced) = search_special is_source (push_fronts (fa.files.parts start) []) start in
      at_reduced disk is_source (if any then reduced else fa.files.of_string []) original target any

  -- The directory that the loop stops at: it ends by a special part, and what the path has behind it
  -- holds none; or no part is special.
  pub data Innermost (is_source : Bool) (start : FilePath) (result : Bool × FilePath) : Type 0 where
    innermost :
        (pre inner : List Bytes) (part : Bytes)
        → result.0 ≡ true
        → fa.files.parts result.1 ≡ pre ++ (part ∷ [])
        → fa.files.parts start ≡ (pre ++ (part ∷ [])) ++ inner
        → is_special is_source part ≡ true
        → All (λ x. is_special is_source x ≡ false) inner
        → Innermost is_source start result
    nowhere :
        result.0 ≡ false
        → All (λ x. is_special is_source x ≡ false) (fa.files.parts start)
        → Innermost is_source start result

push_fronts-append : (xs acc : List Bytes) → push_fronts xs acc ≡ push_fronts xs [] ++ acc
unfolding push_fronts
push_fronts-append [] acc = refl
push_fronts-append (x ∷ xs) acc =
    push_fronts-append xs (x ∷ acc)
    ∙ sym (append_assoc (push_fronts xs []) (x ∷ []) acc)
    ∙ ap (λ l. l ++ acc) (sym (push_fronts-append xs (x ∷ [])))

push_fronts-twice : (xs acc : List Bytes) → push_fronts (push_fronts xs acc) [] ≡ push_fronts acc xs
unfolding push_fronts
push_fronts-twice [] acc = refl
push_fronts-twice (x ∷ xs) acc = push_fronts-twice xs (x ∷ acc)

module _ {FilePath Disk : Type 0} (fa : FileAccess FilePath Disk)
    (parts-parent : (p : FilePath) (pre : List Bytes) (part : Bytes)
      → fa.files.parts p ≡ pre ++ (part ∷ [])
      → fa.files.parts (fa.files.parent_path p) ≡ pre) where
  -- The loop at a directory that the path continues by `inner`, without a special part.
  search_special-from :
      (is_source : Bool) (start reduced : FilePath) (parts inner : List Bytes)
      → fa.files.parts reduced ≡ push_fronts parts []
      → fa.files.parts start ≡ push_fronts parts [] ++ inner
      → All (λ x. is_special is_source x ≡ false) inner
      → Innermost fa is_source start (search_special fa is_source parts reduced)
  unfolding search_special push_fronts
  search_special-from is_source start reduced [] inner r e h = nowhere refl (rw e h)
  search_special-from is_source start reduced (part ∷ parts) inner r e h =
      let here = r ∙ push_fronts-append parts (part ∷ []) in
      let whole = e ∙ ap (λ l. l ++ inner) (push_fronts-append parts (part ∷ [])) in
      elim (Bool-cases (is_special is_source part)) [
        | inl yes_special ↦
            rw yes_special
              (innermost (push_fronts parts []) inner part refl here whole yes_special h)
        | inr plain ↦ rw plain (
            search_special-from is_source start (fa.files.parent_path reduced) parts (part ∷ inner)
              (parts-parent reduced (push_fronts parts []) part here)
              (whole ∙ append_assoc (push_fronts parts []) (part ∷ []) inner) (plain, h))
      ]

  -- The search stops at the innermost directory of the file's that has a name for sources, when the
  -- file is a source, or for headers, when it is a header; where there is none it says so.
  pub search_special-Innermost :
      (is_source : Bool) (start : FilePath)
      → Innermost fa is_source start
          (search_special fa is_source (push_fronts (fa.files.parts start) []) start)
  unfolding push_fronts
  search_special-Innermost is_source start =
      let twice = push_fronts-twice (fa.files.parts start) [] in
      search_special-from is_source start start (push_fronts (fa.files.parts start) []) []
        (sym twice) (sym twice ∙ sym (append-nil _)) tt
