-- ===== src/Router/Paths.antt =====
-- worker/filesystem/relations.cpp, and verifyPath of worker/routers/workspace.cpp.
use minide.Base.{
  ◌≡◌, ◌≢◌, refl, inl, inr, Bool, true, false, not, ◌&&◌, Option, none, some, [], ◌∷◌, Bytes, codes,
  bytes_eq, if◌then◌else◌, All, arith, Bool-cases, ℕ,
}
use minide.FileSystem.{FileAccess}
use minide.Jail.{Jail, climbs, make, fake_jail_as_root, climbs-All}
use minide.Workspace.Verify.{Verified, refused, accepted, thrown, strip_slash, starts_below}

module _ {FilePath Disk : Type 0} (fa : FileAccess FilePath Disk) (disk : Disk) where
  abbrev pub let_through : Jail FilePath → Bool → Option FilePath → Option FilePath
  let_through jail fake none = none
  let_through jail fake (some proxi) =
      if climbs (fa.files.parts proxi)
      then none
      else if fake
      then some (fake_jail_as_root fa.files jail proxi)
      else some proxi

  unfoldable pub relative_to_root : Jail FilePath → FilePath → Bool → Option FilePath
  relative_to_root jail other fake = let_through jail fake (fa.proximate disk other jail.jail_root)

  abbrev pub existing : Bytes → Bool → FilePath → Verified
  existing path must_exist result =
      if must_exist && not (fa.files.exists disk result)
      then refused (codes "path does not exist") path
      else accepted (fa.files.generic_string result)

  -- The refusal of a path outside throws: `json::object` takes a list of pairs, and gets a text and a
  -- Boolean.
  abbrev pub from_jail : Bytes → FilePath → Bool → Bool → Option FilePath → Verified
  from_jail path root must_exist enforce (some relative) =
      existing path must_exist (fa.files.join (fa.files.parent_path root) relative)
  from_jail path root must_exist enforce none =
      if enforce then thrown else existing path must_exist (fa.files.of_string path)

  abbrev pub in_parent : Bytes → FilePath → Bool → Bool → Option (Jail FilePath) → Verified
  in_parent path root must_exist enforce none = thrown
  in_parent path root must_exist enforce (some jail) =
      from_jail path root must_exist enforce (relative_to_root jail (fa.files.of_string path) false)

  unfoldable pub verify_stripped : Bytes → FilePath → Bool → Bool → Verified
  unfolding relative_to_root
  verify_stripped path root must_exist enforce =
      if bytes_eq path (fa.files.filename root)
      then existing path must_exist root
      else if starts_below (fa.files.filename root) path
      then in_parent path root must_exist enforce (make fa.files disk (fa.files.parent_path root))
      else if enforce
      then thrown
      else existing path must_exist (fa.files.of_string [])

  unfoldable pub verify_path : Bytes → FilePath → Bool → Bool → Verified
  unfolding verify_stripped strip_slash starts_below
  verify_path [] root must_exist enforce = refused (codes "path cannot be empty") []
  verify_path (c ∷ path) root must_exist enforce =
      verify_stripped (strip_slash (c ∷ path)) root must_exist enforce

module _ {FilePath Disk : Type 0} (fa : FileAccess FilePath Disk) (disk : Disk)
    (root : FilePath) where
  -- Where an accepted path comes from: it is the root's, or the root's parent continued by what leads
  -- from the canonical path of that parent to it without climbing.
  pub data IsBelow (path result : Bytes) : Type 0 where
    is_root : result ≡ fa.files.generic_string root → IsBelow path result
    is_below :
        (jail : Jail FilePath) (proxi : FilePath)
        → make fa.files disk (fa.files.parent_path root) ≡ some jail
        → fa.proximate disk (fa.files.of_string path) jail.jail_root ≡ some proxi
        → All (λ part. part ≢ codes "..") (fa.files.parts proxi)
        → result ≡ fa.files.generic_string (fa.files.join (fa.files.parent_path root) proxi)
        → IsBelow path result

  existing-accepted :
      (path : Bytes) (must_exist : Bool) (found : FilePath) {r : Bytes}
      → existing fa disk path must_exist found ≡ accepted r
      → r ≡ fa.files.generic_string found
  existing-accepted path must_exist found e = ground arith

  let_through-IsBelow :
      (path : Bytes) (must_exist : Bool) (jail : Jail FilePath) (found : Option FilePath)
      {r : Bytes}
      → make fa.files disk (fa.files.parent_path root) ≡ some jail
      → fa.proximate disk (fa.files.of_string path) jail.jail_root ≡ found
      → from_jail fa disk path root must_exist true (let_through fa disk jail false found)
        ≡ accepted r
      → IsBelow path r
  let_through-IsBelow path must_exist jail none q f e = cc e
  let_through-IsBelow path must_exist jail (some proxi) q f e =
      elim (Bool-cases (climbs (fa.files.parts proxi))) [
        | inl up ↦ cc (rw up at e)
        | inr low ↦
            is_below jail proxi q f (climbs-All (fa.files.parts proxi) low)
              (existing-accepted path must_exist _ (rw low at e))
      ]

  in_parent-IsBelow :
      (path : Bytes) (must_exist : Bool) (jail : Option (Jail FilePath)) {r : Bytes}
      → make fa.files disk (fa.files.parent_path root) ≡ jail
      → in_parent fa disk path root must_exist true jail ≡ accepted r
      → IsBelow path r
  unfolding relative_to_root
  in_parent-IsBelow path must_exist none q e = cc e
  in_parent-IsBelow path must_exist (some jail) q e =
      let_through-IsBelow path must_exist jail _ q refl e

  -- Where workspace-relative paths are enforced, an accepted path is below the root's parent.
  pub verify_path-IsBelow :
      (c : ℕ) (path : Bytes) (must_exist : Bool) {r : Bytes}
      → verify_path fa disk (c ∷ path) root must_exist true ≡ accepted r
      → IsBelow (strip_slash (c ∷ path)) r
  unfolding verify_path verify_stripped
  verify_path-IsBelow c path must_exist e =
      let p = strip_slash (c ∷ path) in
      elim (Bool-cases (bytes_eq p (fa.files.filename root))) [
        | inl same ↦ is_root (existing-accepted p must_exist root (rw same at e))
        | inr other ↦ elim (Bool-cases (starts_below (fa.files.filename root) p)) [
          | inl below ↦ in_parent-IsBelow p must_exist _ refl (rw (other, below) at e)
          | inr beside ↦ cc (rw (other, beside) at e)
        ]
      ]
