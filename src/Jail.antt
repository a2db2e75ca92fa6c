-- ===== src/Jail.antt =====
-- backend/src/backend/filesystem/jail.cpp and its header: paths below a directory.
use minide.Base.{
  ◌≡◌, ◌≢◌, Bool, true, false, ◌||◌, Option, none, some, List, [], ◌∷◌, ◌++◌, Bytes, codes,
  bytes_eq, bytes_eq_iff, if◌then◌else◌, All, arith,
}
use minide.FileSystem.{FileSystem}

pub record Jail (FilePath : Type 0) : Type 0 where
  pub jail_root : FilePath

-- `for (auto const& part : proxi) if (part == "..") return std::nullopt;`
unfoldable pub climbs : List Bytes → Bool
climbs [] = false
climbs (part ∷ parts) = bytes_eq part (codes "..") || climbs parts

module _ {FilePath Disk : Type 0} (fs : FileSystem FilePath Disk) where
  abbrev at_canonical : Option FilePath → Option (Jail FilePath)
  at_canonical none = none
  at_canonical (some path) = some (record { jail_root = fs.of_string (fs.generic_string path) })

  -- The constructor keeps the generic text of the canonical path, and throws where there is none.
  unfoldable pub make : Disk → FilePath → Option (Jail FilePath)
  make disk root = at_canonical (fs.canonical disk root)

  unfoldable pub fake_jail_as_root : Jail FilePath → FilePath → FilePath
  fake_jail_as_root jail other =
      fs.of_string
        (codes "/" ++ (fs.filename jail.jail_root ++ (codes "/" ++ fs.generic_string other)))

  abbrev inside_path : Jail FilePath → Bool → FilePath → FilePath
  inside_path jail true proxi = fake_jail_as_root jail proxi
  inside_path jail false proxi = fs.join jail.jail_root (fs.of_string (fs.generic_string proxi))

  abbrev checked : Jail FilePath → Bool → Option FilePath → Option FilePath
  checked jail fake none = none
  checked jail fake (some proxi) =
      if fs.is_empty proxi
      then none
      else if climbs (fs.parts proxi)
      then none
      else some (inside_path jail fake proxi)

  unfoldable pub relative_to_root : Disk → Jail FilePath → FilePath → Bool → Option FilePath
  relative_to_root disk jail other fake =
      checked jail fake (fs.relative disk (fs.join jail.jail_root other) jail.jail_root)

  abbrev is_some : Option FilePath → Bool
  is_some none = false
  is_some (some p) = true

  unfoldable pub is_within_jail : Disk → Jail FilePath → FilePath → Bool
  is_within_jail disk jail other = is_some (relative_to_root disk jail other false)

  -- What a path is that the jail lets through: it continues the root by parts that do not climb.
  pub record Inside (disk : Disk) (jail : Jail FilePath) (other result : FilePath) : Type 0 where
    pub proxi : FilePath
    pub is_relative : fs.relative disk (fs.join jail.jail_root other) jail.jail_root ≡ some proxi
    pub not_empty : fs.is_empty proxi ≡ false
    pub no_climb : All (λ part. part ≢ codes "..") (fs.parts proxi)
    pub result_is : result ≡ fs.join jail.jail_root (fs.of_string (fs.generic_string proxi))

pub climbs-All : (parts : List Bytes) → climbs parts ≡ false → All (λ part. part ≢ codes "..") parts
unfolding climbs
climbs-All [] h = tt
climbs-All (part ∷ parts) h =
    (ground (arith, bytes_eq_iff part (codes "..")), climbs-All parts (ground arith))
