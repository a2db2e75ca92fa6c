-- ===== src/Settings/Store.antt =====
-- worker/public_settings.cpp: the file of the settings, and to_json and from_json of
-- worker/settings/environment.cpp. An operation that throws gives false, with what it leaves behind.
use minide.Base.{Bool, true, false, Option, none, some, List, [], ◌∷◌, Bytes, codes, if◌then◌else◌}
use minide.Json.{JsonOps, JsonLists}
use minide.FileSystem.{FileAccess}
use minide.Settings.{Environment, Environments}
use minide.Settings.Keyed.{values_with}

-- `home_memo` is the path of the file, once it was asked for.
pub record PublicSettings (FilePath : Type 0) : Type 0 where
  pub environments : Environments
  pub home_memo : Option FilePath

module _ {J : Type 0} (ops : JsonOps J) (lists : JsonLists J) where
  abbrev pub texts_json : List (Bytes × Bytes) → J
  texts_json kvs = ops.object (values_with ops.of_string kvs)

  unfoldable pub environment_to_json : Environment → J
  environment_to_json env = ops.object (
      (codes "path", ops.of_strings env.path)
      ∷ (codes "variables", texts_json env.variables)
      ∷ (codes "inherits", texts_json env.inherits)
      ∷ [])

  -- `to_json` of the settings.
  unfoldable pub settings_to_json : Environments → J
  unfolding environment_to_json
  settings_to_json envs =
      ops.object ((codes "environments", ops.object (values_with environment_to_json envs)) ∷ [])

  abbrev pub cons_entry :
      {A : Type 0} → Bytes → Option A → Option (List (Bytes × A)) → Option (List (Bytes × A))
  cons_entry k none rest = none
  cons_entry k (some a) none = none
  cons_entry k (some a) (some rest) = some ((k, a) ∷ rest)

  unfoldable pub all_entries :
      {A : Type 0} → (J → Option A) → List (Bytes × J) → Option (List (Bytes × A))
  all_entries get [] = some []
  all_entries get ((k, j) ∷ items) = cons_entry k (get j) (all_entries get items)

  -- `get_to` of a map, which throws for what is no object.
  unfoldable pub get_map : {A : Type 0} → (J → Option A) → J → Option (List (Bytes × A))
  unfolding all_entries
  get_map get j = if lists.is_object j then all_entries get (lists.items j) else none

  -- `at` throws where the key is not there.
  abbrev pub value_at : {A : Type 0} → (J → Option A) → J → Bytes → Option A
  value_at get j key = if ops.contains j key then get (ops.at j key) else none

  abbrev pub make_environment :
      Option (List Bytes)
      → Option (List (Bytes × Bytes))
      → Option (List (Bytes × Bytes))
      → Option Environment
  make_environment none variables inherits = none
  make_environment (some path) none inherits = none
  make_environment (some path) (some variables) none = none
  make_environment (some path) (some variables) (some inherits) =
      some (record { path = path; variables = variables; inherits = inherits })

  unfoldable pub environment_from_json : J → Option Environment
  unfolding get_map
  environment_from_json j =
      make_environment (value_at lists.get_strings j (codes "path"))
        (value_at (get_map ops.get_string) j (codes "variables"))
        (value_at (get_map ops.get_string) j (codes "inherits"))

  -- `from_json` of the settings; a key that is not there, with undefined behaviour, is an exception.
  unfoldable pub settings_from_json : J → Option Environments
  unfolding get_map environment_from_json
  settings_from_json j = value_at (get_map environment_from_json) j (codes "environments")

module _ {J FilePath Disk : Type 0} (ops : JsonOps J) (lists : JsonLists J)
    (fa : FileAccess FilePath Disk) (home : FilePath) where
  abbrev pub Store : Type 0
  Store = PublicSettings FilePath × Disk

  abbrev pub meta_dir : FilePath
  meta_dir = fa.files.join home (fa.files.of_string (codes ".minIDE"))

  abbrev pub settings_file : FilePath
  settings_file = fa.files.join meta_dir (fa.files.of_string (codes "public_persistence.json"))

  abbrev pub made_in : PublicSettings FilePath → Option Disk → Option (FilePath × Store)
  made_in s none = none
  made_in s (some disk) = some (settings_file, (record s { home_memo = some settings_file }, disk))

  abbrev pub memo_or : Option FilePath → PublicSettings FilePath → Disk → Option (FilePath × Store)
  memo_or (some file) s disk = some (file, (s, disk))
  memo_or none s disk =
      made_in s
        (if fa.files.exists disk meta_dir then some disk else fa.create_directory disk meta_dir)

  unfoldable pub get_file_name : Store → Option (FilePath × Store)
  get_file_name (s, disk) = memo_or s.home_memo s disk

  abbrev pub written_as : PublicSettings FilePath → Disk → Option Disk → Bool × Store
  written_as s disk none = (false, (s, disk))
  written_as s disk (some written) = (true, (s, written))

  abbrev pub save_in : Store → Option (FilePath × Store) → Bool × Store
  save_in old none = (false, old)
  save_in old (some (file, (s, disk))) = written_as s disk (
      fa.write_file disk file
        (ops.dump (ops.object ((codes "public", settings_to_json ops lists s.environments) ∷ []))))

  unfoldable pub save : Store → Bool × Store
  unfolding get_file_name
  save old = save_in old (get_file_name old)

  abbrev pub taken : PublicSettings FilePath → Disk → Option Environments → Bool × Store
  taken s disk none = (false, (s, disk))
  taken s disk (some envs) = (true, (record s { environments = envs }, disk))

  abbrev pub public_part : Option J → Option Environments
  public_part none = none
  public_part (some j) = value_at ops lists (settings_from_json ops lists) j (codes "public")

  abbrev pub read_in : PublicSettings FilePath → Disk → Option Bytes → Bool × Store
  read_in s disk none = (false, (s, disk))
  read_in s disk (some text) = taken s disk (public_part (ops.parse text))

  abbrev pub load_in : Store → Option (FilePath × Store) → Bool × Store
  load_in old none = (false, old)
  load_in old (some (file, (s, disk))) =
      if fa.files.exists disk file then read_in s disk (fa.read_file disk file) else save (s, disk)

  unfoldable pub load : Store → Bool × Store
  unfolding get_file_name
  load old = load_in old (get_file_name old)

  -- Where the saving throws, the environments are set all the same.
  unfoldable pub set_environments : Environments → Store → Bool × Store
  unfolding save
  set_environments envs (s, disk) = save (record s { environments = envs }, disk)
