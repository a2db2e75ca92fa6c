-- ===== src/Workspace/Refusals.antt =====
-- Workspace: every request is answered once, and a refused one changes nothing.
use minide.Base.{
  ◌≡◌, refl, inl, inr, ◌⊎◌, Option, none, some, Bool, true, false, not, ◌&&◌, [], ◌∷◌, Bytes, codes,
  if◌then◌else◌, ℤ, Bool-cases,
}
use minide.FileSystem.{FileSystem}
use minide.Workspace.Verify.{Verified, refused, accepted, thrown, verify_path}
use minide.Workspace.Requests.{
  Workspace, Reply, error, directory, file, active_project, deleted, Done, Request, opens, enlists,
  loads, activates, deletes, handle, act_on, with_path, removed,
}

module _ {FilePath : Type 0} where
  abbrev pub reference : Reply FilePath → ℤ
  reference (error ref m) = ref
  reference (directory ref p r o) = ref
  reference (file ref p) = ref
  reference (active_project ref p) = ref
  reference (deleted ref p) = ref

module _ {FilePath Disk : Type 0} (fs : FileSystem FilePath Disk) where
  -- One reply, to the request's reference; or none, by an exception.
  pub data AnsweredOnce (ref : ℤ) (d : Done FilePath Disk) : Type 0 where
    replied :
        (reply : Reply FilePath)
        → d.replies ≡ reply ∷ []
        → reference reply ≡ ref
        → d.threw ≡ false
        → AnsweredOnce ref d
    excepted : d.replies ≡ [] → d.threw ≡ true → AnsweredOnce ref d

  -- The workspace and the files are as they were, and the one reply is an error, or there is none,
  -- by an exception.
  pub record Refused (ws : Workspace FilePath) (disk : Disk) (ref : ℤ) (d : Done FilePath Disk)
      : Type 0 where
    pub same_workspace : d.workspace ≡ ws
    pub same_disk : d.disk ≡ disk
    pub no_effect :
        ((message : Bytes) × (d.replies ≡ error ref message ∷ []) × (d.threw ≡ false))
        ⊎ ((d.replies ≡ []) × (d.threw ≡ true))

  abbrev is_accepted : Verified → Bool
  is_accepted (refused m p) = false
  is_accepted (accepted p) = true
  is_accepted thrown = false

  abbrev usable : Workspace FilePath → Disk → FilePath → Bool
  usable ws disk path =
      not (fs.is_empty ws.root)
      && is_accepted (verify_path fs disk (fs.generic_string path) ws.root true false)

  -- When a request is carried out: the directory to open exists and can be scanned; or a workspace
  -- is open and the path passes `verifyPath`.
  abbrev pub is_allowed : Workspace FilePath → Disk → Request FilePath → Bool
  is_allowed ws disk (opens root) = fs.exists disk root && fs.can_scan disk root false
  is_allowed ws disk (enlists path recursive) = usable ws disk path
  is_allowed ws disk (loads path) = usable ws disk path
  is_allowed ws disk (activates path) = usable ws disk path
  is_allowed ws disk (deletes path) = usable ws disk path

  act_on-Refused :
      (ws : Workspace FilePath) (disk : Disk) (ref : ℤ) (v : Verified)
      (act : Bytes → Done FilePath Disk)
      → is_accepted v ≡ false
      → Refused ws disk ref (act_on fs ws disk ref v act)
  act_on-Refused ws disk ref (refused m p) act h = record {
    same_workspace = refl;
    same_disk = refl;
    no_effect = inl (m, refl, refl);
  }
  act_on-Refused ws disk ref (accepted p) act h = cc h
  act_on-Refused ws disk ref thrown act h = record {
    same_workspace = refl;
    same_disk = refl;
    no_effect = inr (refl, refl);
  }

  with_path-Refused :
      (ws : Workspace FilePath) (disk : Disk) (ref : ℤ) (path : FilePath)
      (act : Bytes → Done FilePath Disk)
      → usable ws disk path ≡ false
      → Refused ws disk ref (with_path fs true ws disk ref path act)
  unfolding with_path
  with_path-Refused ws disk ref path act h = elim (Bool-cases (fs.is_empty ws.root)) [
    | inl e ↦
        rw e (record { same_workspace = refl; same_disk = refl; no_effect = inl (_, refl, refl) })
    | inr e ↦ rw e (act_on-Refused ws disk ref _ act (rw e at h))
  ]

  -- An open of a directory that does not exist or cannot be scanned, or another request with no
  -- workspace open or with a path that verifyPath does not accept, changes neither the workspace
  -- nor the files, and is answered by one error or ends by an exception, while the session is
  -- there.
  pub handle-Refused :
      (ws : Workspace FilePath) (disk : Disk) (ref : ℤ) (request : Request FilePath)
      → is_allowed ws disk request ≡ false
      → Refused ws disk ref (handle fs true ws disk ref request)
  unfolding handle
  handle-Refused ws disk ref (opens root) h = elim (Bool-cases (fs.exists disk root)) [
    | inl there ↦
        rw (there, rw there at h)
          (record { same_workspace = refl; same_disk = refl; no_effect = inr (refl, refl) })
    | inr gone ↦
        rw gone
          (record { same_workspace = refl; same_disk = refl; no_effect = inl (_, refl, refl) })
  ]
  handle-Refused ws disk ref (enlists path recursive) h = with_path-Refused ws disk ref path _ h
  handle-Refused ws disk ref (loads path) h = with_path-Refused ws disk ref path _ h
  handle-Refused ws disk ref (activates path) h = with_path-Refused ws disk ref path _ h
  handle-Refused ws disk ref (deletes path) h = with_path-Refused ws disk ref path _ h

  act_on-AnsweredOnce :
      (ws : Workspace FilePath) (disk : Disk) (ref : ℤ) (v : Verified)
      (act : Bytes → Done FilePath Disk)
      → ((p : Bytes) → AnsweredOnce ref (act p))
      → AnsweredOnce ref (act_on fs ws disk ref v act)
  act_on-AnsweredOnce ws disk ref thrown act h = excepted refl refl
  act_on-AnsweredOnce ws disk ref (refused m p) act h = (replied (error ref m) refl refl refl)
  act_on-AnsweredOnce ws disk ref (accepted p) act h = h p

  with_path-AnsweredOnce :
      (ws : Workspace FilePath) (disk : Disk) (ref : ℤ) (path : FilePath)
      (act : Bytes → Done FilePath Disk)
      → ((p : Bytes) → AnsweredOnce ref (act p))
      → AnsweredOnce ref (with_path fs true ws disk ref path act)
  unfolding with_path
  with_path-AnsweredOnce ws disk ref path act h = elim (Bool-cases (fs.is_empty ws.root)) [
    | inl e ↦ rw e (replied (error ref _) refl refl refl)
    | inr e ↦ rw e (act_on-AnsweredOnce ws disk ref _ act h)
  ]

  removed-AnsweredOnce :
      (ws : Workspace FilePath) (disk : Disk) (reply : Reply FilePath) (left : Option Disk)
      → AnsweredOnce (reference reply) (removed fs ws disk reply left)
  removed-AnsweredOnce ws disk reply none = excepted refl refl
  removed-AnsweredOnce ws disk reply (some left) = replied reply refl refl refl

  -- While the session is there, every request is answered by exactly one reply with its own
  -- reference, or ends by an exception and is not answered.
  pub handle-AnsweredOnce :
      (ws : Workspace FilePath) (disk : Disk) (ref : ℤ) (request : Request FilePath)
      → AnsweredOnce ref (handle fs true ws disk ref request)
  unfolding handle
  handle-AnsweredOnce ws disk ref (opens root) = elim (Bool-cases (fs.exists disk root)) [
    | inl e ↦ elim (Bool-cases (fs.can_scan disk root false)) [
      | inl f ↦ rw (e, f) (replied (directory ref root false _) refl refl refl)
      | inr f ↦ rw (e, f) (excepted refl refl)
    ]
    | inr e ↦ rw e (replied (error ref _) refl refl refl)
  ]
  handle-AnsweredOnce ws disk ref (enlists path recursive) =
      with_path-AnsweredOnce ws disk ref path _ (λ p. listed p)
    where
      listed :
          (p : Bytes)
          → AnsweredOnce ref (
              if fs.can_scan disk (fs.of_string p) recursive
              then record {
                workspace = ws;
                disk = disk;
                replies = directory ref (fs.of_string p) recursive (fs.generic_string path) ∷ [];
                threw = false;
              }
              else record { workspace = ws; disk = disk; replies = []; threw = true })
      listed p = elim (Bool-cases (fs.can_scan disk (fs.of_string p) recursive)) [
        | inl e ↦ rw e (replied (directory ref _ recursive _) refl refl refl)
        | inr e ↦ rw e (excepted refl refl)
      ]
  handle-AnsweredOnce ws disk ref (loads path) =
      with_path-AnsweredOnce ws disk ref path _ (λ p. loaded p)
    where
      loaded :
          (p : Bytes)
          → let reply : Reply FilePath =
              if fs.readable disk (fs.of_string p)
              then file ref p
              else error ref (codes "Cannot open file for reading.") in
            AnsweredOnce ref
              (record { workspace = ws; disk = disk; replies = reply ∷ []; threw = false })
      loaded p = elim (Bool-cases (fs.readable disk (fs.of_string p))) [
        | inl e ↦ rw e (replied (file ref p) refl refl refl)
        | inr e ↦ rw e (replied (error ref _) refl refl refl)
      ]
  handle-AnsweredOnce ws disk ref (activates path) =
      with_path-AnsweredOnce ws disk ref path _
        (λ p. (replied (active_project ref path) refl refl refl))
  handle-AnsweredOnce ws disk ref (deletes path) =
      with_path-AnsweredOnce ws disk ref path _
        (λ p. removed-AnsweredOnce ws disk (deleted ref path) (fs.remove (fs.of_string p) disk))
