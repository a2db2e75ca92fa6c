-- ===== src/Debugging/Endings.antt =====
-- Debugging: a debugger that is deleted, and the environments that a debugger is not started in.
use minide.Base.{
  ◌≡◌, refl, ap, ◌∙◌, true, false, none, some, Bytes, codes, bytes_eq_self, inl, inr, Bool-cases,
  Option-cases,
}
use minide.Base.Dict.{find, erase, find-erase}
use minide.SessionStorage.{partially_save_session}
use minide.RunConfig.{RunConfig, config_from_json}
use minide.Settings.{Environments}
use minide.Debugging.{Debugger, stop}
use minide.Debugging.Requests.{
  DebugSession, DebugServer, Tools, with_instances, debug_session, save_instances, in_world,
  need_text, find_instance, delete_instance,
}
use minide.Debugging.Create.{
  allow_duplicate, create_instance, check_creation, save_creation, save_new, replaced,
  extract_environment, compiles, creates, deletes, debug_handler, debug_handle,
}
use minide.Debugging.Creation.{saved_session}
use minide.Router.Handler.{unanswered, value, outer, inner, read_json_body}

module _ {J FilePath World : Type 0} (t : Tools J FilePath World) (id : Bytes) where
  delete_instance-value :
      (s : DebugServer FilePath World) (sess : DebugSession FilePath) (debugger : Debugger)
      (instance_id : Bytes) (body : J)
      → t.ops.contains body (codes "instanceId") ≡ true
      → t.ops.get_string (t.ops.at body (codes "instanceId")) ≡ some instance_id
      → find id s.sessions ≡ some sess
      → find instance_id sess.debugger_instances ≡ some debugger
      → delete_instance t id body s ≡ (
        value unanswered,
        record s {
          sessions =
              (partially_save_session (with_instances (erase instance_id)) id sess s.sessions).1;
          world = stop t.gdb debugger s.world;
        },
      )
  unfolding delete_instance need_text debug_session find_instance save_instances in_world
  delete_instance-value s sess debugger instance_id body has_id id_read there listed =
      rw (has_id, id_read, there, listed) refl

  -- A request to delete a debugger of the session stops it and takes it out of the session, and is never
  -- answered.
  pub delete_instance-unanswered :
      (settings : Environments) (s : DebugServer FilePath World) (sess : DebugSession FilePath)
      (debugger : Debugger) (instance_id : Bytes) (body : J)
      → t.ops.contains body (codes "instanceId") ≡ true
      → t.ops.get_string (t.ops.at body (codes "instanceId")) ≡ some instance_id
      → find id s.sessions ≡ some sess
      → find instance_id sess.debugger_instances ≡ some debugger
      → let r = debug_handle t settings id (deletes (some body)) s in
        (r.0 ≡ some unanswered)
        × (r.1.world ≡ stop t.gdb debugger s.world)
        × (rest : DebugSession FilePath) × (find id r.1.sessions ≡ some rest)
        × (find instance_id rest.debugger_instances ≡ none)
  unfolding debug_handle debug_handler read_json_body
  delete_instance-unanswered settings s sess debugger instance_id body has_id id_read there listed =
      let gone : find instance_id (erase instance_id sess.debugger_instances) ≡ none =
        find-erase instance_id instance_id sess.debugger_instances
        ∙ rw (bytes_eq_self instance_id) refl in
      rw (delete_instance-value s sess debugger instance_id body has_id id_read there listed) (
        refl,
        refl,
        with_instances (erase instance_id) sess sess,
        saved_session t settings id (erase instance_id) s sess there,
        gone,
      )

  extract_environment-custom :
      (settings : Environments) (sess : DebugSession FilePath) (profile : RunConfig)
      → compiles t id settings profile.environment ≡ false
      → extract_environment t id settings (replaced t id settings sess profile) ≡ some none
  unfolding extract_environment replaced
  extract_environment-custom settings sess profile custom = rw custom refl

  from_session :
      (settings others : Environments) (s : DebugServer FilePath World)
      (sess : DebugSession FilePath) (new_id : Bytes) (body : J) (profile : RunConfig)
      → find id s.sessions ≡ some sess
      → config_from_json t.ops t.is_null (t.ops.at body (codes "runProfile")) ≡ some profile
      → compiles t id settings profile.environment ≡ false
      → create_instance t id settings new_id body s ≡ create_instance t id others new_id body s
  unfolding create_instance check_creation save_creation debug_session
  from_session settings others s sess new_id body profile there read custom =
      elim (Bool-cases (t.is_empty sess.root)) [
        | inl none_open ↦ rw (there, none_open) refl
        | inr root ↦ elim (Bool-cases (t.is_empty sess.active_project)) [
          | inl inactive ↦ rw (there, root, inactive) refl
          | inr active ↦ elim (Bool-cases (t.ops.contains body (codes "runProfile"))) [
            | inr missing ↦ rw (there, root, active, missing) refl
            | inl has_profile ↦ elim (Option-cases (allow_duplicate t id settings body)) [
              | inl unread ↦
                  unfold allow_duplicate in rw (there, root, active, has_profile, read, unread) refl
              | inr (allowed, allow) ↦
                  let allow' : allow_duplicate t id others body ≡ some allowed =
                    unfold allow_duplicate in allow in
                  let own = extract_environment-custom settings sess profile custom in
                  let other =
                    extract_environment-custom others sess profile (unfold compiles in custom) in
                  unfold save_new in
                  unfold replaced in
                  rw (there, root, active, has_profile, read, allow, allow', own, other) refl
            ]
          ]
        ]
      ]

  -- Where the environment that a run profile names is none of "", "inherit" and "default", a request
  -- to create an instance does the same whatever environments the settings have: the answer, the
  -- sessions and the processes are the same.
  pub create_instance-ignores :
      (settings others : Environments) (s : DebugServer FilePath World) (new_id : Bytes) (body : J)
      (profile : RunConfig)
      → config_from_json t.ops t.is_null (t.ops.at body (codes "runProfile")) ≡ some profile
      → compiles t id settings profile.environment ≡ false
      → debug_handle t settings id (creates new_id (some body)) s
        ≡ debug_handle t others id (creates new_id (some body)) s
  unfolding debug_handle debug_handler read_json_body
  create_instance-ignores settings others s new_id body profile read custom =
      ap (λ r. outer (inner r))
        (elim (Option-cases (find id s.sessions)) [
          | inl gone ↦
              unfold create_instance in
              unfold check_creation in unfold debug_session in rw gone refl
          | inr (sess, there) ↦
              from_session settings others s sess new_id body profile there read custom
        ])
