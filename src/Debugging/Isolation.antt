-- ===== src/Debugging/Isolation.antt =====
-- Debugging: what the requests of one session keep of the others.
use minide.Base.{◌≡◌, refl, ◌∙◌, false, Option, none, some, List, Bytes, bytes_eq}
use minide.Base.Dict.{find, put, erase}
use minide.SessionStorage.{partially_save_session}
use minide.SessionStorage.Laws.{partially_save_session-find}
use minide.RunConfig.{RunConfig}
use minide.Settings.{Environments}
use minide.Debugging.{Debugger}
use minide.Debugging.Requests.{
  DebugSession, DebugServer, Tools, with_instances, debug_session, save_instances, in_world,
  need_text, or_refuse, find_instance, delete_instance, raw_command_request, command_request,
}
use minide.Debugging.Create.{
  create_instance, save_creation, check_creation, save_new, save_where, on_exit, Event, creates,
  deletes, sends_raw, sends, exits, debug_handler, debug_handle,
}
use minide.Router.Handler.{read_json_body}
use minide.Router.Keeps.{
  StateRelation, Keeps, branch-Keeps, bind-Keeps, seq-Keeps, give-Keeps, answer-Keeps,
  or_raise-Keeps, require-Keeps, read_json_body-Keeps, outer-keeps,
}

module _ {J FilePath World : Type 0} (t : Tools J FilePath World) (id : Bytes)
    (re : StateRelation (DebugServer FilePath World)) where
  debug_session-Keeps : Keeps re (debug_session t id)
  unfolding debug_session
  debug_session-Keeps = record {
    at = λ s. (or_raise-Keeps {FilePath = FilePath} {re = re} (find id s.sessions)).at s;
  }

  need_text-Keeps : (body : J) (key message : Bytes) → Keeps re (need_text t id body key message)
  unfolding need_text
  need_text-Keeps body key message = seq-Keeps (require-Keeps _ _) (or_raise-Keeps _)

  or_refuse-Keeps : (o : Option Debugger) → Keeps re (or_refuse t id o)
  or_refuse-Keeps none = answer-Keeps _
  or_refuse-Keeps (some debugger) = give-Keeps _

  find_instance-Keeps :
      (instance_id : Bytes) (sess : DebugSession FilePath)
      → Keeps re (find_instance t id instance_id sess)
  unfolding find_instance
  find_instance-Keeps instance_id sess = or_refuse-Keeps (find instance_id sess.debugger_instances)

  ruleset steps = (
    bind-Keeps, seq-Keeps, give-Keeps, answer-Keeps, or_raise-Keeps, require-Keeps, branch-Keeps,
    debug_session-Keeps, need_text-Keeps, find_instance-Keeps,
  )

  module _
      (erases : (s : DebugServer FilePath World) (k : Bytes) (from : DebugSession FilePath)
        → re.related s (record s {
          sessions = (partially_save_session (with_instances (erase k)) id from s.sessions).1;
        }))
      (acts : (s : DebugServer FilePath World) (world : World)
        → re.related s (record s { world = world })) where
    save_instances-Keeps :
        (k : Bytes) (from : DebugSession FilePath) → Keeps re (save_instances t id (erase k) from)
    unfolding save_instances
    save_instances-Keeps k from = record { at = λ s. erases s k from }

    in_world-Keeps : (act : World → World) → Keeps re (in_world t id act)
    unfolding in_world
    in_world-Keeps act = record { at = λ s. acts s (act s.world) }

    delete_instance-Keeps : (body : J) → Keeps re (delete_instance t id body)
    unfolding delete_instance
    delete_instance-Keeps body =
        search (steps, save_instances-Keeps, in_world-Keeps) depth 40 fits 3000

    raw_command_request-Keeps : (body : J) → Keeps re (raw_command_request t id body)
    unfolding raw_command_request
    raw_command_request-Keeps body = search (steps, in_world-Keeps) depth 40 fits 3000

    command_request-Keeps : (body : J) → Keeps re (command_request t id body)
    unfolding command_request
    command_request-Keeps body = search (steps, in_world-Keeps) depth 40 fits 3000

    on_exit-Keeps :
        (settings : Environments) (instance_id : Bytes)
        → Keeps re (on_exit t id settings instance_id)
    unfolding on_exit
    on_exit-Keeps settings instance_id =
        search (steps, save_instances-Keeps, in_world-Keeps) depth 40 fits 3000

    -- Where the creation of a debugger keeps the relation, all requests do, and the end of a debugger.
    pub debug_handler-Keeps :
        (settings : Environments) (event : Event J)
        → ((new_id : Bytes) (body : Option J)
            → event ≡ creates new_id body
            → Keeps re (read_json_body body (create_instance t id settings new_id)))
        → Keeps re (debug_handler t settings id event)
    unfolding debug_handler
    debug_handler-Keeps settings (creates new_id body) h = h new_id body refl
    debug_handler-Keeps settings (deletes body) h =
        read_json_body-Keeps body _ delete_instance-Keeps
    debug_handler-Keeps settings (sends_raw body) h =
        read_json_body-Keeps body _ raw_command_request-Keeps
    debug_handler-Keeps settings (sends body) h = read_json_body-Keeps body _ command_request-Keeps
    debug_handler-Keeps settings (exits instance_id) h =
        seq-Keeps (on_exit-Keeps settings instance_id) (give-Keeps _)

  module _
      (puts : (s : DebugServer FilePath World) (k : Bytes) (debugger : Debugger)
          (from : DebugSession FilePath) (world : World)
        → re.related s (record s {
          sessions =
              (partially_save_session (with_instances (put k debugger)) id from s.sessions).1;
          world = world;
        }))
      (stops : (s : DebugServer FilePath World) (world : World)
        → re.related s (record s { world = world }))
      (settings : Environments) where
    save_where-keeps :
        (from : DebugSession FilePath) (new_id : Bytes) (s : DebugServer FilePath World)
        (found : Option (DebugSession FilePath)) (started : Option (Debugger × World))
        → re.related s (save_where t id settings from new_id found started s).1
    save_where-keeps from new_id s none started = re.related-refl s
    save_where-keeps from new_id s (some old) none = stops s (t.gdb.stop_unstarted s.world)
    save_where-keeps from new_id s (some old) (some (debugger, world)) =
        puts s new_id debugger from world

    save_new-Keeps :
        (from : DebugSession FilePath) (new_id : Bytes) (config : RunConfig)
        (env : Option (List (Bytes × Bytes)))
        → Keeps re (save_new t id settings from new_id config env)
    unfolding save_new
    save_new-Keeps from new_id config env = record {
      at = λ s. save_where-keeps from new_id s (find id s.sessions) _;
    }

    pub create_instance-Keeps :
        (new_id : Bytes) (body : J) → Keeps re (create_instance t id settings new_id body)
    unfolding create_instance check_creation save_creation
    create_instance-Keeps new_id body = search (steps, save_new-Keeps) depth 40 fits 3000

module _ {J FilePath World : Type 0} (t : Tools J FilePath World) (settings : Environments)
    (id other : Bytes) where
  -- The session of the other id is as before.
  abbrev same_other : StateRelation (DebugServer FilePath World)
  same_other = record {
    related = λ s u. find other u.sessions ≡ find other s.sessions;
    related-refl = λ s. refl;
    related-trans = λ s u v h k. k ∙ h;
  }

  -- Nothing that comes for a session changes another session.
  pub debug_handle-others :
      (event : Event J) (s : DebugServer FilePath World)
      → bytes_eq id other ≡ false
      → find other (debug_handle t settings id event s).1.sessions ≡ find other s.sessions
  unfolding debug_handle
  debug_handle-others event s apart =
      outer-keeps same_other s (debug_handler t settings id event s) (
        (debug_handler-Keeps t id same_other (λ s k from. saves s (erase k) from) (λ s world. refl)
            settings event
            (λ new_id body e. read_json_body-Keeps body _ (
              create_instance-Keeps t id same_other
                (λ s k debugger from world. saves s (put k debugger) from) (λ s world. refl)
                settings new_id))).at
          s)
    where
      saves :
          (s : DebugServer FilePath World)
          (change : List (Bytes × Debugger) → List (Bytes × Debugger))
          (from : DebugSession FilePath)
          → find other (partially_save_session (with_instances change) id from s.sessions).1
            ≡ find other s.sessions
      saves s change from =
          let found =
            partially_save_session-find (with_instances change) other id from s.sessions in
          found.0 ∙ rw apart refl
