-- ===== src/UserSession/History.antt =====
-- FrontendUserSession: whole histories of a connection.
use minide.Base.{
  ◌≡◌, ◌≢◌, refl, sym, ap, ◌∙◌, subst, ◌⊎◌, inl, inr, Bool, true, false, Option, none, some, List,
  [], ◌∷◌, ◌++◌, Bytes, arith, All, All-append, Bool-cases, Option-cases,
}
use mathlib.Core.Option.{some-injective}
use minide.Json.{JsonOps}
use minide.StreamParser.Scan.{Popped, nothing, message, parse_error, feed, pop_message}
use minide.Dispatcher.{Subscribers, Surroundings}
use minide.UserSession.Plugins.{Start, Loaded, all_loaded, failed, exception, non_standard}
use minide.UserSession.Handlers.{
  Session, fresh, Completion, nothing_more, after_authentication, ending, Outcome, returned, threw,
  undefined, write_json, on_message, on_text, on_popped, on_after_authentication, write_complete,
  complete_next, report_loading,
}
use minide.UserSession.Isolation.{AtEnd}

-- What happens to a connection: a text arrives, or a frame has been written.
pub data Event : Type 0 where
  text : Bytes → Event
  written : Event

abbrev IsQuiet : Completion → Type 0
IsQuiet c = c ≢ after_authentication

module _ {World : Type 0} (subs : Subscribers) (w : World) where
  -- As long as the client is not known, all is as it was when it connected.
  pub record Untouched (s : Session World) : Type 0 where
    pub no_plugins : s.plugins ≡ []
    pub quiet : All IsQuiet s.writing
    pub same_world : s.world ≡ w
    pub same_subscribers : s.subscribers ≡ subs

  abbrev pub UntilKnown : Session World → Type 0
  UntilKnown s = s.authenticated ≡ false → Untouched s

module _ {J World : Type 0} (ops : JsonOps J) (env : Surroundings J World) where
  abbrev state_of : Outcome World → Option (Session World)
  state_of (returned s) = some s
  state_of (threw s) = some s
  state_of undefined = none

  module _ (start : Bytes → Start) (entries : List (Bytes × Bool)) where
    -- `none` where the behaviour is undefined.
    unfoldable pub step : Session World → Event → Option (Session World)
    step s (text txt) = state_of (on_text ops env s txt)
    step s written = some (write_complete ops start entries s)

    abbrev run_on :
        (Session World → Option (Session World)) → Option (Session World) → Option (Session World)
    run_on go none = none
    run_on go (some s) = go s

    unfoldable pub run : List Event → Session World → Option (Session World)
    unfolding step
    run [] s = some s
    run (e ∷ es) s = run_on (run es) (step s e)

  AtEnd-mono :
      (P Q : Session World → Type 0)
      → ((s : Session World) → P s → Q s)
      → (o : Outcome World) → AtEnd P o
      → AtEnd Q o
  AtEnd-mono P Q f (returned s) h = f s h
  AtEnd-mono P Q f (threw s) h = f s h
  AtEnd-mono P Q f undefined h = tt

  abbrev pub IsKnown : Session World → Type 0
  IsKnown s = s.authenticated ≡ true

  on_message-IsKnown :
      (s : Session World) (j : J) → IsKnown s → AtEnd IsKnown (on_message ops env s j)
  unfolding on_message
  on_message-IsKnown s j k = ground arith

  module _ (subs : Subscribers) (w : World) where
    known-UntilKnown : (s : Session World) → IsKnown s → UntilKnown subs w s
    known-UntilKnown s k l = absurd (ground arith)

    IsQuiet-reply :
        (cs : List Completion) → All IsQuiet cs → All IsQuiet (cs ++ (nothing_more ∷ []))
    IsQuiet-reply cs h = All-append IsQuiet cs (nothing_more ∷ []) h ((λ e. cc e), tt)

    replied-Untouched :
        (s s' : Session World)
        → Untouched subs w s
        → s'.plugins ≡ s.plugins
        → s'.world ≡ s.world
        → s'.subscribers ≡ s.subscribers
        → (s'.writing ≡ s.writing) ⊎ (s'.writing ≡ s.writing ++ (nothing_more ∷ []))
        → Untouched subs w s'
    replied-Untouched s s' u p x y z = record {
      no_plugins = p ∙ u.no_plugins;
      quiet = elim z [
        | inl e ↦ subst (All IsQuiet) (sym e) u.quiet
        | inr e ↦ subst (All IsQuiet) (sym e) (IsQuiet-reply s.writing u.quiet)
      ];
      same_world = x ∙ u.same_world;
      same_subscribers = y ∙ u.same_subscribers;
    }

    -- An unknown client's message leaves it unknown, with at most one more reply, or makes it known.
    abbrev Answered : Session World → Session World → Type 0
    Answered s s' =
        (s'.authenticated ≡ true)
        ⊎ ((s'.plugins ≡ s.plugins)
            × (s'.world ≡ s.world)
            × (s'.subscribers ≡ s.subscribers)
            × ((s'.writing ≡ s.writing) ⊎ (s'.writing ≡ s.writing ++ (nothing_more ∷ []))))

    on_message-Answered :
        (s : Session World) (j : J)
        → s.authenticated ≡ false
        → AtEnd (Answered s) (on_message ops env s j)
    unfolding on_message
    on_message-Answered s j l = ground arith

    Answered-UntilKnown :
        (s s' : Session World) → Untouched subs w s → Answered s s' → UntilKnown subs w s'
    Answered-UntilKnown s s' u (inl k) = known-UntilKnown s' k
    Answered-UntilKnown s s' u (inr (p, x, y, z)) = λ l. replied-Untouched s s' u p x y z

    on_message-UntilKnown :
        (s : Session World) (j : J)
        → UntilKnown subs w s
        → AtEnd (UntilKnown subs w) (on_message ops env s j)
    on_message-UntilKnown s j h = elim (Bool-cases s.authenticated) [
      | inl k ↦ AtEnd-mono IsKnown (UntilKnown subs w) known-UntilKnown _ (on_message-IsKnown s j k)
      | inr l ↦
          AtEnd-mono (Answered s) (UntilKnown subs w) (λ s'. Answered-UntilKnown s s' (h l)) _
            (on_message-Answered s j l)
    ]

    received-UntilKnown :
        (s : Session World) (popped : Popped J)
        → UntilKnown subs w s
        → AtEnd (UntilKnown subs w) (on_popped ops env s popped)
    received-UntilKnown s nothing h = h
    received-UntilKnown s parse_error h = h
    received-UntilKnown s (message j) h = on_message-UntilKnown s j h

    on_text-UntilKnown :
        (s : Session World) (txt : Bytes)
        → UntilKnown subs w s
        → AtEnd (UntilKnown subs w) (on_text ops env s txt)
    unfolding on_text
    on_text-UntilKnown s txt h =
        let r = pop_message ops.parse (feed s.text_parser txt) in
        received-UntilKnown (record s { text_parser = r.0 }) r.1
          (λ l.
            let u = h l in
            record {
              no_plugins = u.no_plugins;
              quiet = u.quiet;
              same_world = u.same_world;
              same_subscribers = u.same_subscribers;
            })

    module _ (start : Bytes → Start) (entries : List (Bytes × Bool)) where
      report-authenticated :
          (s : Session World) (r : Loaded)
          → (report_loading ops s r).authenticated ≡ s.authenticated
      unfolding write_json
      report-authenticated s (all_loaded names) = refl
      report-authenticated s (failed names (exception what)) = refl
      report-authenticated s (failed names non_standard) = refl

      loading-authenticated :
          (s : Session World)
          → (on_after_authentication ops start entries s).authenticated ≡ s.authenticated
      unfolding on_after_authentication
      loading-authenticated s = report-authenticated s _

      rewritten :
          (s : Session World) (cs : List Completion)
          → All IsQuiet cs
          → Untouched subs w s
          → Untouched subs w (record s { writing = cs })
      rewritten s cs q u = record {
        no_plugins = u.no_plugins;
        quiet = q;
        same_world = u.same_world;
        same_subscribers = u.same_subscribers;
      }

      left-UntilKnown :
          (o : Outcome World) (s' : Session World)
          → AtEnd (UntilKnown subs w) o
          → state_of o ≡ some s'
          → UntilKnown subs w s'
      left-UntilKnown (returned s) s' h e = subst (UntilKnown subs w) (some-injective _ _ e) h
      left-UntilKnown (threw s) s' h e = subst (UntilKnown subs w) (some-injective _ _ e) h
      left-UntilKnown undefined s' h e = cc e

      completed-UntilKnown :
          (s : Session World) (cs : List Completion)
          → (s.authenticated ≡ false → All IsQuiet cs)
          → UntilKnown subs w s
          → UntilKnown subs w (complete_next ops start entries s cs)
      completed-UntilKnown s [] q h = h
      completed-UntilKnown s (nothing_more ∷ cs) q h = λ l. rewritten s cs (q l).1 (h l)
      completed-UntilKnown s (after_authentication ∷ cs) q h =
          λ l. absurd ((q (sym (loading-authenticated _) ∙ l)).0 refl)
      completed-UntilKnown s (ending ∷ cs) q h = λ l.
          let u = rewritten s cs (q l).1 (h l) in
          record {
            no_plugins = u.no_plugins;
            quiet = u.quiet;
            same_world = u.same_world;
            same_subscribers = u.same_subscribers;
          }

      step-UntilKnown :
          (s s' : Session World) (e : Event)
          → UntilKnown subs w s
          → step start entries s e ≡ some s'
          → UntilKnown subs w s'
      unfolding step write_complete
      step-UntilKnown s s' (text txt) h e =
          left-UntilKnown (on_text ops env s txt) s' (on_text-UntilKnown s txt h) e
      step-UntilKnown s s' written h e =
          subst (UntilKnown subs w) (some-injective _ _ e)
            (completed-UntilKnown s s.writing (λ l. (h l).quiet) h)

      run-UntilKnown :
          (es : List Event) (s s' : Session World)
          → UntilKnown subs w s
          → run start entries es s ≡ some s'
          → UntilKnown subs w s'
      unfolding run
      run-UntilKnown [] s s' h e = subst (UntilKnown subs w) (some-injective _ _ e) h
      run-UntilKnown (ev ∷ es) s s' h e = elim (Option-cases (step start entries s ev)) [
        | inl stuck ↦ cc (ap (run_on start entries (run start entries es)) (sym stuck) ∙ e)
        | inr (t, went) ↦
            run-UntilKnown es t s' (step-UntilKnown s t ev h went)
              (ap (run_on start entries (run start entries es)) (sym went) ∙ e)
      ]

      -- After any history of texts and finished writes whose behaviour is defined, a client that
      -- is not known has caused no plugin to be loaded and no callback to be called, and no
      -- subscription has changed.
      pub run-Untouched :
          (es : List Event) (s : Session World)
          → run start entries es (fresh subs w) ≡ some s
          → s.authenticated ≡ false
          → Untouched subs w s
      run-Untouched es s e =
          run-UntilKnown es (fresh subs w) s
            (λ l. record {
              no_plugins = refl;
              quiet = tt;
              same_world = refl;
              same_subscribers = refl;
            })
            e
