-- ===== src/Dispatcher/Tests.antt =====
-- Dispatcher: a round over a dead subscription, two live ones and one of another type.
use minide.Base.{ℕ, ◌≡◌, refl, Bool, true, false, List, [], ◌∷◌, codes, ◌==◌, not, Bytes}
use minide.Dispatcher.{Subscribers, dispatch}
use minide.Dispatcher.Delivery.{recording, listeners, up_to_refusal, dispatch-recording}

abbrev subs : Subscribers
subs = (codes "open", 1) ∷ (codes "open", 2) ∷ (codes "load", 3) ∷ (codes "open", 4) ∷ []

abbrev not_one : ℕ → Bool
not_one id = not (id == 1)

dispatch-recording_example :
    (dispatch {Msg = ℕ} (recording not_one (λ id. not (id == 2))) (codes "open") 0 subs []).1
    ≡ 2 ∷ []
unfolding listeners up_to_refusal minide.Base.bytes_eq
dispatch-recording_example =
    dispatch-recording not_one (λ id. not (id == 2)) {Msg = ℕ} (codes "open") 0 subs []
