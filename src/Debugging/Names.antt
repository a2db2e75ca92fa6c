-- ===== src/Debugging/Names.antt =====
-- Debugging: how the distinct names of the run configurations of a session change with its debuggers.
use minide.Base.{
  ◌≡◌, refl, true, false, Option, none, some, List, [], ◌∷◌, Bytes, bytes_eq, bytes_eq_iff,
  bytes_eq_self, inl, inr, Bool-cases, arith,
}
use minide.Base.Dict.{find, put, erase}
use minide.Debugging.{Debugger, run_config_name}
use minide.Debugging.Requests.{DebugSession}
use minide.Debugging.Create.{has_name}

-- The names of the run configurations are distinct.
abbrev pub NamesDistinct : List (Bytes × Debugger) → Type 0
NamesDistinct [] = Unit
NamesDistinct ((k, debugger) ∷ instances) =
    (has_name (run_config_name debugger) instances ≡ false) × NamesDistinct instances

has_name-put :
    (name k : Bytes) (debugger : Debugger) (instances : List (Bytes × Debugger))
    → bytes_eq (run_config_name debugger) name ≡ false
    → has_name name instances ≡ false
    → has_name name (put k debugger instances) ≡ false
unfolding has_name put
has_name-put name k debugger [] apart h = ground arith
has_name-put name k debugger ((k', d) ∷ instances) apart h =
    ground (arith, has_name-put name k debugger instances)

pub bytes_eq_swap : (a b : Bytes) → bytes_eq a b ≡ false → bytes_eq b a ≡ false
bytes_eq_swap a b h = ground (arith, bytes_eq_iff a b, bytes_eq_iff b a)

pub put-NamesDistinct :
    (k : Bytes) (debugger : Debugger) (instances : List (Bytes × Debugger))
    → NamesDistinct instances
    → has_name (run_config_name debugger) instances ≡ false
    → NamesDistinct (put k debugger instances)
unfolding put has_name
put-NamesDistinct k debugger [] distinct new = (refl, tt)
put-NamesDistinct k debugger ((k', d) ∷ instances) distinct new =
    let parts : (bytes_eq (run_config_name d) (run_config_name debugger) ≡ false)
        × (has_name (run_config_name debugger) instances ≡ false) =
      (ground arith, ground arith) in
    elim (Bool-cases (bytes_eq k' k)) [
      | inl e ↦ rw e (parts.1, distinct.1)
      | inr e ↦ rw e (
        has_name-put (run_config_name d) k debugger instances
            (bytes_eq_swap (run_config_name d) (run_config_name debugger) parts.0) distinct.0,
        put-NamesDistinct k debugger instances distinct.1 parts.1,
      )
    ]

has_name-erase :
    (name k : Bytes) (instances : List (Bytes × Debugger))
    → has_name name instances ≡ false
    → has_name name (erase k instances) ≡ false
unfolding has_name erase
has_name-erase name k [] h = refl
has_name-erase name k ((k', d) ∷ instances) h = ground (arith, has_name-erase name k instances)

pub erase-NamesDistinct :
    (k : Bytes) (instances : List (Bytes × Debugger))
    → NamesDistinct instances
    → NamesDistinct (erase k instances)
unfolding erase
erase-NamesDistinct k [] distinct = tt
erase-NamesDistinct k ((k', d) ∷ instances) distinct = elim (Bool-cases (bytes_eq k' k)) [
  | inl e ↦ rw e (erase-NamesDistinct k instances distinct.1)
  | inr e ↦ rw e (
    has_name-erase (run_config_name d) k instances distinct.0,
    erase-NamesDistinct k instances distinct.1,
  )
]

abbrev pub instances_at :
    {FilePath : Type 0} → Option (DebugSession FilePath) → List (Bytes × Debugger)
instances_at none = []
instances_at (some sess) = sess.debugger_instances

find-has_name :
    (k : Bytes) (d : Debugger) (instances : List (Bytes × Debugger))
    → find k instances ≡ some d
    → has_name (run_config_name d) instances ≡ true
unfolding find has_name
find-has_name k d [] e = cc e
find-has_name k d ((k', d') ∷ instances) e = elim (Bool-cases (bytes_eq k' k)) [
  | inl here ↦
      let same : d' ≡ d = cc (e, here) in rw same (rw (bytes_eq_self (run_config_name d)) refl)
  | inr apart ↦ ground (arith, e, apart, find-has_name k d instances)
]

-- Two keys with debuggers of one name.
pub same_names :
    (k l : Bytes) (d e : Debugger) (instances : List (Bytes × Debugger))
    → bytes_eq k l ≡ false
    → run_config_name d ≡ run_config_name e
    → find k instances ≡ some d
    → find l instances ≡ some e
    → ¬ NamesDistinct instances
unfolding find
same_names k l d e [] apart named at_k at_l distinct = cc at_k
same_names k l d e ((k', x) ∷ instances) apart named at_k at_l distinct =
    elim (Bool-cases (bytes_eq k' k)) [
      | inl here ↦
          let same : x ≡ d = cc (at_k, here) in
          let further : find l instances ≡ some e =
            ground (arith, at_l, here, apart, bytes_eq_iff k' k, bytes_eq_iff k' l) in
          let absent : has_name (run_config_name e) instances ≡ false =
            rw (← named, ← same) distinct.0 in
          cc (absent, find-has_name l e instances further)
      | inr elsewhere ↦
          let further : find k instances ≡ some d = cc (at_k, elsewhere) in
          elim (Bool-cases (bytes_eq k' l)) [
            | inl here ↦
                let same : x ≡ e = cc (at_l, here) in
                let absent : has_name (run_config_name d) instances ≡ false =
                  rw (named, ← same) distinct.0 in
                cc (absent, find-has_name k d instances further)
            | inr there ↦
                same_names k l d e instances apart named further (cc (at_l, there)) distinct.1
          ]
    ]
