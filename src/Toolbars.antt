-- ===== src/Toolbars.antt =====
-- worker/toolbars/scripted_toolbar.cpp: a toolbar whose behaviour is a Lua script. Lua and its binding
-- are parameters: `L` is the state of the interpreter, `T` a table in it.
pub mod Actions
pub mod Guards
pub mod Locking
pub mod Initialize
pub mod Requests
pub mod Lookup
pub mod Reach
pub mod Loading
pub mod Tests
use minide.Base.{
  ℕ, suc, ◌+◌, Bool, true, false, not, Option, none, some, List, [], ◌∷◌, ◌++◌, Bytes, codes, ℤ,
  bytes_eq, if◌then◌else◌,
}

-- What is handed to a function of the script.
pub data Argument : Type 0 where
  text_argument : Bytes → Argument
  int_argument : ℤ → Argument
  bool_argument : Bool → Argument

-- `none` is an exception. `entries` are the values of a table, as far as they are tables.
pub record Lua (L T : Type 0) : Type 0 where
  pub global_valid : Bytes → L → Bool
  pub global_callable : Bytes → L → Bool
  pub call_for_table : Bytes → L → Option T × L
  pub call_global : Bytes → List Argument → L → Option Bool × L
  pub valid : T → Bytes → L → Bool
  pub callable : T → Bytes → L → Bool
  pub table_at : T → Bytes → L → Option T
  pub entries : T → L → List (Option T)
  pub get_text_or : T → Bytes → Bytes → L → Bytes
  pub get_text : T → Bytes → L → Option Bytes
  pub get_bool_or : T → Bytes → Bool → L → Bool
  pub get_texts_or : T → Bytes → L → List Bytes
  -- The values with their keys, as decimal numbers.
  pub numbered : T → L → List (Bytes × Option T)
  pub call_field : T → Bytes → List Argument → L → Option Bool × L

-- `what` is the text of an exception.
pub data ToolbarApiError : Type 0 where
  lock_timeout : ToolbarApiError
  various : Bytes → ToolbarApiError
  what : ToolbarApiError

abbrev pub error_message : ToolbarApiError → Option Bytes
error_message lock_timeout = some (codes "lock timed out, some other action is in progress")
error_message (various message) = some message
error_message what = none

-- A result, an error, or an exception that leaves the function.
pub data Fallible (A : Type 0) : Type 0 where
  success : A → Fallible A
  error : ToolbarApiError → Fallible A
  thrown : Fallible A

-- `loaded` and the state collection: the interpreter, how often its recursive mutex is held by the
-- thread that is looked at, and the calls into the script, each with how often the mutex was held, the
-- last first.
pub record Engine (L : Type 0) : Type 0 where
  pub lua : L
  pub held : ℕ
  pub calls : List (Bytes × ℕ)
  pub loaded : Bool

abbrev pub Action : Type 0 → Type 0 → Type 0
Action L A = Engine L → Fallible A × Engine L

module _ {L : Type 0} where
  abbrev pub then_do :
      {A B : Type 0} → Fallible A × Engine L → (A → Action L B) → Fallible B × Engine L
  then_do (success a, s) f = f a s
  then_do (error e, s) f = (error e, s)
  then_do (thrown, s) f = (thrown, s)

  infixl 5 ◌>>=◌ ◌>>◌
  abbrev pub ◌>>=◌ : {A B : Type 0} → Action L A → (A → Action L B) → Action L B
  ◌>>=◌ m f s = then_do (m s) f

  abbrev pub ◌>>◌ : {B : Type 0} → Action L (Unit {0}) → Action L B → Action L B
  ◌>>◌ m k s = then_do (m s) (λ _. k)

  abbrev pub give : {A : Type 0} → A → Action L A
  give a s = (success a, s)

  abbrev pub fail : {A : Type 0} → ToolbarApiError → Action L A
  fail e s = (error e, s)

  abbrev pub or_throw : {A : Type 0} → Option A → Action L A
  or_throw none s = (thrown, s)
  or_throw (some a) s = (success a, s)

  abbrev pub demand : Bool → Bytes → Action L (Unit {0})
  demand true message = give tt
  demand false message = fail (various message)

  abbrev pub read : {A : Type 0} → (L → A) → Action L A
  read look s = (success (look s.lua), s)

  abbrev pub released : {A : Type 0} → Fallible A × Engine L → ℕ → Fallible A × Engine L
  released (r, s) held = (r, record s { held = held })

  -- A block with a guard of the mutex, which is given back at the end whatever the end is.
  unfoldable pub guarded : {A : Type 0} → Action L A → Action L A
  guarded m s = released (m (record s { held = suc s.held })) s.held

  -- The guard that waits 500 ms; `free` says whether the mutex can be had within that time.
  unfoldable pub timed : {A : Type 0} → Bool → Action L A → Action L A
  unfolding guarded
  timed true m = guarded m
  timed false m = fail lock_timeout

  abbrev pub caught : {A : Type 0} → Fallible A × Engine L → Fallible A × Engine L
  caught (success a, s) = (success a, s)
  caught (error e, s) = (error e, s)
  caught (thrown, s) = (error what, s)

  -- `catch(std::exception const& exc)`, whose text is the error.
  abbrev pub catching : {A : Type 0} → Action L A → Action L A
  catching m s = caught (m s)

  abbrev pub called : {A : Type 0} → Bytes → Option A × L → Engine L → Fallible A × Engine L
  called name (r, lua) s = or_throw r (record s { lua = lua; calls = (name, s.held) ∷ s.calls })

  -- A call of a function of the script.
  unfoldable pub call : {A : Type 0} → Bytes → (L → Option A × L) → Action L A
  call name f s = called name (f s.lua) s
