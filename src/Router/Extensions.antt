-- ===== src/Router/Extensions.antt =====
-- worker/routers/workspace.cpp, toggleSourceHeader: the extension that the partner of a file has.
use minide.Base.{
  ℕ, ◌≡◌, refl, sym, inl, inr, Bool, true, false, not, ◌&&◌, ◌||◌, Option, none, some, List, [],
  ◌∷◌, ◌++◌, Bytes, codes, bytes_eq, bytes_eq_iff, if◌then◌else◌, ◌==◌, arith, Bool-cases, drop,
  All, subst,
}
use minide.HashedFile.{lower}

abbrev pub is_any : Bytes → List Bytes → Bool
is_any e [] = false
is_any e (x ∷ xs) = bytes_eq e x || is_any e xs

abbrev pub source_extensions : List Bytes
source_extensions =
    codes ".cpp"
    ∷ codes ".c"
    ∷ codes ".cxx"
    ∷ codes ".cc"
    ∷ codes ".c++"
    ∷ codes ".cp"
    ∷ codes ".ii"
    ∷ codes ".i"
    ∷ codes ".m"
    ∷ codes ".mi"
    ∷ codes ".mm"
    ∷ codes ".mii"
    ∷ []

abbrev pub header_extensions : List Bytes
header_extensions =
    codes ".hh"
    ∷ codes ".h"
    ∷ codes ".hp"
    ∷ codes ".hpp"
    ∷ codes ".hxx"
    ∷ codes ".h++"
    ∷ codes ".tcc"
    ∷ codes ".txx"
    ∷ []

-- `extension[1] == c`.
abbrev second_is : ℕ → Bytes → Bool
second_is c (a ∷ b ∷ rest) = b == c
second_is c _ = false

-- `sourceExtension` and `headerExtension` as the code leaves them.
pub record Wanted : Type 0 where
  pub source_extension : Bytes
  pub header_extension : Bytes

-- Both fields of the body go to the first variable.
abbrev pub or_else : Option Bytes → Bytes → Bytes
or_else none d = d
or_else (some e) d = e

unfoldable pub wanted : Option Bytes → Option Bytes → Wanted
wanted source header = record {
  source_extension = or_else header (or_else source (codes "auto"));
  header_extension = codes "auto";
}

abbrev header_for : Wanted → Bytes → Bytes
header_for w e =
    if not (bytes_eq w.header_extension (codes "auto"))
    then w.header_extension
    else if second_is b'c' e
    then codes ".h" ++ drop 2 e
    else codes ".h"

abbrev source_for : Wanted → Bytes → Bytes
source_for w e =
    if not (bytes_eq w.source_extension (codes "auto"))
    then w.source_extension
    else if second_is b'h' e
    then codes ".c" ++ drop 2 e
    else codes ".cpp"

-- Whether the file is a source, and the extension of its partner; `none` for another file.
unfoldable pub target_extension : Wanted → Bytes → Option (Bool × Bytes)
unfolding lower
target_extension w extension =
    let e = lower extension in
    if is_any e source_extensions
    then some (true, header_for w e)
    else if is_any e header_extensions
    then some (false, source_for w e)
    else none

abbrev pub automatic : Wanted
automatic = record { source_extension = codes "auto"; header_extension = codes "auto" }

-- What holds of every member of a list holds of an extension that is any of them.
any-All : (P : Bytes → Type 0) (e : Bytes) (xs : List Bytes) → All P xs → is_any e xs ≡ true → P e
any-All P e [] h m = cc m
any-All P e (x ∷ xs) h m = elim (Bool-cases (bytes_eq e x)) [
  | inl same ↦ subst P (sym ((bytes_eq_iff e x).0 same)) h.0
  | inr other ↦ any-All P e xs h.1 (rw other at m)
]

abbrev pub is_regular : Bytes → Bool
is_regular e =
    (second_is b'c' e || second_is b'h' e) && not (is_any e (codes ".cc" ∷ codes ".hh" ∷ []))

abbrev partner : Bytes → Bytes
partner e = if is_any e source_extensions then header_for automatic e else source_for automatic e

-- What the toggle back from the partner of `e` gives, where `e` is regular.
abbrev ReturnsTo : Bool → Bytes → Type 0
ReturnsTo from_source e =
    is_regular e ≡ true → target_extension automatic (partner e) ≡ some (not from_source, e)

sources-ReturnsTo : All (ReturnsTo true) source_extensions
unfolding target_extension bytes_eq
sources-ReturnsTo = (
  (λ h. refl),
  (
    (λ h. refl),
    (
      (λ h. refl),
      (
        (λ h. cc h),
        (
          (λ h. refl),
          (
            (λ h. refl),
            (
              (λ h. cc h),
              ((λ h. cc h), ((λ h. cc h), ((λ h. cc h), ((λ h. cc h), ((λ h. cc h), tt))))),
            ),
          ),
        ),
      ),
    ),
  ),
)

headers-ReturnsTo : All (ReturnsTo false) header_extensions
unfolding target_extension bytes_eq
headers-ReturnsTo = (
  (λ h. cc h),
  (
    (λ h. refl),
    ((λ h. refl), ((λ h. refl), ((λ h. refl), ((λ h. refl), ((λ h. cc h), ((λ h. cc h), tt)))))),
  ),
)

-- Toggling twice, without wishes, gives back the extension in lower case, and a partner of the other
-- kind, for every extension that is recognised and goes on with a "c" or an "h", but for ".cc" and
-- ".hh".
pub target_extension-twice :
    (extension target : Bytes) (from_source : Bool)
    → target_extension automatic extension ≡ some (from_source, target)
    → is_regular (lower extension) ≡ true
    → target_extension automatic target ≡ some (not from_source, lower extension)
unfolding target_extension
target_extension-twice extension target from_source e r =
    let x = lower extension in
    elim (Bool-cases (is_any x source_extensions)) [
      | inl source ↦
          let kind : from_source ≡ true = ground arith in
          let same : target ≡ partner x = ground arith in
          rw (same, kind) (any-All (ReturnsTo true) x source_extensions sources-ReturnsTo source r)
      | inr other ↦ elim (Bool-cases (is_any x header_extensions)) [
        | inl header ↦
            let kind : from_source ≡ false = ground arith in
            let same : target ≡ partner x = ground arith in
            rw (same, kind)
              (any-All (ReturnsTo false) x header_extensions headers-ReturnsTo header r)
        | inr none_of ↦ cc (rw (other, none_of) at e)
      ]
    ]

-- The partners of ".cc" and ".hh" are ".hc" and ".ch", which are not recognised.
pub target_extension-doubled :
    (extension : Bytes)
    → is_any (lower extension) (codes ".cc" ∷ codes ".hh" ∷ []) ≡ true
    → (target : Bytes) × (from_source : Bool) × (target_extension automatic extension
        ≡ some (from_source, target))
      × (target_extension automatic target ≡ none)
unfolding target_extension bytes_eq
target_extension-doubled extension h =
    elim (Bool-cases (bytes_eq (lower extension) (codes ".cc"))) [
      | inl same ↦
          (codes ".hc", true, rw ((bytes_eq_iff (lower extension) (codes ".cc")).0 same) refl, refl)
      | inr other ↦ elim (Bool-cases (bytes_eq (lower extension) (codes ".hh"))) [
        | inl same ↦ (
          codes ".ch",
          false,
          rw ((bytes_eq_iff (lower extension) (codes ".hh")).0 same) refl,
          refl,
        )
        | inr neither ↦ cc (rw (other, neither) at h)
      ]
    ]

-- The extension that a client wants for headers is never used for the partner of a source, and is
-- used for the partner of a header in place of the one that it wants for sources.
pub target_extension-wanted :
    (source : Option Bytes) (header extension : Bytes)
    → bytes_eq header (codes "auto") ≡ false
    → target_extension (wanted source (some header)) extension ≡ (
        if is_any (lower extension) source_extensions
        then target_extension automatic extension
        else if is_any (lower extension) header_extensions
        then some (false, header)
        else none)
unfolding target_extension wanted
target_extension-wanted source header extension h =
    elim (Bool-cases (is_any (lower extension) source_extensions)) [
      | inl s ↦ rw s refl
      | inr n ↦ rw (n, h) refl
    ]
