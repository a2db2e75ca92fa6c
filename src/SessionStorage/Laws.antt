-- ===== src/SessionStorage/Laws.antt =====
-- SessionStorage: what each operation does to what is found under every id.
use minide.Base.{
  ℕ, ◌+◌, ◌≡◌, refl, sym, ap, ◌∙◌, inl, inr, Bool, true, false, Option, none, some, List, [], ◌∷◌,
  Bytes, bytes_eq, ltb, if◌then◌else◌, arith, Bool-cases, bytes_eq_iff,
}
use minide.Base.Dict.{find, put, erase, find-put, find-erase}
use minide.SessionStorage.{
  Sessions, create_session, delete_session, set_session, set_at, save_into, partially_save_session,
  remove_timed_out,
}

module _ {S : Type 0} where
  abbrev pub saved : (S → S → S) → S → Option S → Option S
  saved extractor s none = none
  saved extractor s (some old) = some (extractor old s)

  abbrev pub is_there : Option S → Bool
  is_there none = false
  is_there (some s) = true

  find-save_into :
      (extractor : S → S → S) (k id : Bytes) (s : S) (kvs : Sessions S) (found : Option S)
      → find id kvs ≡ found
      → (find k (save_into extractor id s kvs found).1
          ≡ (if bytes_eq id k then saved extractor s found else find k kvs))
        × ((save_into extractor id s kvs found).0 ≡ is_there found)
  unfolding set_session
  find-save_into extractor k id s kvs none f = elim (Bool-cases (bytes_eq id k)) [
    | inl e ↦ (rw e (ap (λ x. find x kvs) (sym ((bytes_eq_iff id k).0 e)) ∙ f), refl)
    | inr e ↦ (rw e refl, refl)
  ]
  find-save_into extractor k id s kvs (some old) f =
      rw f (find-put k id (extractor old s) kvs, refl)

  -- A partial save changes the session with the id, if there is one, as the extractor says, leaves
  -- all others, and tells whether there was one.
  pub partially_save_session-find :
      (extractor : S → S → S) (k id : Bytes) (s : S) (kvs : Sessions S)
      → let r = partially_save_session extractor id s kvs in
        (find k r.1 ≡ (if bytes_eq id k then saved extractor s (find id kvs) else find k kvs))
        × (r.0 ≡ is_there (find id kvs))
  unfolding partially_save_session
  partially_save_session-find extractor k id s kvs = find-save_into extractor k id s kvs _ refl

  -- No key stands twice.
  abbrev pub IsMap : Sessions S → Type 0
  IsMap [] = Unit {0}
  IsMap ((k, s) ∷ kvs) = (find k kvs ≡ none) × IsMap kvs

  abbrev pub fresh_only : (S → ℕ) → ℕ → ℕ → Option S → Option S
  fresh_only last_access now timeout none = none
  fresh_only last_access now timeout (some s) =
      if ltb (last_access s + timeout) now then none else some s

  -- Where no key stands twice, what is found behind a removal is what was found before, unless its
  -- last access is longer ago than the timeout.
  pub remove_timed_out-find :
      (last_access : S → ℕ) (now timeout : ℕ) (k : Bytes) (kvs : Sessions S)
      → IsMap kvs
      → find k (remove_timed_out last_access now timeout kvs)
        ≡ fresh_only last_access now timeout (find k kvs)
  unfolding find remove_timed_out
  remove_timed_out-find last_access now timeout k [] m = refl
  remove_timed_out-find last_access now timeout k ((k', s) ∷ kvs) m =
      let ih = remove_timed_out-find last_access now timeout k kvs m.1 in
      elim (Bool-cases (bytes_eq k' k)) [
        | inl e ↦
            let gone = ap (λ x. find x kvs) (sym ((bytes_eq_iff k' k).0 e)) ∙ m.0 in
            let rest = ih ∙ ap (fresh_only last_access now timeout) gone in
            elim (Bool-cases (ltb (last_access s + timeout) now)) [
              | inl late ↦ rw (e, late) rest
              | inr early ↦ rw (early, e) (rw early refl)
            ]
        | inr e ↦ elim (Bool-cases (ltb (last_access s + timeout) now)) [
          | inl late ↦ rw (e, late) ih
          | inr early ↦ rw (e, early) (rw e ih)
        ]
      ]

  put-IsMap : (id : Bytes) (s : S) (kvs : Sessions S) → IsMap kvs → IsMap (put id s kvs)
  unfolding put find
  put-IsMap id s [] m = (refl, tt)
  put-IsMap id s ((k, t) ∷ kvs) m = elim (Bool-cases (bytes_eq k id)) [
    | inl e ↦ rw e m
    | inr e ↦ rw e (
      ground (arith, find-put k id s kvs, bytes_eq_iff k id, bytes_eq_iff id k, e, m.0),
      put-IsMap id s kvs m.1,
    )
  ]

  erase-IsMap : (id : Bytes) (kvs : Sessions S) → IsMap kvs → IsMap (erase id kvs)
  unfolding erase
  erase-IsMap id [] m = tt
  erase-IsMap id ((k, t) ∷ kvs) m = elim (Bool-cases (bytes_eq k id)) [
    | inl e ↦ rw e (erase-IsMap id kvs m.1)
    | inr e ↦ rw e (ground (arith, find-erase k id kvs, m.0), erase-IsMap id kvs m.1)
  ]

  remove_timed_out-IsMap :
      (last_access : S → ℕ) (now timeout : ℕ) (kvs : Sessions S)
      → IsMap kvs
      → IsMap (remove_timed_out last_access now timeout kvs)
  unfolding remove_timed_out
  remove_timed_out-IsMap last_access now timeout [] m = tt
  remove_timed_out-IsMap last_access now timeout ((k, s) ∷ kvs) m =
      elim (Bool-cases (ltb (last_access s + timeout) now)) [
        | inl late ↦ rw late (remove_timed_out-IsMap last_access now timeout kvs m.1)
        | inr early ↦ rw early (
          remove_timed_out-find last_access now timeout k kvs m.1
              ∙ ap (fresh_only last_access now timeout) m.0,
          remove_timed_out-IsMap last_access now timeout kvs m.1,
        )
      ]

  set_at-IsMap :
      (id : Bytes) (s : S) (kvs : Sessions S) (found : Option S)
      → IsMap kvs
      → IsMap (set_at id s kvs found).1
  set_at-IsMap id s kvs none m = m
  set_at-IsMap id s kvs (some old) m = put-IsMap id s kvs m

  save_into-IsMap :
      (extractor : S → S → S) (id : Bytes) (s : S) (kvs : Sessions S) (found : Option S)
      → IsMap kvs
      → IsMap (save_into extractor id s kvs found).1
  unfolding set_session
  save_into-IsMap extractor id s kvs none m = m
  save_into-IsMap extractor id s kvs (some old) m = set_at-IsMap id (extractor old s) kvs _ m

-- The calls that change the storage.
pub data Call (S : Type 0) : Type 0 where
  clears : Call S
  creates : (Bytes → S) → Bytes → Call S
  deletes : Bytes → Call S
  sets : Bytes → S → Call S
  saves : (S → S → S) → Bytes → S → Call S
  expires : (S → ℕ) → ℕ → ℕ → Call S

module _ {S : Type 0} where
  unfoldable pub apply : Call S → Sessions S → Sessions S
  apply clears kvs = []
  apply (creates make id) kvs = create_session make id kvs
  apply (deletes id) kvs = delete_session id kvs
  apply (sets id s) kvs = (set_session id s kvs).1
  apply (saves extractor id s) kvs = (partially_save_session extractor id s kvs).1
  apply (expires last_access now timeout) kvs = remove_timed_out last_access now timeout kvs

  unfoldable pub run : List (Call S) → Sessions S → Sessions S
  run [] kvs = kvs
  run (c ∷ cs) kvs = run cs (apply c kvs)

  apply-IsMap : (c : Call S) (kvs : Sessions S) → IsMap kvs → IsMap (apply c kvs)
  unfolding apply create_session delete_session set_session partially_save_session
  apply-IsMap clears kvs m = tt
  apply-IsMap (creates make id) kvs m = put-IsMap id (make id) kvs m
  apply-IsMap (deletes id) kvs m = erase-IsMap id kvs m
  apply-IsMap (sets id s) kvs m = set_at-IsMap id s kvs _ m
  apply-IsMap (saves extractor id s) kvs m = save_into-IsMap extractor id s kvs _ m
  apply-IsMap (expires last_access now timeout) kvs m =
      remove_timed_out-IsMap last_access now timeout kvs m

  -- Every history of calls keeps the keys distinct.
  pub run-IsMap : (cs : List (Call S)) (kvs : Sessions S) → IsMap kvs → IsMap (run cs kvs)
  unfolding run
  run-IsMap [] kvs m = m
  run-IsMap (c ∷ cs) kvs m = run-IsMap cs (apply c kvs) (apply-IsMap c kvs m)
