-- ===== src/Store/Attempt/Write.antt =====
-- `atomic_write_json` of packages/artifact_store/store.py replaces a file as a whole or not at all.
use gaussian_os.Prelude.{
  ℕ, ◌+◌, String, false, ◌||◌, ◌≡◌, ◌≢◌, refl, ◌∙◌, none, some, List, [], arith, ok, err,
  Bool-cases, inl, inr, if◌then◌else◌, is_some, ◌==◌, string_eq, same_iff,
}
use gaussian_os.Store.Tree.{
  Node, file, Entries, find, put, erase, find-put, find-erase_ne, erase-put,
}
use gaussian_os.Store.World.{Supply, pop, Document, Host}
use gaussian_os.Store.Attempt.{
  Written, temporary_name, is_folder, write_and_replace, clean_up, atomic_write_json,
}

-- A directory after a write, by how the write ended: the new file under its name, or every file as it
-- was. The temporary file is left out.
abbrev pub Replaced : String → String → Node → Entries → Written → Type 0
Replaced temporary name new before (ok _, after, s) =
    (other : String)
    → other ≢ temporary
    → find other after ≡ (if other == name then some new else find other before)
Replaced temporary name new before (err e, after, s) =
    (other : String) → other ≢ temporary → find other after ≡ find other before

-- An error that leaves the temporary file alone, or a success that has removed it.
abbrev Clean : String → Written → Type 0
Clean temporary (ok _, es, s) = find temporary es ≡ none
Clean temporary (err e, es, s) = Unit

find-put_ne :
    (a b : String) (node : Node) (es : Entries) → a ≢ b → find a (put b node es) ≡ find a es
find-put_ne a b node es ne = ground (arith, find-put a b node es, same_iff a b)

clean_up-Replaced :
    (temporary name : String) (new : Node) (before : Entries) (written : Written)
    → Clean temporary written
    → Replaced temporary name new before written
    → Replaced temporary name new before (clean_up temporary written)
unfolding clean_up
clean_up-Replaced temporary name new before (ok _, es, s) gone h = rw gone h
clean_up-Replaced temporary name new before (err e, es, s) gone h =
    elim (Bool-cases (is_some (find temporary es))) [
      | inl there ↦ elim (Bool-cases (pop s).0) [
        | inl fails ↦ rw (there, fails) h
        | inr works ↦
            rw (there, works) (λ other ne. find-erase_ne other temporary es ne ∙ h other ne)
      ]
      | inr absent ↦ rw absent h
    ]

module _ (temporary name : String) (bytes : List ℕ) (es : Entries) where
  fresh : is_some (find temporary es) ≡ false → find temporary es ≡ none
  fresh h = ground arith

  replaced :
      temporary ≢ name
      → find temporary es ≡ none
      → (s : Supply)
      → Replaced temporary name
          (file bytes)
          es
          (ok tt, put name (file bytes) (erase temporary (put temporary (file bytes) es)), s)
  replaced ne h s other not_temporary =
      rw (erase-put temporary (file bytes) es h) (find-put other name (file bytes) es)

  replaced_clean :
      temporary ≢ name
      → find temporary es ≡ none
      → find temporary (put name (file bytes) (erase temporary (put temporary (file bytes) es)))
        ≡ none
  replaced_clean ne h =
      rw (erase-put temporary (file bytes) es h) (find-put_ne temporary name (file bytes) es ne ∙ h)

  write_and_replace-Replaced :
      (s : Supply)
      → temporary ≢ name
      → Clean temporary (write_and_replace temporary name bytes es s)
        × Replaced temporary name (file bytes) es (write_and_replace temporary name bytes es s)
  unfolding write_and_replace
  write_and_replace-Replaced s ne = elim (Bool-cases (is_some (find temporary es))) [
    | inl there ↦ rw there (tt, λ other h. refl)
    | inr absent ↦ elim (Bool-cases (pop s).0) [
      | inl fails ↦ rw (absent, fails) (tt, λ other h. find-put_ne other temporary (file []) es h)
      | inr works ↦ elim (Bool-cases ((pop (pop s).1).0 || is_folder (find name es))) [
        | inl refused ↦
            rw (absent, works, refused)
              (tt, λ other h. find-put_ne other temporary (file bytes) es h)
        | inr done ↦
            rw (absent, works, done)
              (replaced_clean ne (fresh absent), replaced ne (fresh absent) (pop (pop s).1).1)
      ]
    ]
  ]

-- Whichever file operations fail: a write that returns has put the whole document under its name and
-- touched no other file, a write that raises has touched no file at all, the temporary file excepted.
-- The temporary name must differ from the file's own.
pub atomic_write_json-Replaced :
    (h : Host) (name : String) (document : Document) (es : Entries) (s : Supply)
    → temporary_name h name (pop s).1 ≢ name
    → Replaced
        (temporary_name h name (pop s).1)
        name
        (file (h.json document))
        es
        (atomic_write_json h name document es s)
unfolding atomic_write_json
atomic_write_json-Replaced h name document es s ne = elim (Bool-cases (pop s).0) [
  | inl fails ↦ rw fails (λ other k. refl)
  | inr works ↦
      let temporary = temporary_name h name (pop s).1 in
      let drawn = record ((pop s).1) { drawn = ((pop s).1).drawn + 1 } in
      let step = write_and_replace-Replaced temporary name (h.json document) es drawn ne in
      rw works (
        clean_up-Replaced temporary name (file (h.json document)) es
          (write_and_replace temporary name (h.json document) es drawn) step.0 step.1)
]
