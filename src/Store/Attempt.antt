-- ===== src/Store/Attempt.antt =====
-- `atomic_write_json`, `begin_attempt`, `artifact_output_path` and `finish_attempt` of
-- packages/artifact_store/store.py.
pub mod Write
use Prim.Native.String.{◌++◌ as text_append}
use gaussian_os.Prelude.{
  arith, ℕ, suc, ◌+◌, String, Bool, true, false, not, ◌&&◌, ◌||◌, ◌≡◌, refl, Option, none, some,
  List, [], ◌∷◌, ◌==◌, string_eq, ℕ_eq, list_eq, Result, ok, err, is_some, any, contains, has_char,
  codes, lookup, insert, remove, if◌then◌else◌,
}
use gaussian_os.Contracts.Json.{Dict}
use gaussian_os.Store.Tree.{Node, Entries, bare, find, put, erase}
use gaussian_os.Store.World.{
  Exc, AttemptDir, Supply, pop, Key, World, Document, Host, Action, ◌>>=◌, ◌>>◌, pure, raise,
  attempt_io,
}

-- What a step on one directory gives back: its outcome, the directory, the environment.
abbrev pub Written : Type 0
Written = Result Exc Unit × Entries × Supply

unfoldable pub temporary_name : Host → String → Supply → String
temporary_name h name s =
    text_append "." (text_append name (text_append "." (text_append (h.uuid s.drawn) ".tmp")))

abbrev pub is_folder : Option Node → Bool
is_folder (some (Node.folder es)) = true
is_folder _ = false

-- The body of the `try`: open the temporary file for exclusive creation and write it, then
-- `os.replace`. A write that fails leaves a part of the text.
unfoldable pub write_and_replace : String → String → List ℕ → Entries → Supply → Written
unfolding find put erase
write_and_replace temporary name bytes es s =
    if is_some (find temporary es)
    then (err Exc.os_error, es, s)
    else let (write_fails, s1) = pop s in
      if write_fails
      then (err Exc.os_error, put temporary (Node.file []) es, s1)
      else let (replace_fails, s2) = pop s1 in
        let written = put temporary (Node.file bytes) es in
        if replace_fails || is_folder (find name es)
        then (err Exc.os_error, written, s2)
        else (ok tt, put name (Node.file bytes) (erase temporary written), s2)

-- The `finally`: unlink the temporary file if it is there.
unfoldable pub clean_up : String → Written → Written
unfolding find erase
clean_up temporary (r, es, s) =
    if is_some (find temporary es)
    then (let (unlink_fails, s1) = pop s in
        if unlink_fails then (err Exc.os_error, es, s1) else (r, erase temporary es, s1))
    else (r, es, s)

-- `atomic_write_json`, in the directory of the file
unfoldable pub atomic_write_json : Host → String → Document → Entries → Supply → Written
unfolding temporary_name write_and_replace clean_up
atomic_write_json h name document es s =
    let (mkdir_fails, s1) = pop s in
    if mkdir_fails
    then (err Exc.os_error, es, s1)
    else let temporary = temporary_name h name s1 in
      clean_up temporary
        (write_and_replace temporary name (h.json document) es (record s1 { drawn = s1.drawn + 1 }))

abbrev has_double_dot : List ℕ → Bool
has_double_dot [] = false
has_double_dot (c ∷ []) = false
has_double_dot (c ∷ d ∷ cs) = (c == b'.' && d == b'.') || has_double_dot (d ∷ cs)

-- not value or any(item in value for item in ("/", "\\", ".."))
unfoldable pub is_unsafe_name : String → Bool
is_unsafe_name value =
    value == "" || has_char b'/' value || has_char b'\\' value || has_double_dot (codes value)

pub record AttemptHandle : Type 0 where
  pub attempt_id : String
  pub run_id : String
  pub stage_id : String
  pub request_id : String

abbrev pub key_of : AttemptHandle → Key
key_of a = a.run_id ∷ a.stage_id ∷ a.attempt_id ∷ []

abbrev pub no_files : AttemptDir
no_files = record { files = bare; outputs = bare }

-- A document written beside `outputs` of an attempt. Its directory must be there.
unfoldable pub write_document : Host → Key → String → Document → Action Unit
unfolding atomic_write_json
write_document h key name document w = elim (lookup key w.attempts) [
  | none ↦ (err Exc.os_error, w)
  | some dir ↦
      let (r, files, s) = atomic_write_json h name document dir.files w.supply in
      (r, record w { attempts = insert key (record dir { files = files }) w.attempts; supply = s })
]

-- path.mkdir(parents=True, exist_ok=False), and `outputs` in it
unfoldable pub make_attempt_dir : Key → Action Unit
make_attempt_dir key w =
    if is_some (lookup key w.attempts)
    then (err Exc.os_error, w)
    else (ok tt, record w { attempts = insert key no_files w.attempts })

abbrev pub draw : Host → Action String
draw h w = (
  ok (h.uuid (w.supply).drawn),
  record w { supply = record (w.supply) { drawn = (w.supply).drawn + 1 } },
)

-- `begin_attempt` once the attempt has its id
unfoldable pub start_attempt : Host → AttemptHandle → Action AttemptHandle
start_attempt h a = do
  attempt_io
  make_attempt_dir (key_of a)
  write_document h (key_of a) "attempt.json" (Document.attempt_started (key_of a) a.request_id)
  pure a

abbrev pub new_handle : String → String → String → String → AttemptHandle
new_handle run_id stage_id request_id unique = record {
  attempt_id = text_append "attempt-" unique;
  run_id = run_id;
  stage_id = stage_id;
  request_id = request_id;
}

unfoldable pub begin_attempt : Host → String → String → String → Action AttemptHandle
begin_attempt h run_id stage_id request_id =
    if is_unsafe_name run_id || is_unsafe_name stage_id
    then raise Exc.value_error
    else do unique ← draw h; start_attempt h (new_handle run_id stage_id request_id unique)

-- `artifact_output_path`: the name of the artifact's directory in `outputs`
unfoldable pub artifact_output_name : String → Result Exc String
unfolding is_unsafe_name
artifact_output_name artifact_id =
    if is_unsafe_name artifact_id then err Exc.value_error else ok artifact_id

pub artifact_output_name_ok : (id name : String) → artifact_output_name id ≡ ok name → name ≡ id
unfolding artifact_output_name
artifact_output_name_ok id name h = ground arith

abbrev pub is_terminal : String → Bool
is_terminal state = contains state ("succeeded" ∷ "failed" ∷ "cancelled" ∷ [])

abbrev pub archive_of : String → World → List (Key × AttemptDir)
archive_of state w = if state == "succeeded" then w.completed else w.failed

-- The directory is renamed into the archive of its state; what became empty is pruned, which leaves
-- no trace in a list of attempts.
unfoldable pub archive : Key → String → Action Unit
archive key state w = elim (lookup key w.attempts) [
  | none ↦ (err Exc.os_error, w)
  | some dir ↦ (
    ok tt,
    (if state == "succeeded"
        then record w { attempts = remove key w.attempts; completed = insert key dir w.completed }
        else record w { attempts = remove key w.attempts; failed = insert key dir w.failed }),
  )
]

abbrev pub refuse_existing : Key → String → Action Unit
refuse_existing key state w =
    (if is_some (lookup key (archive_of state w)) then err Exc.store_error else ok tt, w)

unfoldable pub finish_attempt : Host → AttemptHandle → String → Dict → Action Unit
finish_attempt h a state details = if not (is_terminal state) then raise Exc.value_error else do
  write_document h (key_of a) "attempt.final.json" (Document.attempt_final (key_of a) state details)
  attempt_io
  refuse_existing (key_of a) state
  attempt_io
  archive (key_of a) state
