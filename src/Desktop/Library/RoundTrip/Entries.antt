-- ===== src/Desktop/Library/RoundTrip/Entries.antt =====
-- A directory that is added to the trash of apps/desktop/project_store.py becomes an entry of it.
use gaussian_os.Prelude.{
  String, ◌≡◌, refl, Option, none, some, List, [], ◌∷◌, string_eq, list_eq, lookup, insert, without,
  filter, same_iff, eq_self, arith, Eq,
}
use gaussian_os.Desktop.Library.{TrashDirectory}
use gaussian_os.Desktop.Library.Restore.{
  TrashEntry, entry_of, add_entry, trash_entries, is_entry_of,
}

module _ {V : Type 0} {K : Type 0} ⦃e : Eq K⦄ where
  pub insert-insert :
      (k : K) (v w : V) (items : List (K × V)) → insert k v (insert k w items) ≡ insert k v items
  insert-insert k v w [] = ground (arith, eq_self k)
  insert-insert k v w (item ∷ items) = ground (arith, eq_self k, insert-insert k v w items)

  pub without-insert :
      (k : K) (v : V) (items : List (K × V)) → without k (insert k v items) ≡ without k items
  without-insert k v [] = ground (arith, eq_self k)
  without-insert k v (item ∷ items) = ground (arith, eq_self k, without-insert k v items)

  pub without-without :
      (k : K) (items : List (K × V)) → without k (without k items) ≡ without k items
  without-without k [] = refl
  without-without k (item ∷ items) = ground (arith, without-without k items)

filter-add_entry :
    (id : String) (o : Option TrashEntry) (entries : List TrashEntry)
    → filter (is_entry_of id) (add_entry o entries) ≡ []
    → (filter (is_entry_of id) entries ≡ [])
      × ((others : List TrashEntry)
          → filter (is_entry_of id) (add_entry o others) ≡ filter (is_entry_of id) others)
filter-add_entry id none entries h = (h, λ others. refl)
filter-add_entry id (some entry) entries h = (ground arith, λ others. ground arith)

-- The new entry is the only one of its project, if it is of that project and there was none.
pub trash_entries-insert :
    (id name : String) (directory : TrashDirectory) (entry : TrashEntry)
    (trash : List (String × TrashDirectory))
    → entry_of name directory ≡ some entry
    → entry.project_id ≡ id
    → lookup name trash ≡ none
    → filter (is_entry_of id) (trash_entries trash) ≡ []
    → filter (is_entry_of id) (trash_entries (insert name directory trash)) ≡ entry ∷ []
unfolding trash_entries
trash_entries-insert id name directory entry [] made own fresh h =
    ground (arith, same_iff entry.project_id id)
trash_entries-insert id name directory entry ((n, d) ∷ trash) made own fresh h =
    let (rest, add) = filter-add_entry id (entry_of n d) (trash_entries trash) h in
    ground (
      arith,
      add (trash_entries (insert name directory trash)),
      trash_entries-insert id name directory entry trash made own,
    )
