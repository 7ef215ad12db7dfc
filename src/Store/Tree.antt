-- ===== src/Store/Tree.antt =====
-- Directories, as packages/artifact_store/store.py sees them: a list of named entries.
use gaussian_os.Prelude.{
  ℕ, String, ◌≡◌, ◌≢◌, refl, Option, none, some, List, [], ◌∷◌, ◌++◌, ◌==◌, string_eq, arith,
  if◌then◌else◌, eq_self,
}

mutual
  pub data Node : Type 0 where
    file : List ℕ → Node
    folder : Entries → Node
    symlink special : Node  -- special: a socket, a pipe, a device

  pub data Entries : Type 0 where
    bare : Entries
    entry : String → Node → Entries → Entries

unfoldable pub find : String → Entries → Option Node
find name bare = none
find name (entry n node es) = if name == n then some node else find name es

-- Replaces the entry of this name, or adds one at the end.
unfoldable pub put : String → Node → Entries → Entries
put name new bare = entry name new bare
put name new (entry n node es) =
    if name == n then entry name new es else entry n node (put name new es)

unfoldable pub erase : String → Entries → Entries
erase name bare = bare
erase name (entry n node es) = if name == n then es else entry n node (erase name es)

unfoldable pub names : Entries → List String
names bare = []
names (entry n node es) = n ∷ names es

pub find-put :
    (a b : String) (node : Node) (es : Entries)
    → find a (put b node es) ≡ (if a == b then some node else find a es)
unfolding find put
find-put a b node bare = refl
find-put a b node (entry n other es) = ground (
  arith,
  string_eq.beq_iff a b,
  string_eq.beq_iff b n,
  string_eq.beq_iff a n,
  find-put a b node es,
)

pub find-erase_ne : (a b : String) (es : Entries) → a ≢ b → find a (erase b es) ≡ find a es
unfolding find erase
find-erase_ne a b bare ne = refl
find-erase_ne a b (entry n node es) ne =
    ground (arith, string_eq.beq_iff a n, string_eq.beq_iff b n, find-erase_ne a b es)

-- A name that is new goes to the end, and erasing it gives the directory back.
pub erase-put :
    (a : String) (node : Node) (es : Entries) → find a es ≡ none → erase a (put a node es) ≡ es
unfolding find put erase
erase-put a node bare h = ground (arith, eq_self a)
erase-put a node (entry n other es) h = ground (arith, erase-put a node es)

pub names-put_new :
    (a : String) (node : Node) (es : Entries)
    → find a es ≡ none
    → names (put a node es) ≡ names es ++ a ∷ []
unfolding find put names
names-put_new a node bare h = refl
names-put_new a node (entry n other es) h = ground (arith, names-put_new a node es)
