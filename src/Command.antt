-- ===== src/Command.antt =====
-- The command line, python/traversal/__main__.py. What `argparse` returns and the file system are
-- arguments; printing is the value that is printed.
pub mod Copy
pub mod Export
use traversal.Base.{
  ℕ, String, Bool, true, false, ◌||◌, Option, none, some, if◌then◌else◌, str_eq, List,
}
use traversal.Exceptions.{os_error, usage_error, Result, return, raise, ◌>>=◌, ◌>>◌, require}
use traversal.History.{RunRow, Database}
use traversal.History.Records.{RunRecord, runs, get}
use traversal.History.Schema
use traversal.History.Schema.{Schema}

-- A file with its bytes, or a directory; the entries come in the order of `iterdir`.
mutual
  pub data Tree : Type 0 where
    file : (bytes : String) → Tree
    dir : Entries → Tree

  pub data Entries : Type 0 where
    empty : Entries
    entry : String → Tree → Entries → Entries

-- `name.endswith(suffix)`
unfoldable pub ends_with : String → (suffix : String) → Bool
ends_with String.[] suffix = str_eq String.[] suffix
ends_with (String.◌∷◌ c s) suffix = str_eq (String.◌∷◌ c s) suffix || ends_with s suffix

unfoldable pub is_skipped : String → Bool
unfolding ends_with
is_skipped name = str_eq name "__pycache__" || ends_with name ".pyc"

unfoldable pub child : String → Entries → Option Tree
child name empty = none
child name (entry other tree rest) = if str_eq other name then some tree else child name rest

-- A new entry goes to the end, an old one is replaced.
unfoldable pub put : String → Tree → Entries → Entries
put name tree empty = entry name tree empty
put name tree (entry other old rest) =
    if str_eq other name then entry other tree rest else entry other old (put name tree rest)

-- `path.mkdir()`
unfoldable pub make_directory : String → Entries → Result Entries
unfolding child put
make_directory name target = elim (child name target) [
  | some _ ↦ raise (os_error "FileExistsError" name)
  | none ↦ return (put name (dir empty) target)
]

-- `path.write_bytes(…)`
unfoldable pub write_bytes : String → String → Entries → Result Entries
unfolding child put
write_bytes name bytes target = elim (child name target) [
  | some (dir _) ↦ raise (os_error "IsADirectoryError" name)
  | _ ↦ return (put name (file bytes) target)
]

-- `copy(tree, target)`: a new directory is filled before it stands in the result.
unfoldable pub copy : Entries → (target : Entries) → Result Entries
unfolding is_skipped make_directory write_bytes put
copy empty target = return target
copy (entry name (file bytes) rest) target =
    if is_skipped name
    then copy rest target
    else (write_bytes name bytes target >>= λ written. copy rest written)
copy (entry name (dir inner) rest) target = if is_skipped name then copy rest target else (do
  made ← make_directory name target
  filled ← copy inner empty
  copy rest (put name (dir filled) made))

-- What `parser.parse_args()` returns; `limit` is `none` if it is less than 1.
pub data Arguments : Type 0 where
  skill : (output : String) → Arguments
  history : (path : String) → (graph status run : Option String) → (limit : Option ℕ) → Arguments

-- The machine: its paths after `expanduser`, the files of the package, and the history's database.
pub record Machine : Type 0 where
  pub is_file : String → Bool
  pub exists : String → Bool
  pub package_skill : Entries
  pub schema : String → Schema
  pub database : String → Database

-- What is printed or made.
pub data Effect : Type 0 where
  prints_run : RunRecord → Effect
  prints_runs : List RunRow → Effect
  exports : (output : String) → Entries → Effect

-- `destination.mkdir(parents=True, exist_ok=False)`, then `copy`; a parent that is no directory, and
-- other failures of the file system, are left out.
unfoldable pub export_skill : Machine → String → Result Entries
unfolding copy
export_skill m output =
    if m.exists output
    then raise (os_error "FileExistsError" output)
    else copy m.package_skill empty

-- `args.run` is true if it is given and not empty.
unfoldable pub query : Database → (graph status run : Option String) → Option ℕ → Result Effect
unfolding get runs
query db graph status none limit = runs db graph status limit >>= λ rows. return (prints_runs rows)
query db graph status (some id) limit =
    let one = get db id >>= λ found. return (prints_run found) in
    let all = runs db graph status limit >>= λ rows. return (prints_runs rows) in
    if str_eq id "" then all else one

unfoldable pub main : Machine → Arguments → Result Effect
unfolding query export_skill Schema.init
main m (history path graph status run limit) = do
  require (m.is_file path) (usage_error "history store does not exist")
  opened ← Schema.init (some 1048576) (m.schema path)
  query (m.database path) graph status run limit
main m (skill output) = do made ← export_skill m output; return (exports output made)
