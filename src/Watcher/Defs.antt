-- ===== src/Watcher/Defs.antt =====
-- fsnotify/watcher.go, event.go and file.go: the watcher's state and its check.
-- The order in which events are sent is that of the calls; the loop over the map of files has the
-- order of the association list, where Go's has none. Check counters do not overflow here.
use xun.Base.{
  ℕ, suc, Option, none, some, List, [], ◌∷◌, ◌++◌, Bytes, Dict, lookup, insert, ◌==◌, ltb,
  if◌then◌else◌,
}

pub record File : Type 0 where
  pub mod_time : ℕ
  pub check_times : ℕ

-- Op: the three bits.
pub data Op : Type 0 where
  create write remove : Op

pub record Event : Type 0 where
  pub name : Bytes
  pub op : Op

-- What fs.WalkDir, which is the standard library's, tells its callback: a directory, a file with its
-- time, or an error, of the walk or of reading the entry.
pub data Entry : Type 0 where
  directory : Bytes → Entry
  file : Bytes → ℕ → Entry
  broken : Bytes → ℕ → Entry

-- `list` holds the paths given to Add. `events` and `errors` hold what was sent, oldest first.
pub record Watcher : Type 0 where
  pub files : Dict File
  pub check_times : ℕ
  pub list : List Bytes
  pub events : List Event
  pub errors : List ℕ

-- NewWatcher
unfoldable pub new_watcher : Watcher
new_watcher = record { files = []; check_times = 0; list = []; events = []; errors = [] }

abbrev pub put_file : Watcher → Bytes → ℕ → Watcher
put_file w path time = record w {
  files = insert path (record { mod_time = time; check_times = w.check_times }) w.files;
}

abbrev pub send : Watcher → Bytes → Op → Watcher
send w path op = record w { events = w.events ++ record { name = path; op = op } ∷ [] }

-- The callback of `Add` on the entries of a walk, which its first error ends.
unfoldable pub add_walk : Watcher → List Entry → Watcher × Option ℕ
unfolding insert
add_walk w [] = (w, none)
add_walk w (directory path ∷ es) = add_walk w es
add_walk w (file path time ∷ es) = add_walk (put_file w path time) es
add_walk w (broken path err ∷ es) = (w, some err)

-- Add. `walk` is what walking a path finds.
unfoldable pub add : (walk : Bytes → List Entry) → Watcher → Bytes → Watcher × Option ℕ
unfolding add_walk
add walk w path = add_walk (record w { list = w.list ++ path ∷ [] }) (walk path)

-- What `check` does with a file that a walk meets.
unfoldable pub check_file : Watcher → Bytes → ℕ → Watcher
unfolding lookup insert
check_file w path time = elim (lookup path w.files) [
  | none ↦ send (put_file w path time) path create
  | some f ↦
      if f.mod_time == time
      then put_file w path f.mod_time
      else send (put_file w path time) path write
]

-- The callback of `check` on the entries of a walk, which its first error ends.
unfoldable pub check_walk : Watcher → List Entry → Watcher × Option ℕ
unfolding check_file
check_walk w [] = (w, none)
check_walk w (directory path ∷ es) = check_walk w es
check_walk w (file path time ∷ es) = check_walk (check_file w path time) es
check_walk w (broken path err ∷ es) = (w, some err)

abbrev pub note_error : Watcher × Option ℕ → Watcher
note_error (w, none) = w
note_error (w, some err) = record w { errors = w.errors ++ err ∷ [] }

-- The loop of `check` over the paths.
unfoldable pub check_paths : (walk : Bytes → List Entry) → Watcher → List Bytes → Watcher
unfolding check_walk
check_paths walk w [] = w
check_paths walk w (path ∷ paths) = check_paths walk (note_error (check_walk w (walk path))) paths

-- The loop of `check` over the files, at a count of checks: the files that stay, and the events.
unfoldable pub sweep : ℕ → Dict File → Dict File × List Event
sweep times [] = ([], [])
sweep times ((path, f) ∷ fs) =
    let (files, events) = sweep times fs in
    if ltb f.check_times times
    then (files, record { name = path; op = remove } ∷ events)
    else ((path, f) ∷ files, events)

abbrev pub sweep_files : Watcher → Watcher
sweep_files w =
    let (files, events) = sweep w.check_times w.files in
    record w { files = files; events = w.events ++ events }

-- check
unfoldable pub check : (walk : Bytes → List Entry) → Watcher → Watcher
unfolding check_paths sweep
check walk w = sweep_files (check_paths walk (record w { check_times = suc w.check_times }) w.list)
