-- ===== src/Watcher/Tests.antt =====
-- fsnotify/: runs, and the theorems at concrete inputs.
use xun.Base.{◌≡◌, refl, some, List, [], ◌∷◌, Bytes, codes, lookup, equal}
use xun.Watcher.Defs.{
  Watcher, new_watcher, Entry, directory, file, broken, add, check, create, write, remove, Op,
}
use xun.Watcher.Sweep.{ops_of}
use xun.Watcher.Reach.{
  IsWellFormed, new_watcher-IsWellFormed, adds, checks, run_actions, run_actions-IsWellFormed,
}
use xun.Watcher.Check.{check-diff}

abbrev before : Bytes → List Entry
before path = directory path ∷ file (codes "a") 1 ∷ file (codes "b") 1 ∷ file (codes "c") 1 ∷ []

abbrev after : Bytes → List Entry
after path = directory path ∷ file (codes "a") 2 ∷ file (codes "d") 1 ∷ file (codes "c") 1 ∷ []

-- A directory that cannot be read hides the files behind it.
abbrev failing : Bytes → List Entry
failing path = file (codes "a") 1 ∷ broken (codes "sub") 7 ∷ file (codes "b") 1 ∷ []

abbrev watched : Watcher
watched = (add before new_watcher (codes ".")).0

abbrev ops : (Bytes → List Entry) → Bytes → List Op
ops walk p = ops_of p (check walk watched).events

check_tests :
    (ops after (codes "a") ≡ write ∷ [])
    × (ops after (codes "b") ≡ remove ∷ [])
    × (ops after (codes "c") ≡ [])
    × (ops after (codes "d") ≡ create ∷ [])
    × (ops failing (codes "b") ≡ remove ∷ [])
    × ((check failing watched).errors ≡ 7 ∷ [])
unfolding check add new_watcher equal
check_tests = (refl, refl, refl, refl, refl, refl)

run_actions-IsWellFormed_example :
    IsWellFormed
      (run_actions (adds before (codes ".") ∷ checks failing ∷ checks after ∷ []) new_watcher)
run_actions-IsWellFormed_example =
    run_actions-IsWellFormed (adds before (codes ".") ∷ checks failing ∷ checks after ∷ [])
      new_watcher new_watcher-IsWellFormed

watched-IsWellFormed : IsWellFormed watched
unfolding run_actions
watched-IsWellFormed =
    run_actions-IsWellFormed (adds before (codes ".") ∷ []) new_watcher new_watcher-IsWellFormed

check-diff_example :
    (lookup (codes "a") (check after watched).files
      ≡ some (record { mod_time = 2; check_times = 1 }))
    × (ops_of (codes "a") (check after watched).events ≡ write ∷ [])
unfolding add new_watcher equal lookup
check-diff_example =
    check-diff after watched (codes "a") 2 watched-IsWellFormed
      (((λ h. refl), ((λ h. cc), ((λ h. cc), tt))), tt)
