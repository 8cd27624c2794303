-- ===== src/Watcher/Reach.antt =====
-- fsnotify/watcher.go: what any calls of `Add` and any checks keep.
use mathlib.Core.Path.{subst}
use xun.Base.{
  ℕ, suc, true, ◌≡◌, refl, sym, ◌∙◌, ◌≤◌, inl, inr, Option, none, some, List, [], ◌∷◌, Bytes,
  lookup, lookup-insert, Distinct, Distinct-insert, equal, ltb, ◌==◌, arith, Bool-cases,
  Option-cases, some_inj,
}
use xun.Watcher.Defs.{
  File, Entry, directory, file, broken, Watcher, new_watcher, put_file, add_walk, add, check_file,
  check_walk, check_paths, note_error, check, sweep_files,
}
use xun.Watcher.Sweep.{kept, lookup-sweep, Distinct-sweep}

-- One entry for each path, and none from a later check.
pub record IsWellFormed (w : Watcher) : Type 0 where
  pub distinct : Distinct w.files
  pub bounded : (p : Bytes) (f : File) → lookup p w.files ≡ some f → f.check_times ≤ w.check_times

put-bounded :
    (q p : Bytes) (t : ℕ) (w : Watcher) (f : File)
    → equal q p ≡ true
    → lookup p (put_file w q t).files ≡ some f
    → f.check_times ≤ w.check_times
put-bounded q p t w f e h =
    let put : File = record { mod_time = t; check_times = w.check_times } in
    let eq : some put ≡ some f = rw (lookup-insert q p put w.files, e) at h in
    subst (λ (g : File). g.check_times ≤ w.check_times) (some_inj eq) (omega arith)

put_file-IsWellFormed :
    (w : Watcher) (q : Bytes) (t : ℕ) → IsWellFormed w → IsWellFormed (put_file w q t)
put_file-IsWellFormed w q t k = record {
  distinct =
      Distinct-insert q (record { mod_time = t; check_times = w.check_times }) w.files k.distinct;
  bounded = λ p f h. elim (Bool-cases (equal q p)) [
    | inl e ↦ put-bounded q p t w f e h
    | inr e ↦ k.bounded p f (
        sym (
          lookup-insert q p (record { mod_time = t; check_times = w.check_times }) w.files
          ∙ rw e refl)
        ∙ h)
  ];
}

add_walk-IsWellFormed :
    (es : List Entry) (w : Watcher) → IsWellFormed w → IsWellFormed (add_walk w es).0
unfolding add_walk
add_walk-IsWellFormed [] w k = k
add_walk-IsWellFormed (directory q ∷ es) w k = add_walk-IsWellFormed es w k
add_walk-IsWellFormed (file q t ∷ es) w k =
    add_walk-IsWellFormed es (put_file w q t) (put_file-IsWellFormed w q t k)
add_walk-IsWellFormed (broken q err ∷ es) w k = k

check_file-IsWellFormed :
    (w : Watcher) (q : Bytes) (t : ℕ) → IsWellFormed w → IsWellFormed (check_file w q t)
unfolding check_file
check_file-IsWellFormed w q t k = elim (Option-cases (lookup q w.files)) [
  | inl e ↦
      let k' = put_file-IsWellFormed w q t k in
      rw (e, check_file) (record { distinct = k'.distinct; bounded = k'.bounded })
  | inr (f, e) ↦ elim (Bool-cases (f.mod_time == t)) [
    | inl m ↦ rw (e, m, check_file) (put_file-IsWellFormed w q f.mod_time k)
    | inr m ↦
        let k' = put_file-IsWellFormed w q t k in
        rw (e, m, check_file) (record { distinct = k'.distinct; bounded = k'.bounded })
  ]
]

check_walk-IsWellFormed :
    (es : List Entry) (w : Watcher) → IsWellFormed w → IsWellFormed (check_walk w es).0
unfolding check_walk
check_walk-IsWellFormed [] w k = k
check_walk-IsWellFormed (directory q ∷ es) w k = check_walk-IsWellFormed es w k
check_walk-IsWellFormed (file q t ∷ es) w k =
    check_walk-IsWellFormed es (check_file w q t) (check_file-IsWellFormed w q t k)
check_walk-IsWellFormed (broken q err ∷ es) w k = k

note_error-IsWellFormed : (r : Watcher × Option ℕ) → IsWellFormed r.0 → IsWellFormed (note_error r)
note_error-IsWellFormed (w, none) k = k
note_error-IsWellFormed (w, some err) k = record { distinct = k.distinct; bounded = k.bounded }

pub check_paths-IsWellFormed :
    (walk : Bytes → List Entry) (paths : List Bytes) (w : Watcher)
    → IsWellFormed w
    → IsWellFormed (check_paths walk w paths)
unfolding check_paths
check_paths-IsWellFormed walk [] w k = k
check_paths-IsWellFormed walk (path ∷ paths) w k =
    check_paths-IsWellFormed walk paths (note_error (check_walk w (walk path)))
      (note_error-IsWellFormed (check_walk w (walk path)) (check_walk-IsWellFormed (walk path) w k))

abbrev pub later : Watcher → Watcher
later w = record w { check_times = suc w.check_times }

pub later-IsWellFormed : (w : Watcher) → IsWellFormed w → IsWellFormed (later w)
later-IsWellFormed w k = record {
  distinct = k.distinct;
  bounded = λ p f h. omega (arith, k.bounded p f h);
}

kept-some : (times : ℕ) (o : Option File) (f : File) → kept times o ≡ some f → o ≡ some f
kept-some times none f h = h
kept-some times (some g) f h = elim (Bool-cases (ltb g.check_times times)) [
  | inl e ↦ cc (rw e at h)
  | inr e ↦ rw e at h
]

sweep_files-IsWellFormed : (w : Watcher) → IsWellFormed w → IsWellFormed (sweep_files w)
sweep_files-IsWellFormed w k = record {
  distinct = Distinct-sweep w.check_times w.files k.distinct;
  bounded = λ p f h. k.bounded p f (
      kept-some w.check_times (lookup p w.files) f
        (sym (lookup-sweep w.check_times p w.files k.distinct) ∙ h));
}

check-IsWellFormed :
    (walk : Bytes → List Entry) (w : Watcher) → IsWellFormed w → IsWellFormed (check walk w)
unfolding check
check-IsWellFormed walk w k =
    sweep_files-IsWellFormed (check_paths walk (later w) w.list)
      (check_paths-IsWellFormed walk w.list (later w) (later-IsWellFormed w k))

-- A call of `Add` or a check, each with the file system as it is then.
pub data Action : Type 0 where
  adds : (walk : Bytes → List Entry) (path : Bytes) → Action
  checks : (walk : Bytes → List Entry) → Action

unfoldable pub run_actions : List Action → Watcher → Watcher
unfolding add check
run_actions [] w = w
run_actions (adds walk path ∷ actions) w = run_actions actions (add walk w path).0
run_actions (checks walk ∷ actions) w = run_actions actions (check walk w)

-- Whatever the file system holds at each call and whatever errors the walks meet: after any calls of
-- `Add` and any checks on a well-formed watcher, each path has one entry at most and no entry is
-- from a later check than the watcher's.
pub run_actions-IsWellFormed :
    (actions : List Action) (w : Watcher) → IsWellFormed w → IsWellFormed (run_actions actions w)
unfolding run_actions add
run_actions-IsWellFormed [] w k = k
run_actions-IsWellFormed (adds walk path ∷ actions) w k =
    run_actions-IsWellFormed actions (add walk w path).0
      (add_walk-IsWellFormed (walk path) _ (record { distinct = k.distinct; bounded = k.bounded }))
run_actions-IsWellFormed (checks walk ∷ actions) w k =
    run_actions-IsWellFormed actions (check walk w) (check-IsWellFormed walk w k)

pub new_watcher-IsWellFormed : IsWellFormed new_watcher
unfolding new_watcher lookup
new_watcher-IsWellFormed = record { distinct = tt; bounded = λ p f h. cc }
