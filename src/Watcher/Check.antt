-- ===== src/Watcher/Check.antt =====
-- fsnotify/watcher.go: a check reports the difference between what was known and what is found.
use mathlib.Core.Path.{subst}
use xun.Base.{
  ℕ, suc, Bool, true, false, ◌≡◌, refl, ◌∙◌, ap, ◌≤◌, Option, none, some, List, [], ◌∷◌, ◌++◌, ◌||◌,
  Bytes, lookup, if◌then◌else◌, ltb, lt→ltb, arith, All, append-nil, append_assoc,
}
use xun.Watcher.Defs.{File, Op, remove, Entry, Watcher, check, check_paths, sweep}
use xun.Watcher.Sweep.{ops_of, ops_of-append, kept, swept, lookup-sweep, ops_of-sweep}
use xun.Watcher.Walks.{met_in, HasTime, found, Track, check_paths-Track}
use xun.Watcher.Reach.{IsWellFormed, later, later-IsWellFormed, check_paths-IsWellFormed}

-- What a check should report of a path, by what was known of it and by what the walks find.
abbrev pub diff : Option File → Bool → ℕ → List Op
diff old true t = found old t
diff none false t = []
diff (some f) false t = remove ∷ []

abbrev pub entry_after : ℕ → Bool → ℕ → Option File
entry_after times true t = some (record { mod_time = t; check_times = times })
entry_after times false t = none

ltb_self : (n : ℕ) → ltb n n ≡ false
ltb_self n = ground arith

or_false : (a : Bool) → (a || false) ≡ a
or_false true = refl
or_false false = refl

-- After the sweep, by whether the walks met the path.
swept-met :
    (n t : ℕ) (old : Option File) (seen : Bool) (entry : Option File)
    → ((f : File) → old ≡ some f → f.check_times ≤ n)
    → entry ≡ (if seen then some (record { mod_time = t; check_times = suc n }) else old)
    → (kept (suc n) entry ≡ entry_after (suc n) seen t)
      × ((if seen then found old t else []) ++ swept (suc n) entry ≡ diff old seen t)
swept-met n t old true entry b e = rw (e, ltb_self (suc n)) (refl, append-nil (found old t))
swept-met n t none false entry b e = rw e (refl, refl)
swept-met n t (some f) false entry b e =
    rw (e, lt→ltb f.check_times (suc n) (omega (arith, b f refl))) (refl, refl)

-- The reports of the walks and of the sweep, put together.
reports :
    (seen : Bool) (sent ops found_ops swept_ops all_ops : List Op)
    → sent ≡ (if seen then ops ++ found_ops else ops)
    → (if seen then found_ops else []) ++ swept_ops ≡ all_ops
    → sent ++ swept_ops ≡ ops ++ all_ops
reports true sent ops found_ops swept_ops all_ops e h =
    rw e (append_assoc ops found_ops swept_ops ∙ ap (◌++◌ ops) h)
reports false sent ops found_ops swept_ops all_ops e h = rw (e, h) refl

-- A check of a well-formed watcher, for any path whose entries in the walks all have one time: the
-- path is then known with that time and the check's count if a walk met it before the walk's first
-- error, and not known otherwise; and to the operations sent of it are added exactly Create if it
-- is new, Write if its time changed, Remove if it was known and no walk met it, and else nothing.
pub check-diff :
    (walk : Bytes → List Entry) (w : Watcher) (p : Bytes) (t : ℕ)
    → IsWellFormed w
    → All (λ path. HasTime p t (walk path)) w.list
    → let seen = met_in walk p w.list in
      (lookup p (check walk w).files ≡ entry_after (suc w.check_times) seen t)
      × (ops_of p (check walk w).events ≡ ops_of p w.events ++ diff (lookup p w.files) seen t)
unfolding check
check-diff walk w p t k h =
    let w' = check_paths walk (later w) w.list in
    let seen = met_in walk p w.list in
    let k' = check_paths-IsWellFormed walk w.list (later w) (later-IsWellFormed w k) in
    let old = lookup p w.files in
    let track = subst (Track p t (suc w.check_times) old (ops_of p w.events) w') (or_false seen) (
      check_paths-Track p t (suc w.check_times) old (ops_of p w.events) walk w.list (later w) false
        h (record { count = refl; entry = refl; told = refl })) in
    let (a, b) = swept-met w.check_times t old seen (lookup p w'.files) (k.bounded p) track.entry in
    (
      rw track.count (lookup-sweep (suc w.check_times) p w'.files k'.distinct) ∙ a,
      ops_of-append p w'.events (sweep w'.check_times w'.files).1
          ∙ ap (◌++◌ (ops_of p w'.events))
              (rw track.count (ops_of-sweep (suc w.check_times) p w'.files k'.distinct))
          ∙ reports seen (ops_of p w'.events) (ops_of p w.events) (found old t)
              (swept (suc w.check_times) (lookup p w'.files)) (diff old seen t) track.told b,
    )
