-- ===== src/Watcher/Sweep.antt =====
-- fsnotify/watcher.go: the loop of `check` over the files.
use xun.Base.{
  ℕ, ◌≡◌, refl, ap, inl, inr, Option, none, some, List, [], ◌∷◌, ◌++◌, Bytes, Dict, lookup,
  Distinct, equal, equal_iff, ltb, if◌then◌else◌, arith, Bool-cases,
}
use xun.Watcher.Defs.{File, Op, remove, Event, sweep}

-- The operations that events report of a path.
abbrev pub ops_of : Bytes → List Event → List Op
ops_of p [] = []
ops_of p (e ∷ es) = if equal e.name p then e.op ∷ ops_of p es else ops_of p es

pub ops_of-append :
    (p : Bytes) (es fs : List Event) → ops_of p (es ++ fs) ≡ ops_of p es ++ ops_of p fs
ops_of-append p [] fs = refl
ops_of-append p (e ∷ es) fs = elim (Bool-cases (equal e.name p)) [
  | inl h ↦ rw h (ap (◌∷◌ e.op) (ops_of-append p es fs))
  | inr h ↦ rw h (ops_of-append p es fs)
]

-- What is left of a path's file, and what is reported of it.
abbrev pub kept : ℕ → Option File → Option File
kept times none = none
kept times (some f) = if ltb f.check_times times then none else some f

abbrev pub swept : ℕ → Option File → List Op
swept times none = []
swept times (some f) = if ltb f.check_times times then remove ∷ [] else []

pub lookup-sweep :
    (times : ℕ) (p : Bytes) (fs : Dict File)
    → Distinct fs
    → lookup p (sweep times fs).0 ≡ kept times (lookup p fs)
unfolding sweep lookup
lookup-sweep times p [] d = refl
lookup-sweep times p ((q, f) ∷ fs) (a, d) =
    ground (arith, lookup-sweep times p fs d, equal_iff q p, a)

pub ops_of-sweep :
    (times : ℕ) (p : Bytes) (fs : Dict File)
    → Distinct fs
    → ops_of p (sweep times fs).1 ≡ swept times (lookup p fs)
unfolding sweep lookup
ops_of-sweep times p [] d = refl
ops_of-sweep times p ((q, f) ∷ fs) (a, d) =
    ground (arith, ops_of-sweep times p fs d, equal_iff q p, a)

pub Distinct-sweep : (times : ℕ) (fs : Dict File) → Distinct fs → Distinct (sweep times fs).0
unfolding sweep
Distinct-sweep times [] d = tt
Distinct-sweep times ((q, f) ∷ fs) (a, d) = elim (Bool-cases (ltb f.check_times times)) [
  | inl e ↦ rw (e, sweep) (Distinct-sweep times fs d)
  | inr e ↦ rw (e, sweep) (rw (lookup-sweep times q fs d, a) refl, Distinct-sweep times fs d)
]
