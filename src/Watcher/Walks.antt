-- ===== src/Watcher/Walks.antt =====
-- fsnotify/watcher.go: what the walks of a check do to one path.
use mathlib.Core.Path.{subst}
use xun.Base.{
  ℕ, Bool, true, false, ◌≡◌, refl, sym, ◌∙◌, ap, inl, inr, Option, none, some, List, [], ◌∷◌, ◌++◌,
  ◌||◌, Bytes, lookup, lookup-insert, lookup-insert_self, equal, equal_refl, equal_iff, ◌==◌,
  ==_iff, ==_refl, if◌then◌else◌, Bool-cases, Option-cases, append-nil, All,
}
use xun.Watcher.Defs.{
  File, Op, create, write, Event, Entry, directory, file, broken, Watcher, put_file, send,
  check_file, check_walk, check_paths, note_error,
}
use xun.Watcher.Sweep.{ops_of, ops_of-append}

-- Whether a walk meets a file before its first error.
abbrev pub met : Bytes → List Entry → Bool
met p [] = false
met p (directory q ∷ es) = met p es
met p (file q t ∷ es) = equal q p || met p es
met p (broken q err ∷ es) = false

abbrev pub met_in : (walk : Bytes → List Entry) → Bytes → List Bytes → Bool
met_in walk p [] = false
met_in walk p (path ∷ paths) = met p (walk path) || met_in walk p paths

-- Every entry of the path has the time given.
abbrev pub HasTime : Bytes → ℕ → List Entry → Type 0
HasTime p t [] = Unit
HasTime p t (directory q ∷ es) = HasTime p t es
HasTime p t (file q u ∷ es) = (equal q p ≡ true → u ≡ t) × HasTime p t es
HasTime p t (broken q err ∷ es) = HasTime p t es

-- What a check reports of a file that it finds, with what was known before.
abbrev pub found : Option File → ℕ → List Op
found none t = create ∷ []
found (some f) t = if f.mod_time == t then [] else write ∷ []

-- A path in the course of a check that began with `old` and with the operations `ops`: as before
-- until it is met, and then with its time, the check's count and one report at most.
pub record Track (p : Bytes) (t times : ℕ) (old : Option File) (ops : List Op) (w : Watcher)
    (seen : Bool) : Type 0 where
  pub count : w.check_times ≡ times
  pub entry :
      lookup p w.files ≡ (if seen then some (record { mod_time = t; check_times = times }) else old)
  pub told : ops_of p w.events ≡ (if seen then ops ++ found old t else ops)

ops_of_self :
    (p : Bytes) (es : List Event) (op : Op)
    → ops_of p (es ++ record { name = p; op = op } ∷ []) ≡ ops_of p es ++ op ∷ []
ops_of_self p es op =
    ops_of-append p es (record { name = p; op = op } ∷ []) ∙ rw (equal_refl p) refl

ops_of_other :
    (p q : Bytes) (es : List Event) (op : Op)
    → equal q p ≡ false
    → ops_of p (es ++ record { name = q; op = op } ∷ []) ≡ ops_of p es
ops_of_other p q es op h =
    ops_of-append p es (record { name = q; op = op } ∷ []) ∙ rw h (append-nil (ops_of p es))

or_swap : (a b c : Bool) → (a || (b || c)) ≡ ((b || a) || c)
or_swap true true c = refl
or_swap true false c = refl
or_swap false true c = refl
or_swap false false c = refl

-- The path's entry once it is put anew.
put-entry :
    (p : Bytes) (t times : ℕ) (w : Watcher)
    → w.check_times ≡ times
    → lookup p (put_file w p t).files ≡ some (record { mod_time = t; check_times = times })
put-entry p t times w h =
    lookup-insert_self p (record { mod_time = t; check_times = w.check_times }) w.files
    ∙ ap (λ n. some (record { mod_time = t; check_times = n })) h

module _ (p : Bytes) (t times : ℕ) (old : Option File) (ops : List Op) where
  other-Track :
      (w : Watcher) (seen : Bool) (q : Bytes) (u : ℕ)
      → equal q p ≡ false
      → Track p t times old ops w seen
      → Track p t times old ops (check_file w q u) seen
  unfolding check_file
  other-Track w seen q u h k = elim (Option-cases (lookup q w.files)) [
    | inl e ↦
        rw (e, check_file)
          (record {
            count = k.count;
            entry =
                rw
                  (
                    lookup-insert q p (record { mod_time = u; check_times = w.check_times })
                        w.files,
                    h,
                  )
                  k.entry;
            told = ops_of_other p q w.events create h ∙ k.told;
          })
    | inr (f, e) ↦ elim (Bool-cases (f.mod_time == u)) [
      | inl m ↦
          rw (e, m, check_file)
            (record {
              count = k.count;
              entry =
                  rw
                    (
                      lookup-insert q p
                          (record { mod_time = f.mod_time; check_times = w.check_times }) w.files,
                      h,
                    )
                    k.entry;
              told = k.told;
            })
      | inr m ↦
          rw (e, m, check_file)
            (record {
              count = k.count;
              entry =
                  rw
                    (
                      lookup-insert q p (record { mod_time = u; check_times = w.check_times })
                          w.files,
                      h,
                    )
                    k.entry;
              told = ops_of_other p q w.events write h ∙ k.told;
            })
    ]
  ]

  put-Track :
      (w : Watcher) (op : Op)
      → w.check_times ≡ times
      → ops_of p w.events ≡ ops
      → found old t ≡ op ∷ []
      → Track p t times old ops (send (put_file w p t) p op) true
  put-Track w op c o h = record {
    count = c;
    entry = put-entry p t times w c;
    told = ops_of_self p w.events op ∙ rw (o, h) refl;
  }

  keep-Track :
      (w : Watcher)
      → w.check_times ≡ times
      → ops_of p w.events ≡ ops ++ found old t
      → Track p t times old ops (put_file w p t) true
  keep-Track w c o = record { count = c; entry = put-entry p t times w c; told = o }

module _ (p : Bytes) (t times : ℕ) (ops : List Op) where
  self-Track :
      (old : Option File) (w : Watcher) (seen : Bool)
      → Track p t times old ops w seen
      → Track p t times old ops (check_file w p t) true
  unfolding check_file
  self-Track old w true k =
      rw (k.entry, ==_refl t, check_file) (keep-Track p t times old ops w k.count k.told)
  self-Track none w false k =
      rw (k.entry, check_file) (put-Track p t times none ops w create k.count k.told refl)
  self-Track (some f) w false k = elim (Bool-cases (f.mod_time == t)) [
    | inl m ↦
        rw (k.entry, m, check_file)
          (subst (λ n. Track p t times (some f) ops (put_file w p n) true)
            (sym ((==_iff f.mod_time t).0 m))
            (keep-Track p t times (some f) ops w k.count (k.told ∙ rw m (sym (append-nil ops)))))
    | inr m ↦
        rw (k.entry, m, check_file)
          (put-Track p t times (some f) ops w write k.count k.told (rw m refl))
  ]

module _ (p : Bytes) (t times : ℕ) (old : Option File) (ops : List Op) where
  check_file-Track :
      (w : Watcher) (seen : Bool) (q : Bytes) (u : ℕ)
      → (equal q p ≡ true → u ≡ t)
      → Track p t times old ops w seen
      → Track p t times old ops (check_file w q u) (equal q p || seen)
  check_file-Track w seen q u h k = elim (Bool-cases (equal q p)) [
    | inl e ↦ rw e (
        subst (λ n. Track p t times old ops (check_file w q n) true) (sym (h e))
          (subst (λ r. Track p t times old ops (check_file w r t) true) (sym ((equal_iff q p).0 e))
            (self-Track p t times ops old w seen k)))
    | inr e ↦ rw e (other-Track p t times old ops w seen q u e k)
  ]

  check_walk-Track :
      (es : List Entry) (w : Watcher) (seen : Bool)
      → HasTime p t es
      → Track p t times old ops w seen
      → Track p t times old ops (check_walk w es).0 (met p es || seen)
  unfolding check_walk
  check_walk-Track [] w seen h k = k
  check_walk-Track (directory q ∷ es) w seen h k = check_walk-Track es w seen h k
  check_walk-Track (broken q err ∷ es) w seen h k = k
  check_walk-Track (file q u ∷ es) w seen (h, hs) k =
      subst (Track p t times old ops (check_walk (check_file w q u) es).0)
        (or_swap (met p es) (equal q p) seen)
        (check_walk-Track es (check_file w q u) (equal q p || seen) hs
          (check_file-Track w seen q u h k))

  note_error-Track :
      (r : Watcher × Option ℕ) (seen : Bool)
      → Track p t times old ops r.0 seen
      → Track p t times old ops (note_error r) seen
  note_error-Track (w, none) seen k = k
  note_error-Track (w, some err) seen k = record { count = k.count; entry = k.entry; told = k.told }

  pub check_paths-Track :
      (walk : Bytes → List Entry) (paths : List Bytes) (w : Watcher) (seen : Bool)
      → All (λ path. HasTime p t (walk path)) paths
      → Track p t times old ops w seen
      → Track p t times old ops (check_paths walk w paths) (met_in walk p paths || seen)
  unfolding check_paths
  check_paths-Track walk [] w seen h k = k
  check_paths-Track walk (path ∷ paths) w seen (h, hs) k =
      subst (Track p t times old ops (check_paths walk w (path ∷ paths)))
        (or_swap (met_in walk p paths) (met p (walk path)) seen)
        (check_paths-Track walk paths (note_error (check_walk w (walk path)))
          (met p (walk path) || seen) hs
          (note_error-Track (check_walk w (walk path)) (met p (walk path) || seen)
            (check_walk-Track (walk path) w seen h k)))
