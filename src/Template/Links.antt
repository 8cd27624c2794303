-- ===== src/Template/Links.antt =====
-- template_html.go: a template that loads is known to every template that it is built from.
use mathlib.Core.Path.{subst}
use xun.Base.{
  ℕ, zero, suc, ◌≡◌, ◌≢◌, refl, sym, ap, ◌∙◌, ◌⊎◌, inl, inr, Option, none, some, List, [], ◌∷◌,
  Bytes, lookup, lookup-insert_self, get_elem?, Exists, Option-cases, some_inj,
}
use xun.Template.Store.{Library, HtmlTemplate, Store, modify, add_dependent, link, put}
use xun.Template.Load.{
  End, done, failed, panicked, Work, tree_of, add_dependency, add_one, add_dependencies,
  unless_ended,
}

module _ {A : Type 0} where
  get-modify_self :
      (xs : List A) (i : ℕ) (f : A → A) (x : A)
      → get_elem? xs i ≡ some x
      → get_elem? (modify xs i f) i ≡ some (f x)
  unfolding modify
  get-modify_self [] i f x h = cc
  get-modify_self (y ∷ xs) zero f x h = ap (λ z. some (f z)) (some_inj h)
  get-modify_self (y ∷ xs) (suc i) f x h = get-modify_self xs i f x h

  -- What stands at a place after a change of one place: what stood there, or its change.
  pub get-modify :
      (xs : List A) (i j : ℕ) (f : A → A) (x : A)
      → get_elem? xs j ≡ some x
      → (get_elem? (modify xs i f) j ≡ some x) ⊎ (get_elem? (modify xs i f) j ≡ some (f x))
  unfolding modify
  get-modify [] i j f x h = cc
  get-modify (y ∷ xs) zero zero f x h = inr (ap (λ z. some (f z)) (some_inj h))
  get-modify (y ∷ xs) zero (suc j) f x h = inl h
  get-modify (y ∷ xs) (suc i) zero f x h = inl h
  get-modify (y ∷ xs) (suc i) (suc j) f x h = get-modify xs i j f x h

module _ {T : Type 0} where
  -- The template at `q` knows the one at `p` as a dependent of the name.
  abbrev pub Linked : Store T → ℕ → Bytes → ℕ → Type 0
  Linked s q name p =
      (t : HtmlTemplate T) × (get_elem? s.heap q ≡ some t) × (lookup name t.dependents ≡ some p)

  pub link-Linked :
      (s : Store T) (q : ℕ) (name : Bytes) (p : ℕ) (t : HtmlTemplate T)
      → get_elem? s.heap q ≡ some t
      → Linked (link s q name p) q name p
  unfolding link
  link-Linked s q name p t h = (
    add_dependent name p t,
    get-modify_self s.heap q (add_dependent name p) t h,
    lookup-insert_self name p t.dependents,
  )

  -- Linking the same template elsewhere keeps a link.
  link-keeps :
      (s : Store T) (q q' : ℕ) (name : Bytes) (p : ℕ)
      → Linked s q name p
      → Linked (link s q' name p) q name p
  unfolding link
  link-keeps s q q' name p (t, h, l) = elim (get-modify s.heap q' q (add_dependent name p) t h) [
    | inl e ↦ (t, e, l)
    | inr e ↦ (add_dependent name p t, e, lookup-insert_self name p t.dependents)
  ]

  -- So does a change that leaves the dependents alone.
  pub put-keeps :
      (s : Store T) (q i : ℕ) (f : HtmlTemplate T → HtmlTemplate T) (name : Bytes) (p : ℕ)
      → ((t : HtmlTemplate T) → (f t).dependents ≡ t.dependents)
      → Linked s q name p
      → Linked (put s i f) q name p
  put-keeps s q i f name p same (t, h, l) = elim (get-modify s.heap i q f t h) [
    | inl e ↦ (t, e, l)
    | inr e ↦ (f t, e, ap (lookup name) (same t) ∙ l)
  ]

module _ {T Tree : Type 0} (lib : Library T Tree) where
  -- What one more dependency does: it is no template, or the loading ends, or it is linked.
  abbrev pub OneMore : Bytes → ℕ → Bytes → Work lib → Work lib → Type 0
  OneMore name p n w w' =
      (w'.names ≡ w.names)
      × (w'.store.templates ≡ w.store.templates)
      × (((lookup n w.store.templates ≡ none) × (w' ≡ w))
          ⊎ (((w'.store ≡ w.store) × (w'.end ≢ done))
              ⊎ ((q : ℕ) × (t : HtmlTemplate T) × (lookup n w.store.templates ≡ some q)
                  × (get_elem? w.store.heap q ≡ some t)
                  × (w'.store ≡ link w.store q name p)
                  × (w'.end ≡ w.end))))

  add_dependency-OneMore :
      (name : Bytes) (p : ℕ) (n : Bytes) (q : ℕ) (w : Work lib) (o : Option (HtmlTemplate T))
      → lookup n w.store.templates ≡ some q
      → get_elem? w.store.heap q ≡ o
      → OneMore name p n w (add_dependency lib name p n q w (tree_of lib o))
  unfolding link
  add_dependency-OneMore name p n q w none e h = (refl, refl, inr (inl (refl, cc)))
  add_dependency-OneMore name p n q w (some t) e h = elim (Option-cases (tree_of lib (some t))) [
    | inl f ↦ rw (f, add_dependency) (refl, refl, inr (inl (refl, cc)))
    | inr (tree, f) ↦ elim (Option-cases (lib.add_parse_tree n tree w.nt)) [
      | inl g ↦ rw (f, add_dependency, g) (refl, refl, inr (inl (refl, cc)))
      | inr (nt', g) ↦ rw (f, add_dependency, g) (refl, refl, inr (inr (q, t, e, h, refl, refl)))
    ]
  ]

  pub add_one-OneMore :
      (name : Bytes) (p : ℕ) (n : Bytes) (w : Work lib)
      → OneMore name p n w (add_one lib name p n w)
  unfolding add_one
  add_one-OneMore name p n w = elim (Option-cases (lookup n w.store.templates)) [
    | inl e ↦ rw (e, add_one) (refl, refl, inl (refl, refl))
    | inr (q, e) ↦
        subst (OneMore name p n w)
          (ap
            (λ o. elim o [
              | none ↦ w
              | some q' ↦ add_dependency lib name p n q' w (tree_of lib (get_elem? w.store.heap q'))
            ])
            (sym e))
          (add_dependency-OneMore name p n q w (get_elem? w.store.heap q) e refl)
  ]

  pub End-cases : (e : End) → (e ≡ done) ⊎ (e ≢ done)
  End-cases done = inl refl
  End-cases (failed e) = inr cc
  End-cases panicked = inr cc

  -- A link stays, one more dependency is linked, if the loading goes on.
  OneMore-keeps :
      (name : Bytes) (p : ℕ) (n : Bytes) (w w' : Work lib) (q : ℕ)
      → OneMore name p n w w'
      → Linked w.store q name p
      → Linked w'.store q name p
  OneMore-keeps name p n w w' q (a, b, inl (e, f)) l =
      subst (λ v. Linked v.store q name p) (sym f) l
  OneMore-keeps name p n w w' q (a, b, inr (inl (e, f))) l =
      subst (λ s. Linked s q name p) (sym e) l
  OneMore-keeps name p n w w' q (a, b, inr (inr (q', t, e, h, f, g))) l =
      subst (λ s. Linked s q name p) (sym f) (link-keeps w.store q q' name p l)

  OneMore-Linked :
      (name : Bytes) (p : ℕ) (n : Bytes) (w w' : Work lib) (q : ℕ)
      → OneMore name p n w w'
      → w'.end ≡ done
      → lookup n w.store.templates ≡ some q
      → Linked w'.store q name p
  OneMore-Linked name p n w w' q (a, b, inl (e, f)) d l = absurd (cc (e, l))
  OneMore-Linked name p n w w' q (a, b, inr (inl (e, f))) d l = absurd (f d)
  OneMore-Linked name p n w w' q (a, b, inr (inr (q', t, e, h, f, g))) d l =
      subst (λ s. Linked s q name p) (sym f)
        (subst (λ i. Linked (link w.store q' name p) i name p) (some_inj (sym e ∙ l))
          (link-Linked w.store q' name p t h))

  -- All dependencies, one after another.
  abbrev pub AllLinked : Bytes → ℕ → List Bytes → Work lib → Work lib → Type 0
  AllLinked name p ns w w' =
      (w'.names ≡ w.names)
      × (w'.store.templates ≡ w.store.templates)
      × ((q : ℕ) → Linked w.store q name p → Linked w'.store q name p)
      × ((n : Bytes) (q : ℕ)
          → Exists (λ m. m ≡ n) ns
          → lookup n w.store.templates ≡ some q
          → Linked w'.store q name p)

  AllLinked-cons :
      (name : Bytes) (p : ℕ) (m : Bytes) (ns : List Bytes) (w w' w'' : Work lib)
      → OneMore name p m w w'
      → w'.end ≡ done
      → AllLinked name p ns w' w''
      → AllLinked name p (m ∷ ns) w w''
  AllLinked-cons name p m ns w w' w'' one e (a, b, keeps, links) =
      let (a', b', _) = one in
      (
        a ∙ a',
        b ∙ b',
        λ q l. keeps q (OneMore-keeps name p m w w' q one l),
        λ n q h l. elim h [
          | inl h' ↦ keeps q (
              OneMore-Linked name p m w w' q one e
                (subst (λ k. lookup k w.store.templates ≡ some q) (sym h') l))
          | inr h' ↦ links n q h' (ap (lookup n) b' ∙ l)
        ],
      )

  pub unless_done :
      (w : Work lib) (f : Work lib → Work lib) → w.end ≡ done → unless_ended lib w f ≡ f w
  unless_done w f e = ap (λ x. elim x [ done ↦ f w | failed e' ↦ w | panicked ↦ w ]) e

  unless_not_from :
      (w : Work lib) (f : Work lib → Work lib) (e : End)
      → w.end ≡ e
      → e ≢ done
      → unless_ended lib w f ≡ w
  unless_not_from w f done h n = absurd (n refl)
  unless_not_from w f (failed x) h n =
      ap (λ x. elim x [ done ↦ f w | failed e' ↦ w | panicked ↦ w ]) h
  unless_not_from w f panicked h n =
      ap (λ x. elim x [ done ↦ f w | failed e' ↦ w | panicked ↦ w ]) h

  pub unless_not :
      (w : Work lib) (f : Work lib → Work lib) → w.end ≢ done → unless_ended lib w f ≡ w
  unless_not w f e = unless_not_from w f w.end refl e

  pub add_dependencies-AllLinked :
      (name : Bytes) (p : ℕ) (ns : List Bytes) (w : Work lib)
      → (add_dependencies lib name p ns w).end ≡ done
      → AllLinked name p ns w (add_dependencies lib name p ns w)
  unfolding add_dependencies
  add_dependencies-AllLinked name p [] w d = (refl, refl, λ q l. l, λ n q h l. absurd h)
  add_dependencies-AllLinked name p (m ∷ ns) w d =
      let w' = add_one lib name p m w in
      let one = add_one-OneMore name p m w in
      let rest : Work lib → Work lib = λ v. add_dependencies lib name p ns v in
      elim (End-cases w'.end) [
        | inr e ↦ absurd (e (ap (λ (v : Work lib). v.end) (sym (unless_not w' rest e)) ∙ d))
        | inl e ↦
            let same = unless_done w' rest e in
            subst (λ v. AllLinked name p (m ∷ ns) w v) (sym same)
              (AllLinked-cons name p m ns w w' (rest w') one e (
                add_dependencies-AllLinked name p ns w'
                  (ap (λ (v : Work lib). v.end) (sym same) ∙ d)))
      ]
