-- ===== src/Template/Names.antt =====
-- template_html.go and viewengine_html.go: pointers lead to the templates that their keys name.
use mathlib.Core.Path.{subst}
use xun.Base.{
  ℕ, zero, suc, ◌≡◌, refl, sym, ap, ◌∙◌, ◌⊎◌, inl, inr, some, List, [], ◌∷◌, ◌++◌, Bytes, Dict,
  lookup, insert, delete, lookup-insert, lookup-delete, equal, equal_iff, get_elem?, length, arith,
  Bool-cases, some_inj,
}
use xun.Template.Store.{HtmlTemplate, Store, modify, add_dependent, link, put}
use xun.Template.Links.{get-modify}
use xun.Template.Engine.{without_ext}

insert-cases :
    (name n : Bytes) (p p' : ℕ) (d : Dict ℕ)
    → lookup n (insert name p d) ≡ some p'
    → ((name ≡ n) × (p ≡ p')) ⊎ (lookup n d ≡ some p')
insert-cases name n p p' d l =
    let l' = sym (lookup-insert name n p d) ∙ l in
    elim (Bool-cases (equal name n)) [
      | inl e ↦ inl ((equal_iff name n).0 e, some_inj (rw e at l'))
      | inr e ↦ inr (rw e at l')
    ]

no_dependent : (n : Bytes) (p : ℕ) → ¬ (lookup {V = ℕ} n [] ≡ some p)
unfolding lookup
no_dependent n p h = cc

module _ {A : Type 0} where
  pub get-append_left :
      (xs ys : List A) (i : ℕ) (x : A) → get_elem? xs i ≡ some x → get_elem? (xs ++ ys) i ≡ some x
  get-append_left [] ys i x h = cc
  get-append_left (y ∷ xs) ys zero x h = h
  get-append_left (y ∷ xs) ys (suc i) x h = get-append_left xs ys i x h

  get-append_one :
      (xs : List A) (y : A) (i : ℕ) (x : A)
      → get_elem? (xs ++ y ∷ []) i ≡ some x
      → (get_elem? xs i ≡ some x) ⊎ (x ≡ y)
  get-append_one [] y zero x h = inr (sym (some_inj h))
  get-append_one [] y (suc i) x h = cc
  get-append_one (z ∷ xs) y zero x h = inl h
  get-append_one (z ∷ xs) y (suc i) x h = get-append_one xs y i x h

  pub get-append_last : (xs : List A) (y : A) → get_elem? (xs ++ y ∷ []) (length xs) ≡ some y
  get-append_last [] y = refl
  get-append_last (x ∷ xs) y = get-append_last xs y

module _ {T : Type 0} where
  -- The template at `p` has the name.
  abbrev pub HasName : Store T → ℕ → Bytes → Type 0
  HasName s p n = (t : HtmlTemplate T) × (get_elem? s.heap p ≡ some t) × (t.name ≡ n)

  -- The template at `p` is that of the file whose path is the key with an extension.
  abbrev pub HasPath : Store T → ℕ → Bytes → Type 0
  HasPath s p k = (t : HtmlTemplate T) × (get_elem? s.heap p ≡ some t) × (without_ext t.path ≡ k)

  -- Every dependent that a template knows has the name that it is known by, and every template of
  -- the engine is that of the file whose path, without its extension, is its key.
  pub record IsNamed (s : Store T) : Type 0 where
    pub dependents :
        (q : ℕ) (t : HtmlTemplate T) (n : Bytes) (p : ℕ)
        → get_elem? s.heap q ≡ some t
        → lookup n t.dependents ≡ some p
        → HasName s p n
    pub templates : (k : Bytes) (p : ℕ) → lookup k s.templates ≡ some p → HasPath s p k

  -- A change of a template that leaves its name and its path as they are.
  abbrev pub Mild : (HtmlTemplate T → HtmlTemplate T) → Type 0
  Mild f = (t : HtmlTemplate T) → ((f t).name ≡ t.name) × ((f t).path ≡ t.path)

  put-HasName :
      (s : Store T) (i : ℕ) (f : HtmlTemplate T → HtmlTemplate T) (p : ℕ) (n : Bytes)
      → Mild f
      → HasName s p n
      → HasName (put s i f) p n
  put-HasName s i f p n m (t, h, e) = elim (get-modify s.heap i p f t h) [
    | inl g ↦ (t, g, e)
    | inr g ↦ (f t, g, (m t).0 ∙ e)
  ]

  put-HasPath :
      (s : Store T) (i : ℕ) (f : HtmlTemplate T → HtmlTemplate T) (p : ℕ) (k : Bytes)
      → Mild f
      → HasPath s p k
      → HasPath (put s i f) p k
  put-HasPath s i f p k m (t, h, e) = elim (get-modify s.heap i p f t h) [
    | inl g ↦ (t, g, e)
    | inr g ↦ (f t, g, ap without_ext (m t).1 ∙ e)
  ]

  -- Where a template stands after a change, one stood before.
  get-before :
      (xs : List (HtmlTemplate T)) (i j : ℕ) (f : HtmlTemplate T → HtmlTemplate T)
      (t : HtmlTemplate T)
      → get_elem? (modify xs i f) j ≡ some t
      → (u : HtmlTemplate T) × (get_elem? xs j ≡ some u) × ((t ≡ u) ⊎ (t ≡ f u))
  unfolding modify
  get-before [] i j f t h = cc
  get-before (x ∷ xs) zero zero f t h = (x, refl, inr (sym (some_inj h)))
  get-before (x ∷ xs) zero (suc j) f t h = (t, h, inl refl)
  get-before (x ∷ xs) (suc i) zero f t h = (t, h, inl refl)
  get-before (x ∷ xs) (suc i) (suc j) f t h = get-before xs i j f t h

  -- A change keeps the names right whose new dependents have their names.
  put-IsNamed :
      (s : Store T) (i : ℕ) (f : HtmlTemplate T → HtmlTemplate T)
      → Mild f
      → ((t : HtmlTemplate T) (n : Bytes) (p : ℕ)
          → lookup n (f t).dependents ≡ some p
          → (lookup n t.dependents ≡ some p) ⊎ HasName s p n)
      → IsNamed s
      → IsNamed (put s i f)
  put-IsNamed s i f m new k = record {
    dependents = λ q t n p h l.
        let (u, g, e) = get-before s.heap i q f t h in
        put-HasName s i f p n m (elim e [
          | inl a ↦ k.dependents q u n p g (subst (λ v. lookup n v.dependents ≡ some p) a l)
          | inr a ↦ elim (new u n p (subst (λ v. lookup n v.dependents ≡ some p) a l)) [
            | inl b ↦ k.dependents q u n p g b
            | inr b ↦ b
          ]
        ]);
    templates = λ k' p l. put-HasPath s i f p k' m (k.templates k' p l);
  }

  -- What every step of the program does to the store.
  pub record Evolves (s s' : Store T) : Type 0 where
    pub names : (p : ℕ) (n : Bytes) → HasName s p n → HasName s' p n
    pub paths : (p : ℕ) (k : Bytes) → HasPath s p k → HasPath s' p k
    pub named : IsNamed s → IsNamed s'

  pub Evolves-refl : (s : Store T) → Evolves s s
  Evolves-refl s = record { names = λ p n h. h; paths = λ p k h. h; named = λ h. h }

  pub Evolves-trans : (s s' s'' : Store T) → Evolves s s' → Evolves s' s'' → Evolves s s''
  Evolves-trans s s' s'' a b = record {
    names = λ p n h. b.names p n (a.names p n h);
    paths = λ p k h. b.paths p k (a.paths p k h);
    named = λ h. b.named (a.named h);
  }

  put-Evolves_from :
      (s : Store T) (i : ℕ) (f : HtmlTemplate T → HtmlTemplate T)
      → Mild f
      → ((t : HtmlTemplate T) (n : Bytes) (p : ℕ)
          → lookup n (f t).dependents ≡ some p
          → (lookup n t.dependents ≡ some p) ⊎ HasName s p n)
      → Evolves s (put s i f)
  put-Evolves_from s i f m new = record {
    names = λ p n h. put-HasName s i f p n m h;
    paths = λ p k h. put-HasPath s i f p k m h;
    named = λ h. put-IsNamed s i f m new h;
  }

  -- A change that adds no dependents.
  pub put-Evolves :
      (s : Store T) (i : ℕ) (f : HtmlTemplate T → HtmlTemplate T)
      → Mild f
      → ((t : HtmlTemplate T) (n : Bytes) (p : ℕ)
          → lookup n (f t).dependents ≡ some p
          → lookup n t.dependents ≡ some p)
      → Evolves s (put s i f)
  put-Evolves s i f m old = put-Evolves_from s i f m (λ t n p l. inl (old t n p l))

  pub link-Evolves :
      (s : Store T) (q : ℕ) (name : Bytes) (p : ℕ) → HasName s p name → Evolves s (link s q name p)
  unfolding link
  link-Evolves s q name p h =
      put-Evolves_from s q (add_dependent name p) (λ t. (refl, refl))
        (λ t n p' l. elim (insert-cases name n p p' t.dependents l) [
          | inl (e, g) ↦ inr (subst (HasName s p') e (subst (λ i. HasName s i name) g h))
          | inr g ↦ inl g
        ])

  pub delete-Evolves :
      (s : Store T) (i : ℕ) (m : Bytes)
      → Evolves s (put s i (λ t. record t { dependents = delete m t.dependents }))
  delete-Evolves s i m =
      put-Evolves s i (λ t. record t { dependents = delete m t.dependents }) (λ t. (refl, refl))
        (λ t n p l. ground (arith, lookup-delete m n t.dependents, l))

  -- A new object that knows no dependents.
  pub append-Evolves :
      (s : Store T) (t : HtmlTemplate T)
      → t.dependents ≡ []
      → Evolves s (record s { heap = s.heap ++ t ∷ [] })
  append-Evolves s t e = record {
    names = λ p n h. (h.0, get-append_left s.heap (t ∷ []) p h.0 h.1, h.2);
    paths = λ p k h. (h.0, get-append_left s.heap (t ∷ []) p h.0 h.1, h.2);
    named = λ g. record {
      dependents = λ q u n p h l. elim (get-append_one s.heap t q u h) [
        | inl f ↦
            let (v, a, b) = g.dependents q u n p f l in
            (v, get-append_left s.heap (t ∷ []) p v a, b)
        | inr f ↦ absurd (
            no_dependent n p
              (sym (ap (lookup n) (ap (λ (v : HtmlTemplate T). v.dependents) f ∙ e)) ∙ l))
      ];
      templates = λ k p l.
          let (v, a, b) = g.templates k p l in (v, get-append_left s.heap (t ∷ []) p v a, b);
    };
  }

  -- The engine's map gets the template of the path.
  pub register-Evolves :
      (s : Store T) (k : Bytes) (p : ℕ)
      → HasPath s p k
      → Evolves s (record s { templates = insert k p s.templates })
  register-Evolves s k p h = record {
    names = λ p' n h'. h';
    paths = λ p' k' h'. h';
    named = λ g. record {
      dependents = g.dependents;
      templates = λ k' p' l. elim (insert-cases k k' p p' s.templates l) [
        | inl (e, f) ↦ subst (HasPath s p') e (subst (λ i. HasPath s i k) f h)
        | inr f ↦ g.templates k' p' f
      ];
    };
  }
