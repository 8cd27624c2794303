-- ===== src/Template/Registers.antt =====
-- template_html.go: what a Load that succeeds leaves behind.
use mathlib.Core.Path.{subst}
use xun.Base.{
  ℕ, zero, suc, ◌≡◌, ◌≢◌, refl, sym, ap, ◌∙◌, ◌⊎◌, inl, inr, Option, none, some, List, [], ◌∷◌,
  ◌++◌, Bytes, codes, lookup, get_elem?, Exists, Bool-cases, Option-cases, some_inj,
}
use xun.Template.Store.{Library, Read, content, HtmlTemplate, Store, modify, link}
use xun.Template.Load.{
  done, Work, own_names, layout_name, copy_trees, from_layout, with_template, with_object,
  use_layout, set_layout, unless_ended, do_layout, add_dependencies, finish, finish_work,
  load_parsed, load_read, load_object, load,
}
use xun.Template.Links.{
  Linked, link-Linked, put-keeps, AllLinked, add_dependencies-AllLinked, End-cases, unless_done,
  unless_not,
}

module _ {A : Type 0} where
  -- What stands at the place that was changed is the change of what stood there.
  get-modify_inv :
      (xs : List A) (i : ℕ) (f : A → A) (y : A)
      → get_elem? (modify xs i f) i ≡ some y
      → (x : A) × (get_elem? xs i ≡ some x) × (y ≡ f x)
  unfolding modify
  get-modify_inv [] i f y h = cc
  get-modify_inv (x ∷ xs) zero f y h = (x, refl, sym (some_inj h))
  get-modify_inv (x ∷ xs) (suc i) f y h = get-modify_inv xs i f y h

module _ {T Tree : Type 0} (lib : Library T Tree) where
  -- A work that has not ended well, or that is linked to the layout and keeps the templates.
  abbrev Layouted : Bytes → ℕ → ℕ → Work lib → Work lib → Type 0
  Layouted name p q w w' =
      (w'.store.templates ≡ w.store.templates) × ((w'.end ≢ done) ⊎ Linked w'.store q name p)

  from_layout-Layouted :
      (name : Bytes) (p : ℕ) (layout : Bytes) (w : Work lib) (q : ℕ) (l : HtmlTemplate T) (lt : T)
      → get_elem? w.store.heap q ≡ some l
      → Layouted name p q w (from_layout lib name p layout w q l lt)
  unfolding link
  from_layout-Layouted name p layout w q l lt h =
      elim (Bool-cases (copy_trees lib layout (lib.trees lt) w.nt).1) [
        | inl e ↦ rw (e, from_layout) (refl, inr (link-Linked w.store q name p l h))
        | inr e ↦ rw (e, from_layout) (refl, inl cc)
      ]

  with_template-Layouted :
      (name : Bytes) (p : ℕ) (layout : Bytes) (w : Work lib) (q : ℕ) (l : HtmlTemplate T)
      (o : Option T)
      → get_elem? w.store.heap q ≡ some l
      → Layouted name p q w (with_template lib name p layout w q l o)
  with_template-Layouted name p layout w q l none h = (refl, inl cc)
  with_template-Layouted name p layout w q l (some lt) h =
      from_layout-Layouted name p layout w q l lt h

  with_object-Layouted :
      (name : Bytes) (p : ℕ) (layout : Bytes) (w : Work lib) (q : ℕ) (o : Option (HtmlTemplate T))
      → get_elem? w.store.heap q ≡ o
      → Layouted name p q w (with_object lib name p layout w q o)
  with_object-Layouted name p layout w q none h = (refl, inl cc)
  with_object-Layouted name p layout w q (some l) h =
      with_template-Layouted name p layout w q l l.template h

  use_layout-some :
      (name : Bytes) (p : ℕ) (layout : Bytes) (w : Work lib) (q : ℕ)
      → lookup layout w.store.templates ≡ some q
      → Layouted name p q w (use_layout lib name p layout w)
  unfolding use_layout
  use_layout-some name p layout w q e =
      subst (Layouted name p q w)
        (ap
          (λ o. elim o [
            | none ↦ w
            | some q' ↦ with_object lib name p layout w q' (get_elem? w.store.heap q')
          ])
          (sym e))
        (with_object-Layouted name p layout w q (get_elem? w.store.heap q) refl)

  use_layout-templates :
      (name : Bytes) (p : ℕ) (layout : Bytes) (w : Work lib)
      → (use_layout lib name p layout w).store.templates ≡ w.store.templates
  unfolding use_layout
  use_layout-templates name p layout w = elim (Option-cases (lookup layout w.store.templates)) [
    | inl e ↦ rw (e, use_layout) refl
    | inr (q, e) ↦ (use_layout-some name p layout w q e).0
  ]

  set_if_done :
      (p : ℕ) (layout : Bytes) (w : Work lib)
      → (unless_ended lib w (set_layout lib p layout)).store.templates ≡ w.store.templates
  set_if_done p layout w = elim (End-cases lib w.end) [
    | inl e ↦
        ap (λ (v : Work lib). v.store.templates) (unless_done lib w (set_layout lib p layout) e)
    | inr e ↦
        ap (λ (v : Work lib). v.store.templates) (unless_not lib w (set_layout lib p layout) e)
  ]

  do_layout-templates :
      (name : Bytes) (p : ℕ) (o : Option Bytes) (w : Work lib)
      → (do_layout lib name p o w).store.templates ≡ w.store.templates
  unfolding do_layout
  do_layout-templates name p none w = refl
  do_layout-templates name p (some []) w = refl
  do_layout-templates name p (some (c ∷ l)) w =
      set_if_done p (codes "layouts/" ++ (c ∷ l))
        (use_layout lib name p (codes "layouts/" ++ (c ∷ l)) w)
      ∙ use_layout-templates name p (codes "layouts/" ++ (c ∷ l)) w

  -- The layout that was used knows the template.
  do_layout-Linked :
      (name : Bytes) (p : ℕ) (c : ℕ) (l : Bytes) (w : Work lib) (q : ℕ)
      → (do_layout lib name p (some (c ∷ l)) w).end ≡ done
      → lookup (codes "layouts/" ++ (c ∷ l)) w.store.templates ≡ some q
      → Linked (do_layout lib name p (some (c ∷ l)) w).store q name p
  unfolding do_layout
  do_layout-Linked name p c l w q d e =
      let full = codes "layouts/" ++ (c ∷ l) in
      let w' = use_layout lib name p full w in
      elim (End-cases lib w'.end) [
        | inr n ↦ absurd (
            n (
              ap (λ (v : Work lib). v.end) (sym (unless_not lib w' (set_layout lib p full) n)) ∙ d))
        | inl n ↦ elim (use_layout-some name p full w q e).1 [
          | inl m ↦ absurd (m n)
          | inr linked ↦
              subst (λ (v : Work lib). Linked v.store q name p)
                (sym (unless_done lib w' (set_layout lib p full) n))
                (put-keeps w'.store q p (λ t. record t { layout = full }) name p (λ t. refl) linked)
        ]
      ]

  -- The names that a template is built from: its dependencies, and the layout of its first line.
  abbrev pub IsPart : Bytes → List Bytes → Bytes → Type 0
  IsPart text names n =
      Exists (λ m. m ≡ n) names
      ⊎ ((c : ℕ) × (l : Bytes) × (layout_name text ≡ some (c ∷ l))
          × (n ≡ codes "layouts/" ++ (c ∷ l)))

  -- What a load leaves that went well.
  abbrev Registered : Bytes → ℕ → Bytes → Store T → Type 0
  Registered name p text s' =
      (t' : HtmlTemplate T)
      → get_elem? s'.heap p ≡ some t'
      → (n : Bytes) (q : ℕ) → IsPart text t'.dependencies n
      → lookup n s'.templates ≡ some q
      → Linked s' q name p

  -- The layout's link and those of the dependencies, once the work is stored.
  finish-Registered :
      (name : Bytes) (p : ℕ) (text : Bytes) (w w' : Work lib)
      → ((c : ℕ) (l : Bytes) (q : ℕ)
          → layout_name text ≡ some (c ∷ l)
          → lookup (codes "layouts/" ++ (c ∷ l)) w.store.templates ≡ some q
          → Linked w.store q name p)
      → AllLinked lib name p w.names w w'
      → Registered name p text (finish_work lib p w').0
  finish-Registered name p text w w' layout (a, b, keeps, links) t' h n q part l =
      let f : HtmlTemplate T → HtmlTemplate T =
        λ t. record t { template = some w'.nt; dependencies = w'.names } in
      let (x, _, e) = get-modify_inv w'.store.heap p f t' h in
      let names : t'.dependencies ≡ w.names = ap (λ (t : HtmlTemplate T). t.dependencies) e ∙ a in
      let l' = ap (lookup n) (sym b) ∙ l in
      put-keeps w'.store q p f name p (λ t. refl)
        (elim part [
          | inl d ↦ links n q (subst (Exists (λ m. m ≡ n)) names d) l'
          | inr (c, r, g, k) ↦
              keeps q (layout c r q g (subst (λ m. lookup m w.store.templates ≡ some q) k l'))
        ])

  layout-Linked :
      (name : Bytes) (p : ℕ) (o : Option Bytes) (w : Work lib) (c : ℕ) (l : Bytes) (q : ℕ)
      → o ≡ some (c ∷ l)
      → (do_layout lib name p o w).end ≡ done
      → lookup (codes "layouts/" ++ (c ∷ l)) (do_layout lib name p o w).store.templates ≡ some q
      → Linked (do_layout lib name p o w).store q name p
  layout-Linked name p o w c l q e =
      subst
        (λ o'.
          (do_layout lib name p o' w).end ≡ done
          → lookup (codes "layouts/" ++ (c ∷ l)) (do_layout lib name p o' w).store.templates
            ≡ some q
          → Linked (do_layout lib name p o' w).store q name p)
        (sym e)
        (λ d k. do_layout-Linked name p c l w q d (
          ap (lookup (codes "layouts/" ++ (c ∷ l)))
            (sym (do_layout-templates name p (some (c ∷ l)) w))
          ∙ k))

  load_parsed-Registered :
      (name : Bytes) (p : ℕ) (text : Bytes) (nt : T) (s : Store T)
      → (load_parsed lib name p text nt s).1 ≡ done
      → Registered name p text (load_parsed lib name p text nt s).0
  unfolding load_parsed
  load_parsed-Registered name p text nt s d =
      let w0 : Work lib = record {
        store = s;
        nt = nt;
        names = own_names name (lib.trees nt) [];
        end = done;
      } in
      let w = do_layout lib name p (layout_name text) w0 in
      let rest : Work lib → Work lib = λ w'. add_dependencies lib name p w'.names w' in
      elim (End-cases lib w.end) [
        | inr n ↦ absurd (n (ap (λ (v : Work lib). v.end) (sym (unless_not lib w rest n)) ∙ d))
        | inl n ↦
            let same = unless_done lib w rest n in
            subst (λ (v : Work lib). Registered name p text (finish_work lib p v).0) (sym same)
              (finish-Registered name p text w (rest w)
                (λ c l q e k. layout-Linked name p (layout_name text) w0 c l q e n k)
                (add_dependencies-AllLinked lib name p w.names w
                  (ap (λ (v : Work lib). v.end) (sym same) ∙ d)))
      ]

  no_parts :
      (name : Bytes) (p : ℕ) (nt : Option T) (s : Store T)
      → Registered name p [] (finish lib p nt [] s)
  unfolding layout_name
  no_parts name p nt s t' h n q (inl d) l =
      let f : HtmlTemplate T → HtmlTemplate T =
        λ t. record t { template = nt; dependencies = [] } in
      let (x, _, e) = get-modify_inv s.heap p f t' h in
      absurd (subst (Exists (λ m. m ≡ n)) (ap (λ (t : HtmlTemplate T). t.dependencies) e) d)
  no_parts name p nt s t' h n q (inr (c, r, g, k)) l = cc

  load_read-Registered :
      (t : HtmlTemplate T) (p : ℕ) (text : Bytes) (s : Store T)
      → (load_read lib t p (content text) s).1 ≡ done
      → Registered t.name p text (load_read lib t p (content text) s).0
  unfolding load_read
  load_read-Registered t p [] s d = no_parts t.name p (lib.parse t.name []) s
  load_read-Registered t p (c ∷ text) s d = elim (Option-cases (lib.parse t.name (c ∷ text))) [
    | inl e ↦ cc (rw (e, load_read) at d)
    | inr (nt, e) ↦
        rw (e, load_read) (load_parsed-Registered t.name p (c ∷ text) nt s (rw (e, load_read) at d))
  ]

  -- When a template has loaded without an error, every template that the engine has by the name of
  -- one of its dependencies, or of the layout that its first line names, knows it as a dependent:
  -- these are the templates whose Reload reloads it.
  pub load-Registered :
      (read_file : Bytes → Read) (p : ℕ) (t t' : HtmlTemplate T) (text : Bytes) (s s' : Store T)
      (n : Bytes) (q : ℕ)
      → get_elem? s.heap p ≡ some t
      → read_file t.path ≡ content text
      → load lib read_file p s ≡ (s', done)
      → get_elem? s'.heap p ≡ some t'
      → IsPart text t'.dependencies n
      → lookup n s'.templates ≡ some q
      → Linked s' q t.name p
  unfolding load
  load-Registered read_file p t t' text s s' n q h r e h' part l =
      let loaded : load lib read_file p s ≡ load_read lib t p (content text) s =
        ap (load_object lib read_file p s) h ∙ ap (λ x. load_read lib t p x s) r in
      let e' = sym loaded ∙ e in
      let stored : (load_read lib t p (content text) s).0 ≡ s' = ap (λ x. x.0) e' in
      subst (Registered t.name p text) stored (load_read-Registered t p text s (ap (λ x. x.1) e'))
        t' h' n q part l
