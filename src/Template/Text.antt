-- ===== src/Template/Text.antt =====
-- template_text.go and viewengine_text.go: text templates and the engine that follows them. The
-- library is text/template's, and `mime_of` is GetMimeType of a name and a text. A template that the
-- engine replaces stays with the viewer that has it, so that templates are objects here too.
use xun.Base.{
  Bool, true, false, zero, suc, ap, sym, some_inj, ℕ, ◌≡◌, ◌≢◌, refl, inl, inr, Option, none, some,
  List, [], ◌∷◌, ◌++◌, Bytes, Dict, codes, lookup, insert, get_elem?, length, has_prefix,
  if◌then◌else◌, Option-cases,
}
use xun.Mime.{MimeType}
use xun.App.{App, Viewer}
use xun.Watcher.{Event, Op, create, write, remove}
use xun.Template.Store.{Read, content, missing, unreadable, modify}
use xun.Template.Load.{End, done, failed, panicked, not_exist, other_error}

pub record TextTemplate (T : Type 0) : Type 0 where
  pub template : Option T
  pub name : Bytes
  pub mime : MimeType
  pub charset : Bytes

abbrev no_type : MimeType
no_type = record { type = []; sub_type = [] }

abbrev pub new_text_template : {T : Type 0} → Bytes → TextTemplate T
new_text_template name = record { template = none; name = name; mime = no_type; charset = [] }

-- TextViewEngine, with the application whose viewers it fills.
pub record TextViewEngine (T : Type 0) : Type 0 where
  pub heap : List (TextTemplate T)
  pub templates : Dict ℕ
  pub app : App

modify_self :
    {A : Type 0} (xs : List A) (i : ℕ) (x : A) → get_elem? xs i ≡ some x → modify xs i (λ y. x) ≡ xs
unfolding modify
modify_self [] i x e = refl
modify_self (y ∷ xs) zero x e = ap (λ z. z ∷ xs) (sym (some_inj e))
modify_self (y ∷ xs) (suc i) x e = ap (◌∷◌ y) (modify_self xs i x e)

module _ {T : Type 0} (parse : Bytes → Bytes → Option T)
    (mime_of : Bytes → Bytes → MimeType × Bytes) (read_file : Bytes → Read) where
  abbrev with_template : Option T → MimeType × Bytes → TextTemplate T → TextTemplate T
  with_template nt (m, charset) t = record t { template = nt; mime = m; charset = charset }

  -- Load of a template, on what reading its file gives.
  unfoldable pub load_text_read : TextTemplate T → Read → TextTemplate T × End
  load_text_read t missing = (t, failed not_exist)
  load_text_read t unreadable = (t, failed other_error)
  load_text_read t (content []) = (
    with_template (parse t.name [])
        (record { type = codes "text"; sub_type = codes "plain" }, codes "; charset=utf-8") t,
    done,
  )
  load_text_read t (content (c ∷ buf)) = elim (parse t.name (c ∷ buf)) [
    | none ↦ (t, failed other_error)
    | some nt ↦ (with_template (some nt) (mime_of t.name (c ∷ buf)) t, done)
  ]

  unfoldable pub load_text_template : TextTemplate T → TextTemplate T × End
  unfolding load_text_read
  load_text_template t = load_text_read t (read_file t.name)

  module _ (viewer_of : ℕ → Viewer) where
    -- loadText and loadTemplate: the template is kept only if it has loaded.
    abbrev text_loaded : Bytes → TextViewEngine T → TextTemplate T × End → TextViewEngine T × End
    text_loaded path ve (t, done) = (
      record {
        heap = ve.heap ++ t ∷ [];
        templates = insert path (length ve.heap) ve.templates;
        app = record ve.app { viewers = insert path (viewer_of (length ve.heap)) ve.app.viewers };
      },
      done,
    )
    text_loaded path ve (t, failed e) = (ve, failed e)
    text_loaded path ve (t, panicked) = (ve, panicked)

    unfoldable pub load_text : Bytes → TextViewEngine T → TextViewEngine T × End
    unfolding load_text_template insert
    load_text path ve = text_loaded path ve (load_text_template (new_text_template path))

    -- Load of the engine, of the files that the walk finds; errors are logged.
    unfoldable pub load_texts : List Bytes → TextViewEngine T → TextViewEngine T
    unfolding load_text
    load_texts [] ve = ve
    load_texts (path ∷ paths) ve = load_texts paths (load_text path ve).0

    abbrev text_reloaded : ℕ → TextViewEngine T → TextTemplate T × End → TextViewEngine T × End
    text_reloaded p ve (t, e) = (record ve { heap = modify ve.heap p (λ u. t) }, e)

    abbrev reload_at : ℕ → TextViewEngine T → Option (TextTemplate T) → TextViewEngine T × End
    reload_at p ve none = (ve, panicked)
    reload_at p ve (some t) = text_reloaded p ve (load_text_template t)

    -- FileChanged
    abbrev written_at : TextViewEngine T → Option ℕ → TextViewEngine T × End
    written_at ve none = (ve, done)
    written_at ve (some p) = reload_at p ve (get_elem? ve.heap p)

    abbrev text_written : Bytes → TextViewEngine T → TextViewEngine T × End
    text_written name ve = written_at ve (lookup name ve.templates)

    abbrev text_changed : Op → Bytes → TextViewEngine T → TextViewEngine T × End
    text_changed remove name ve = (ve, done)
    text_changed write name ve = text_written name ve
    text_changed create name ve =
        if has_prefix name (codes "text/") then load_text name ve else (ve, done)

    unfoldable pub text_file_changed : Event → TextViewEngine T → TextViewEngine T × End
    unfolding load_text load_text_template lookup modify has_prefix
    text_file_changed event ve = text_changed event.op event.name ve

  load_text_read-failed :
      (t : TextTemplate T) (r : Read) → (load_text_read t r).1 ≢ done → (load_text_read t r).0 ≡ t
  unfolding load_text_read
  load_text_read-failed t missing n = refl
  load_text_read-failed t unreadable n = refl
  load_text_read-failed t (content []) n = absurd (n refl)
  load_text_read-failed t (content (c ∷ buf)) n = elim (Option-cases (parse t.name (c ∷ buf))) [
    | inl e ↦ rw (e, load_text_read) refl
    | inr (nt, e) ↦ absurd (n (rw (e, load_text_read) refl))
  ]

  load_text_template-failed :
      (t : TextTemplate T) → (load_text_template t).1 ≢ done → (load_text_template t).0 ≡ t
  unfolding load_text_template
  load_text_template-failed t = load_text_read-failed t (read_file t.name)

  module _ (viewer_of : ℕ → Viewer) where
    load_text-failed :
        (path : Bytes) (ve : TextViewEngine T)
        → (load_text viewer_of path ve).1 ≢ done
        → (load_text viewer_of path ve).0 ≡ ve
    unfolding load_text
    load_text-failed path ve n =
        let (t, e) = load_text_template (new_text_template path) in kept t e n
      where
        kept :
            (t : TextTemplate T) (e : End)
            → (text_loaded viewer_of path ve (t, e)).1 ≢ done
            → (text_loaded viewer_of path ve (t, e)).0 ≡ ve
        kept t done n = absurd (n refl)
        kept t (failed e) n = refl
        kept t panicked n = refl

    reload_at-failed :
        (p : ℕ) (ve : TextViewEngine T)
        → (reload_at viewer_of p ve (get_elem? ve.heap p)).1 ≢ done
        → (reload_at viewer_of p ve (get_elem? ve.heap p)).0 ≡ ve
    reload_at-failed p ve n = elim (Option-cases (get_elem? ve.heap p)) [
      | inl e ↦ rw e refl
      | inr (t, e) ↦
          let n' : (load_text_template t).1 ≢ done = rw e at n in
          rw (e, load_text_template-failed t n')
            (ap (λ h. record ve { heap = h }) (modify_self ve.heap p t e))
    ]

    -- A change of the file system that ends in an error, or in a panic, leaves the engine as it was,
    -- with all its templates and the application's viewers.
    pub text_file_changed-failed :
        (event : Event) (ve : TextViewEngine T)
        → (text_file_changed viewer_of event ve).1 ≢ done
        → (text_file_changed viewer_of event ve).0 ≡ ve
    unfolding text_file_changed
    text_file_changed-failed event ve = by_op event.op event.name
      where
        by_entry :
            (o : Option ℕ)
            → (written_at viewer_of ve o).1 ≢ done
            → (written_at viewer_of ve o).0 ≡ ve
        by_entry none n = absurd (n refl)
        by_entry (some p) n = reload_at-failed p ve n

        by_place :
            (b : Bool) (name : Bytes)
            → (if b then load_text viewer_of name ve else (ve, done)).1 ≢ done
            → (if b then load_text viewer_of name ve else (ve, done)).0 ≡ ve
        by_place true name n = load_text-failed name ve n
        by_place false name n = absurd (n refl)

        by_op :
            (op : Op) (name : Bytes)
            → (text_changed viewer_of op name ve).1 ≢ done
            → (text_changed viewer_of op name ve).0 ≡ ve
        by_op remove name n = absurd (n refl)
        by_op write name n = by_entry (lookup name ve.templates) n
        by_op create name n = by_place (has_prefix name (codes "text/")) name n
