-- ===== src/App/Order.antt =====
-- app.go and group.go: middlewares run in the order in which they were registered.
use xun.Base.{
  ℕ, zero, suc, ◌≡◌, refl, ap, ◌∙◌, sym, List, [], ◌∷◌, ◌++◌, length, get_elem?, arith, map, take,
  Dict, Bytes, codes, ◌≤◌, ◌<◌,
}
use xun.App.Defs.{HandleFunc, Middleware, Context}
use xun.App.Chain.{next_from, next, wrap_at}

-- The first middleware outermost.
abbrev pub nest : List Middleware → HandleFunc → HandleFunc
nest [] hf = hf
nest (m ∷ ms) hf = m (nest ms hf)

nest-take-suc :
    (ms : List Middleware) (i : ℕ) (hf : HandleFunc)
    → i < length ms
    → nest (take i ms) (wrap_at (get_elem? ms i) hf) ≡ nest (take (suc i) ms) hf
nest-take-suc [] i hf h = elim h [ ]
nest-take-suc (m ∷ ms) zero hf h = refl
nest-take-suc (m ∷ ms) (suc i) hf h = ap m (nest-take-suc ms i hf (omega arith))

next_from-nest :
    (ms : List Middleware) (i : ℕ) (hf : HandleFunc)
    → i ≤ length ms
    → next_from ms i hf ≡ nest (take i ms) hf
unfolding next_from
next_from-nest ms zero hf h = refl
next_from-nest ms (suc i) hf h =
    next_from-nest ms i (wrap_at (get_elem? ms i) hf) (omega arith)
    ∙ nest-take-suc ms i hf (omega arith)

take-length : (ms : List Middleware) → take (length ms) ms ≡ ms
take-length [] = refl
take-length (m ∷ ms) = ap (◌∷◌ m) (take-length ms)

-- The loop of `Next` wraps the handler so that the middleware registered first is outermost.
pub next-nest : (ms : List Middleware) (hf : HandleFunc) → next ms hf ≡ nest ms hf
unfolding next
next-nest ms hf =
    next_from-nest ms (length ms) hf (omega arith) ∙ ap (λ l. nest l hf) (take-length ms)

nest-append :
    (ms ns : List Middleware) (hf : HandleFunc) → nest (ms ++ ns) hf ≡ nest ms (nest ns hf)
nest-append [] ns hf = refl
nest-append (m ∷ ms) ns hf = ap m (nest-append ms ns hf)

-- The middleware answers by itself, whatever comes next.
abbrev pub Answers : Middleware → Type 0
Answers m = (f g : HandleFunc) → m f ≡ m g

-- A middleware that answers by itself hides the handler and all middlewares registered after it:
-- the request gets the same answer from any other handler behind any other later middlewares.
pub next-Answers :
    (ms ns ns' : List Middleware) (m : Middleware) (f g : HandleFunc)
    → Answers m
    → next (ms ++ m ∷ ns) f ≡ next (ms ++ m ∷ ns') g
next-Answers ms ns ns' m f g h =
    next-nest (ms ++ m ∷ ns) f
    ∙ nest-append ms (m ∷ ns) f
    ∙ ap (nest ms) (h (nest ns f) (nest ns' g))
    ∙ sym (next-nest (ms ++ m ∷ ns') g ∙ nest-append ms (m ∷ ns') g)

-- A middleware that notes in the request's TempData when it is entered and when it is left.
abbrev noted : Bytes → Bytes → Context → Context
noted k what c = record c { temp_data = c.temp_data ++ (k, what) ∷ [] }

abbrev pub visit : Bytes → Middleware
visit k next_one c =
    let (c', e) = next_one (noted k (codes "in") c) in (noted k (codes "out") c', e)

abbrev pub notes : Bytes → List Bytes → Dict Bytes
notes what = map (λ k. (k, what))

abbrev pub entered : List Bytes → Context → Context
entered ks c = record c { temp_data = c.temp_data ++ notes (codes "in") ks }
