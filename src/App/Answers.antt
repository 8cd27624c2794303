-- ===== src/App/Answers.antt =====
-- app.go: which route serves a request after a registration, and the status of its answer.
use xun.Base.{
  sym, append-nil, ◌≢◌, lookup-insert_self, ℕ, suc, true, ◌≡◌, refl, ap, ◌∙◌, inl, inr, Option,
  none, some, List, [], ◌∷◌, ◌++◌, Bytes, codes, lookup, lookup-insert, equal, if◌then◌else◌, arith,
  Option-cases, ◌==◌,
}
use xun.Http.{header_get, header_set, Request, Response, write_status, write_header, write_body}
use xun.App.Defs.{
  Viewer, HandleFunc, Owner, Routing, RoutingOptions, Kind, file, page, handler, App, Error,
  cancelled, view_not_found, other,
}
use xun.App.Chain.{routing_next}
use xun.App.Routes.{create_handler, RoutingOption, apply_options}
use xun.App.Serve.{fail, close, answer_error, serve_route, context_of}

abbrev viewers_of : Option Routing → List Viewer
viewers_of none = []
viewers_of (some r) = r.viewers

abbrev pub options_of : App → List RoutingOption → RoutingOptions
options_of a opts = apply_options opts (record { metadata = []; viewers = a.handler_viewers })

abbrev replaced : App → Bytes → HandleFunc → List RoutingOption → Owner → Routing
replaced a pattern hf opts c = record {
  pattern = pattern;
  handle = hf;
  chain = c;
  options = options_of a opts;
  viewers = viewers_of (lookup pattern a.routes) ++ (options_of a opts).viewers;
}

-- A handler takes its pattern over from a page, a file or an earlier handler: the route has the new
-- handler, chain and options, its viewers are the old ones with the new ones behind them, and all
-- other routes are as they were. A known route stands under its own pattern.
pub create_handler-route :
    (a : App) (pattern q : Bytes) (hf : HandleFunc) (opts : List RoutingOption) (c : Owner)
    → ((r : Routing) → lookup pattern a.routes ≡ some r → r.pattern ≡ pattern)
    → lookup q (create_handler a pattern hf opts c).routes
      ≡ (if equal pattern q then some (replaced a pattern hf opts c) else lookup q a.routes)
unfolding create_handler
create_handler-route a pattern q hf opts c named = elim (Option-cases (lookup pattern a.routes)) [
  | inl e ↦ rw (e, create_handler) (lookup-insert pattern q _ a.routes)
  | inr (r, e) ↦ rw (e, create_handler, named r e) (lookup-insert pattern q _ a.routes)
]

-- The status that an error asks for: 0 asks for none.
abbrev pub error_status : Kind → Option Error → ℕ
error_status kind none = 0
error_status kind (some cancelled) = 0
error_status handler (some view_not_found) = 404
error_status kind (some e) = 500

abbrev pub or_else : ℕ → ℕ → ℕ
or_else a b = if a == 0 then b else a

write_status-status :
    (w : Response) (code : ℕ) → (write_status w code).status_code ≡ or_else w.status_code code
unfolding write_status
write_status-status w code = ground arith

write_header-status :
    (w : Response) (key value : Bytes) → (write_header w key value).status_code ≡ w.status_code
unfolding write_header
write_header-status w key [] = refl
write_header-status w key (c ∷ value) = refl

write_body-status :
    (w : Response) (b : Bytes) (n : ℕ) → (write_body w b n).status_code ≡ w.status_code
unfolding write_body
write_body-status w b n = refl

fail-status :
    (w : Response) (id : Bytes)
    → (write_status (write_header w (codes "X-Log-Id") id) 500).status_code
      ≡ or_else w.status_code 500
fail-status w id =
    write_status-status (write_header w (codes "X-Log-Id") id) 500
    ∙ ap (λ s. or_else s 500) (write_header-status w (codes "X-Log-Id") id)

write_header-header_get :
    (w : Response) (key value : Bytes)
    → value ≢ []
    → header_get (write_header w key value).header key ≡ value
unfolding header_get write_header header_set
write_header-header_get w key [] ne = absurd (ne refl)
write_header-header_get w key (c ∷ value) ne = rw (lookup-insert_self, header_get)

write_status-header : (w : Response) (code : ℕ) → (write_status w code).header ≡ w.header
unfolding write_status
write_status-header w code = ground arith

write_status-body : (w : Response) (code : ℕ) → (write_status w code).body ≡ w.body
unfolding write_status
write_status-body w code = ground arith

write_header-body : (w : Response) (key value : Bytes) → (write_header w key value).body ≡ w.body
unfolding write_header
write_header-body w key [] = refl
write_header-body w key (c ∷ value) = refl

-- The text that an error puts behind the body.
abbrev pub error_body : ℕ → Bytes
error_body status = if status == 404 then codes "View Not Found" else []

-- The answer to an error that asks for a status: the status, the body, and the log id, which
-- `show_id` prints.
pub record IsAnswered (show_id : ℕ → Bytes) (a a' : App) (w w' : Response) (status : ℕ)
    : Type 0 where
  pub status_code : w'.status_code ≡ or_else w.status_code status
  pub body : w'.body ≡ w.body ++ error_body status
  pub log_id : a'.log_id ≡ (if status == 500 then suc a.log_id else a.log_id)
  pub logged : status ≡ 500 → header_get w'.header (codes "X-Log-Id") ≡ show_id (suc a.log_id)
  pub header : status ≢ 500 → w'.header ≡ w.header

or_else_zero : (n : ℕ) → n ≡ or_else n 0
or_else_zero n = ground arith

fail-IsAnswered :
    (show_id : ℕ → Bytes) (a : App) (w : Response)
    → ((n : ℕ) → show_id n ≢ [])
    → IsAnswered show_id a (fail show_id a w).0 w (fail show_id a w).1 500
fail-IsAnswered show_id a w ne =
    let id = show_id (suc a.log_id) in
    let w' = write_header w (codes "X-Log-Id") id in
    record {
      status_code = fail-status w id;
      body =
          write_status-body w' 500
          ∙ write_header-body w (codes "X-Log-Id") id
          ∙ sym (append-nil w.body);
      log_id = refl;
      logged = λ _.
          ap (λ h. header_get h (codes "X-Log-Id")) (write_status-header w' 500)
          ∙ write_header-header_get w (codes "X-Log-Id") id (ne (suc a.log_id));
      header = λ n. absurd (n refl);
    }

left-IsAnswered : (show_id : ℕ → Bytes) (a : App) (w : Response) → IsAnswered show_id a a w w 0
left-IsAnswered show_id a w = record {
  status_code = or_else_zero w.status_code;
  body = sym (append-nil w.body);
  log_id = refl;
  logged = λ e. ground (arith, e);
  header = λ _. refl;
}

not_found-IsAnswered :
    (show_id : ℕ → Bytes) (a : App) (w : Response)
    → IsAnswered show_id a a w (write_body (write_status w 404) (codes "View Not Found") 14) 404
unfolding write_body
not_found-IsAnswered show_id a w = record {
  status_code = write_status-status w 404;
  body = ap (λ b. b ++ codes "View Not Found") (write_status-body w 404);
  log_id = refl;
  logged = λ e. ground (arith, e);
  header = λ _. write_status-header w 404;
}

answer_error-IsAnswered :
    (show_id : ℕ → Bytes) (k : Kind) (a : App) (w : Response) (e : Option Error)
    → ((n : ℕ) → show_id n ≢ [])
    → let (a', w') = answer_error show_id k a w e in IsAnswered show_id a a' w w' (error_status k e)
unfolding answer_error
answer_error-IsAnswered show_id k a w none ne = left-IsAnswered show_id a w
answer_error-IsAnswered show_id k a w (some cancelled) ne = left-IsAnswered show_id a w
answer_error-IsAnswered show_id handler a w (some view_not_found) ne =
    not_found-IsAnswered show_id a w
answer_error-IsAnswered show_id file a w (some view_not_found) ne = fail-IsAnswered show_id a w ne
answer_error-IsAnswered show_id page a w (some view_not_found) ne = fail-IsAnswered show_id a w ne
answer_error-IsAnswered show_id file a w (some (other n)) ne = fail-IsAnswered show_id a w ne
answer_error-IsAnswered show_id page a w (some (other n)) ne = fail-IsAnswered show_id a w ne
answer_error-IsAnswered show_id handler a w (some (other n)) ne = fail-IsAnswered show_id a w ne

closed-IsAnswered :
    (show_id : ℕ → Bytes) (a a' : App) (w w' : Response) (n : ℕ)
    → IsAnswered show_id a a' w w' n
    → IsAnswered show_id a a' w (close w') n
closed-IsAnswered show_id a a' w w' n k = record {
  status_code = k.status_code;
  body = k.body;
  log_id = k.log_id;
  logged = k.logged;
  header = k.header;
}

-- The answer of a route: a status that the chain has written stays. Otherwise ErrViewNotFound gives
-- 404 on a route first registered by a handler, and 500 on one first registered by a file or a page;
-- any other error but ErrCancelled gives 500; no error and ErrCancelled write no status. Where 500 is
-- asked for, a new log id is drawn and X-Log-Id is its text, which is never empty; else the headers
-- are as the chain left them. `View Not Found` stands behind the body where 404 is asked for, and
-- nothing else. The writer is closed.
pub serve_route-IsAnswered :
    (show_id : ℕ → Bytes) (a : App) (k : Kind) (r : Routing) (req : Request) (w : Response)
    → ((n : ℕ) → show_id n ≢ [])
    → let (c, e) = routing_next a r (context_of a r req w) in
      let (a', w') = serve_route show_id a k r req w in
      IsAnswered show_id a a' c.response w' (error_status k e) × (w'.closed ≡ true)
unfolding serve_route
serve_route-IsAnswered show_id a k r req w ne =
    let (c, e) = routing_next a r (context_of a r req w) in
    let (a', w') = answer_error show_id k a c.response e in
    (
      closed-IsAnswered show_id a a' c.response w' (error_status k e)
          (answer_error-IsAnswered show_id k a c.response e ne),
      refl,
    )
