-- ===== src/App/Tests.antt =====
-- app.go, group.go and routing_option.go: runs, and the theorems at concrete inputs.
use xun.Base.{
  ℕ, ◌≡◌, refl, true, false, none, some, [], ◌∷◌, List, Bytes, codes, equal, lookup, ap, sym,
  some_inj,
}
use mathlib.Core.List.{map}
use mathlib.Core.Option
use xun.Http.{Request, Response, new_response, write_status, write_header, write_body}
use xun.App.Defs.{
  Viewer, HandleFunc, Middleware, App, app, cancelled, view_not_found, Context, page, Routing,
}
use xun.App.Chain.{routing_next}
use xun.App.Routes.{create_handler, handle_page, handle_file, handle_file_at, handle_method}
use xun.App.Serve.{serve, serve_route, create_writer}
use xun.App.Table.{
  Setup, handles, handles_file, handles_page, setup, set_up, IsWellFormed, set_up-IsWellFormed,
}
use xun.App.Answers.{create_handler-route, IsAnswered, serve_route-IsAnswered}

abbrev html : Viewer
html = record {
  mime_type = record { type = codes "text"; sub_type = codes "html" };
  render = λ req w d. (write_body w (codes "<p>") 3, none);
}

abbrev no_app : App
no_app = record {
  middlewares = [];
  groups = [];
  viewers = [];
  routes = [];
  handler_viewers = [];
  mux = [];
  compressors = codes "gzip" ∷ [];
  log_id = 0;
}

no_app-IsWellFormed : IsWellFormed no_app
unfolding lookup
no_app-IsWellFormed = record { agree = λ p. refl; named = λ p r e. cc }

-- A middleware that turns every request away, and a handler that fails.
abbrev deny : Middleware
deny next_one c = (record c { response = write_status c.response 403 }, some cancelled)

abbrev missing : HandleFunc
missing c = (c, some view_not_found)

abbrev request : Request
request = record {
  method = codes "GET";
  path = codes "/a";
  request_uri = codes "/a";
  host = codes "a.com";
  remote_addr = codes "1.2.3.4:5";
  tls = false;
  header = (codes "accept-encoding", codes "br, gzip") ∷ [];
  cookies = [];
}

abbrev context : Context
context = record {
  request = request;
  response = new_response;
  viewers = [];
  app_viewers = [];
  temp_data = [];
}

abbrev paged : App
paged = handle_page no_app (codes "GET /a") (codes "a") html

abbrev plan : List Setup
plan = handles_file (codes "b.css") html ∷ handles (codes "GET /a") missing [] app ∷ []

abbrev planned : App
planned =
    create_handler (handle_file_at paged (codes "b.css") (codes "GET /b.css") html) (codes "GET /a")
      missing [] app

abbrev log_id_text : ℕ → Bytes
log_id_text n = codes "id"

-- A page's closure answers 500 where a handler's answers 404.
serve_tests :
    (Option.map
        (λ (p : App × Response). p.1.status_code)
        (serve log_id_text
          (handle_method no_app (codes "GET") (codes "/a") missing [])
          (codes "GET /a")
          request
          new_response)
      ≡ some 404)
    × (Option.map
          (λ (p : App × Response). p.1.status_code)
          (serve log_id_text planned (codes "GET /a") request new_response)
        ≡ some 500)
unfolding serve handle_method handle_page create_handler routing_next write_body write_status
    create_writer new_response handle_file_at write_header
serve_tests = (refl, refl)

allow : Middleware
allow f = f

set_up-IsWellFormed_example : IsWellFormed planned
unfolding set_up setup handle_page handle_file create_handler lookup
set_up-IsWellFormed_example =
    set_up-IsWellFormed (handles_page (codes "GET /a") (codes "a") html ∷ plan) no_app planned
      no_app-IsWellFormed refl

paged_named :
    (r : Routing) → lookup (codes "GET /a") paged.routes ≡ some r → r.pattern ≡ codes "GET /a"
unfolding handle_page
paged_named r h = ap (λ (s : Routing). s.pattern) (sym (some_inj h))

create_handler-route_example :
    (lookup (codes "GET /b") (create_handler paged (codes "GET /a") missing [] app).routes) ≡ none
unfolding handle_page create_handler equal
create_handler-route_example =
    create_handler-route paged (codes "GET /a") (codes "GET /b") missing [] app paged_named

abbrev route : Routing
route = record {
  pattern = codes "GET /a";
  handle = missing;
  chain = app;
  options = record { metadata = []; viewers = [] };
  viewers = [];
}

serve_route-IsAnswered_example :
    let (a', w') = serve_route log_id_text no_app page route request new_response in
    IsAnswered log_id_text no_app a' (create_writer no_app request new_response) w' 500
    × (w'.closed ≡ true)
unfolding routing_next
serve_route-IsAnswered_example =
    serve_route-IsAnswered log_id_text no_app page route request new_response (λ n e. cc)
