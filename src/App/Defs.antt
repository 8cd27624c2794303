-- ===== src/App/Defs.antt =====
-- app.go, group.go, routing.go and routing_option.go: the data.
-- A pointer that several objects share is a number: a group's, and a route's, which is the pattern
-- that it was registered with. A mux closure holds the pointer of its route.
use xun.Base.{ℕ, Option, List, Bytes, Dict}
use xun.Http.{Request, Response}
use xun.Mime.{MimeType}

-- errs.go, and any other error.
pub data Error : Type 0 where
  cancelled : Error
  view_not_found : Error
  other : ℕ → Error

-- The Viewer interface.
pub record Viewer : Type 0 where
  pub mime_type : MimeType
  pub render : Request → Response → Bytes → Response × Option Error

-- What a handler sees and changes of a Context: the viewers of its route and of the application
-- are those of the moment when the request came.
pub record Context : Type 0 where
  pub request : Request
  pub response : Response
  pub viewers : List Viewer
  pub app_viewers : Dict Viewer
  pub temp_data : Dict Bytes

-- HandleFunc and Middleware
abbrev pub HandleFunc : Type 0
HandleFunc = Context → Context × Option Error

abbrev pub Middleware : Type 0
Middleware = HandleFunc → HandleFunc

-- The chain interface: the application or a group.
pub data Owner : Type 0 where
  app : Owner
  group : ℕ → Owner

-- The values that routing metadata holds: `any` is told apart by its dynamic type.
pub data Value : Type 0 where
  string : Bytes → Value
  int : ℕ → Value
  object : ℕ → Value

pub record RoutingOptions : Type 0 where
  pub metadata : Dict Value
  pub viewers : List Viewer

pub record Routing : Type 0 where
  pub pattern : Bytes
  pub handle : HandleFunc
  pub chain : Owner
  pub options : RoutingOptions
  pub viewers : List Viewer

-- The closures that are registered with the mux: HandleFile's, HandlePage's and createHandler's.
pub data Kind : Type 0 where
  file page handler : Kind

pub record Group : Type 0 where
  pub prefix : Bytes
  pub middlewares : List Middleware

-- A compressor, by the encoding that it accepts.
pub record App : Type 0 where
  pub middlewares : List Middleware
  pub groups : List Group
  pub viewers : Dict Viewer
  pub routes : Dict Routing
  pub handler_viewers : List Viewer
  pub mux : List (Bytes × Kind)
  pub compressors : List Bytes
  pub log_id : ℕ
