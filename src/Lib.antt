-- ===== src/Lib.antt =====
-- xun, a web framework: the parts whose own logic can be stated without a network.
--
-- The parts and the files that model them (paths are from the repository's root):
--   * App: app.go, group.go, chain.go, routing.go and routing_option.go. Defs holds the state: the
--     route table, the viewers, the groups and the patterns given to the mux. Chain is Use and Next;
--     Routes is HandleFile, HandlePage, HandleFunc, createHandler and Group; Serve is createWriter
--     and the closures that the mux calls; Options is RoutingOptions.
--   * Context: context.go. View chooses a viewer by the Accept header, getViewer's name and the
--     route; Redirect and RequestReferer ask the interceptor, of which ext/htmx/interceptor.go is one.
--   * Mime: mime.go, and the Accept and AcceptLanguage methods of context.go.
--   * Http: a request, and the response writer of response_writer_std.go with WriteHeader of
--     context.go.
--   * Etag: etag.go. Pattern: pattern.go.
--   * Watcher: fsnotify/. Add and check walk a file system, which is a parameter.
--   * Sse.Server: ext/sse/server.go and client.go, as steps that interleave.
--   * Sse.Event: ext/sse/event.go and reader.go. Next reads the chunks that the stream's reads return.
--   * Proxy: ext/proxyproto/header.go, helper.go and conn.go. V1 and V2 read a header, Conn is the
--     connection around it.
--   * Acl: ext/acl/. Options are the options and their functions, Access the middleware on the options
--     that it loads, Config the parser of the configuration file, Watch the loading and reloading.
--   * Template: template_html.go and viewengine_html.go. Store holds the template objects, Load is Load
--     and Reload of one, Engine the loading of a file system and its changes. Text is the same for
--     template_text.go and viewengine_text.go.
--   * Static: viewengine_static.go, the patterns of static files and their asset URLs.
--   * Cookie: ext/cookie/. Csrf: ext/csrf/ without the script that it serves. Crypto is what both call
--     of HMAC and base64.
--   * Hsts: ext/hsts/. Reqlog: ext/reqlog/. Htmx: the helpers of ext/htmx/.
--   * BufferPool: buffer_pool.go. Cache: ext/cache/.
--   * Base: Boolean tests, lists over the native numbers, byte strings in the manner of package
--     strings, and maps.
-- Files named Tests hold runs and the theorems at concrete inputs.
--
-- How the code is rendered: a string is the list of its bytes, and case folding and white space are
-- ASCII's. Header keys are in lower case, where net/http has one canonical case of each key. A map
-- is an association list; what depends on the order of a Go map's loop is stated for each key by
-- itself. A pointer that is shared is a number into a store (SSE clients, groups) or the key of its
-- table (routes). A panic is `none`. Counters do not overflow. A lock is a step: what runs under
-- one lock happens at once, and steps interleave in any order. The loop of checkIfNoneMatch runs on
-- fuel, a round for each byte of the header and one more, and the loops over the access control's
-- file run on one more than its lines; both are proved to be enough. Reload of a template runs on
-- fuel, since templates may depend on each other in a circle. All other loops are structural
-- recursion.
--
-- What is a parameter: the text of a log id, the type of a file by its extension or content, what
-- fs.WalkDir finds, what encoding JSON gives, the bytes that an underlying writer takes, whether a
-- write fails, net.ResolveTCPAddr, and, for access control, the parsers of addresses, networks and
-- URLs, and, for cookies and tokens, HMAC, base64, random bytes, the printing of a cookie and of an
-- instant, the parsing of an instant and the test of a cookie's name, and, for caching, the whole
-- seconds that Duration.Seconds gives, and, for templates, html/template and the reading of
-- files.
--
-- What is not modelled: which pattern a request matches (net/http's mux), what viewers write,
-- compressed streams, logging itself, form binding, certificates, the scripts that ext/csrf/ and
-- ext/htmx/ serve, and the folding of options into an application.

pub mod Base
pub mod Pattern
pub mod Http
pub mod Mime
pub mod Context
pub mod Etag
pub mod App
pub mod Watcher
pub mod Sse
pub mod Proxy
pub mod BufferPool
pub mod Cache
pub mod Acl
pub mod Crypto
pub mod Cookie
pub mod Csrf
pub mod Template
pub mod Hsts
pub mod Reqlog
pub mod Htmx
pub mod Static
