-- ===== src/Acl/Access.antt =====
-- ext/acl/acl.go: the middleware, on the options that it loads for a request; helper.go.
-- `show` is how a Model reads as a viewer's data.
use xun.Base.{
  ℕ, zero, suc, Bool, true, false, not, ◌||◌, ◌&&◌, Option, none, some, List, [], ◌∷◌, Bytes,
  lookup, has_key, equal, equal_fold, to_lower, if◌then◌else◌,
}
use xun.Http.{write_status}
use xun.Context.{Interceptor, redirect}
use xun.App.{Context, Error, cancelled, Middleware, HandleFunc, context_view}
use xun.Sse.Event.{ℤ, pos, negsuc}
use xun.Acl.Options.{IpNet, Net, Options, has}

pub record Model : Type 0 where
  pub host : Bytes
  pub ip : Bytes
  pub country : Bytes

-- contains: one of the networks has the address.
unfoldable pub contains : Net → Bytes → List IpNet → Bool
contains net ip [] = false
contains net ip (n ∷ list) = net.contains_ip n ip || contains net ip list

-- The path is one of the whitelist, whatever the case of its letters.
unfoldable pub is_whitelisted : Bytes → List Bytes → Bool
unfolding equal_fold
is_whitelisted path [] = false
is_whitelisted path (it ∷ list) = equal_fold path it || is_whitelisted path list

unfoldable pub is_positive : ℤ → Bool
is_positive (pos (suc n)) = true
is_positive (pos zero) = false
is_positive (negsuc n) = false

abbrev status_of : ℤ → ℕ
status_of (pos n) = n
status_of (negsuc n) = 0

-- The host is allowed: no host is listed, or this one is, or the path is whitelisted.
unfoldable pub allows_host : Options → Bytes → Bytes → Bool
unfolding is_whitelisted lookup
allows_host o host path = elim o.allow_hosts [
  | [] ↦ true
  | x ∷ hosts ↦ has_key host (x ∷ hosts) || is_whitelisted path o.host_whitelist
]

module _ (net : Net) (show : Model → Bytes) (interceptor : Option Interceptor) where
  -- redirect; it is called with a positive status
  unfoldable pub redirect_host : Options → Context → Context × Option Error
  unfolding redirect
  redirect_host o c = (
    record c {
      response =
          redirect interceptor c.request c.response o.host_redirect_url
            (status_of o.host_redirect_status_code ∷ []);
    },
    some cancelled,
  )

  -- reject
  abbrev view_denied : Bytes → Model → Context → Context
  view_denied [] m c = c
  view_denied (x ∷ name) m c = (context_view c (show m) ((x ∷ name) ∷ [])).0

  unfoldable pub reject : Options → Model → Context → Context × Option Error
  unfolding write_status context_view
  reject o m c = (
    view_denied o.viewer_name m (record c { response = write_status c.response 403 }),
    some cancelled,
  )

  -- The check of the country, where a lookup function is given.
  unfoldable pub check_country : Options → Model → HandleFunc → HandleFunc
  unfolding has reject
  check_country o m next c = elim o.lookup_func [
    | none ↦ next c
    | some find ↦
        let m' = record m { country = find m.ip } in
        if has o.allow_countries m'.country
        then next c
        else if has o.deny_countries m'.country
        then reject o m' c
        else next c
  ]

  -- The checks of the address.
  unfoldable pub check_ip : Options → Model → HandleFunc → HandleFunc
  unfolding contains check_country
  check_ip o m next c = elim (net.parse_ip m.ip) [
    | none ↦ next c
    | some ip ↦
        if contains net ip o.allow_ip_nets
        then next c
        else if contains net ip o.deny_ip_nets
        then reject o m c
        else check_country o m next c
  ]

  -- The function that New returns, on the options stored at the time of the request.
  abbrev model_of : Bytes → Bytes → Model
  model_of host ip = record { host = to_lower host; ip = ip; country = [] }

  unfoldable pub check : Options → Middleware
  unfolding allows_host check_ip redirect_host is_positive to_lower equal
  check o next c = elim (net.split_host_port c.request.remote_addr) [
    | none ↦ next c
    | some addr ↦
        let m = model_of c.request.host addr in
        if allows_host o m.host c.request.path
        then check_ip o m next c
        else if is_positive o.host_redirect_status_code && not (equal o.host_redirect_url [])
        then redirect_host o c
        else reject o m c
  ]
