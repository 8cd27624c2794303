-- ===== src/Acl/Options.antt =====
-- ext/acl/option.go and `ParseIPNet` of helper.go. An IP and a mask are their bytes, as in package
-- net, and a set is a dictionary to the unit type.
use xun.Base.{
  ℕ, ◌*◌, Bool, true, false, Option, none, some, List, [], ◌∷◌, ◌++◌, Bytes, Dict, codes, length,
  lookup, insert, has_key, equal, to_lower, if◌then◌else◌,
}
use xun.Sse.Event.{ℤ, pos}

-- map[string]struct{}
abbrev pub StringSet : Type 0
StringSet = Dict {0} Unit

-- net.IPNet
pub record IpNet : Type 0 where
  pub ip : Bytes
  pub mask : Bytes

-- What the code calls of packages net and net/url: nil and an error are `none`, SplitHostPort gives
-- the host alone, and `parse_url` is what the parsed URL prints as.
pub record Net : Type 0 where
  pub parse_cidr : Bytes → Option IpNet
  pub parse_ip : Bytes → Option Bytes
  pub cidr_mask : ℕ → ℕ → Bytes
  pub mask_ip : Bytes → Bytes → Bytes
  pub contains_ip : IpNet → Bytes → Bool
  pub split_host_port : Bytes → Option Bytes
  pub parse_url : Bytes → Option Bytes

pub record CountryRule : Type 0 where
  pub items : StringSet
  pub has_any : Bool

pub record Options : Type 0 where
  pub allow_hosts : StringSet
  pub host_redirect_url : Bytes
  pub host_redirect_status_code : ℤ
  pub host_whitelist : List Bytes
  pub allow_ip_nets : List IpNet
  pub deny_ip_nets : List IpNet
  pub allow_countries : CountryRule
  pub deny_countries : CountryRule
  pub lookup_func : Option (Bytes → Bytes)
  pub viewer_name : Bytes
  pub config : Bytes

abbrev no_country : CountryRule
no_country = record { items = []; has_any = false }

-- NewOptions
unfoldable pub new_options : Options
new_options = record {
  allow_hosts = [];
  host_redirect_url = [];
  host_redirect_status_code = pos 302;
  host_whitelist = [];
  allow_ip_nets = [];
  deny_ip_nets = [];
  allow_countries = no_country;
  deny_countries = no_country;
  lookup_func = none;
  viewer_name = [];
  config = [];
}

-- Has
unfoldable pub has : CountryRule → Bytes → Bool
unfolding lookup
has cr name = if cr.has_any then true else has_key name cr.items

-- ParseIPNet: an address without a mask is the network of itself alone.
abbrev pub single : Net → Bytes → IpNet
single net ip =
    let mask = net.cidr_mask (length ip * 8) (length ip * 8) in
    record { ip = net.mask_ip ip mask; mask = mask }

unfoldable pub parse_ip_net : Net → Bytes → Option IpNet
parse_ip_net net n = elim (net.parse_cidr n) [
  | some ip_net ↦ some ip_net
  | none ↦ elim (net.parse_ip n) [ none ↦ none | some ip ↦ some (single net ip) ]
]

abbrev listed : Option IpNet → List IpNet
listed none = []
listed (some ip_net) = ip_net ∷ []

-- AllIPv4 and AllIPv6, whose texts are networks.
abbrev all_nets : Net → List IpNet
all_nets net =
    listed (parse_ip_net net (codes "0.0.0.0/0")) ++ listed (parse_ip_net net (codes "::/0"))

-- What one text adds to a list of networks.
unfoldable pub nets_of : Net → Bytes → List IpNet
unfolding equal parse_ip_net
nets_of net n = if equal n (codes "*") then all_nets net else listed (parse_ip_net net n)

unfoldable pub add_nets : Net → List Bytes → List IpNet → List IpNet
unfolding nets_of
add_nets net [] list = list
add_nets net (n ∷ ns) list = add_nets net ns (list ++ nets_of net n)

-- AllowIPNets and DenyIPNets
unfoldable pub allow_ip_nets : Net → List Bytes → Options → Options
unfolding add_nets
allow_ip_nets net nets o = record o { allow_ip_nets = add_nets net nets o.allow_ip_nets }

unfoldable pub deny_ip_nets : Net → List Bytes → Options → Options
unfolding add_nets
deny_ip_nets net nets o = record o { deny_ip_nets = add_nets net nets o.deny_ip_nets }

-- AllowHosts
unfoldable pub add_hosts : List Bytes → StringSet → StringSet
unfolding insert to_lower
add_hosts [] hosts = hosts
add_hosts (h ∷ hs) hosts = add_hosts hs (insert (to_lower h) tt hosts)

unfoldable pub allow_hosts : List Bytes → Options → Options
unfolding add_hosts
allow_hosts hosts o = record o { allow_hosts = add_hosts hosts o.allow_hosts }

-- AllowCountries and DenyCountries
abbrev pub add_country : Bytes → CountryRule → CountryRule
add_country c cr = record {
  items = insert c tt cr.items;
  has_any = if equal c (codes "*") then true else cr.has_any;
}

unfoldable pub add_countries : List Bytes → CountryRule → CountryRule
unfolding insert equal
add_countries [] cr = cr
add_countries (c ∷ cs) cr = add_countries cs (add_country c cr)

unfoldable pub allow_countries : List Bytes → Options → Options
unfolding add_countries
allow_countries cs o = record o { allow_countries = add_countries cs o.allow_countries }

unfoldable pub deny_countries : List Bytes → Options → Options
unfolding add_countries
deny_countries cs o = record o { deny_countries = add_countries cs o.deny_countries }

-- WithLookupFunc, WithViewer, WithHostRedirect, WithHostWhitelist
unfoldable pub with_lookup_func : Option (Bytes → Bytes) → Options → Options
with_lookup_func fn o = record o { lookup_func = fn }

unfoldable pub with_viewer : Bytes → Options → Options
with_viewer v o = record o { viewer_name = v }

unfoldable pub with_host_redirect : Net → Bytes → ℤ → Options → Options
with_host_redirect net u code o = elim (net.parse_url u) [
  | none ↦ o
  | some url ↦ record o { host_redirect_url = url; host_redirect_status_code = code }
]

unfoldable pub with_host_whitelist : List Bytes → Options → Options
with_host_whitelist paths o = record o { host_whitelist = o.host_whitelist ++ paths }
