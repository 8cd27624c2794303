-- ===== src/Acl/Admission.antt =====
-- ext/acl/acl.go: which requests reach the handler.
use mathlib.Core.Path.{subst}
use xun.Base.{
  ◌≡◌, sym, ◌∙◌, ◌↔◌, ◌⊎◌, true, ◌||◌, none, some, List, [], ◌∷◌, Bytes, lookup, has_key, equal_iff,
  equal_fold, to_lower, Exists, arith, some_inj, Option-cases,
}
use xun.Http.{Request}
use xun.Acl.Options.{IpNet, Net, StringSet, CountryRule, Options, has}
use xun.Acl.Access.{contains, is_whitelisted, allows_host}

-- The set has the text.
abbrev pub Has : Bytes → StringSet → Type 0
Has k s = lookup k s ≡ some tt

-- The rule takes the country.
abbrev pub Takes : CountryRule → Bytes → Type 0
Takes cr c = (cr.has_any ≡ true) ⊎ Has c cr.items

pub has_iff : (cr : CountryRule) (c : Bytes) → (has cr c ≡ true) ↔ Takes cr c
unfolding has
has_iff cr c = ground (arith, Option-cases (lookup c cr.items))

-- One of the paths is this one, whatever the case of letters.
abbrev pub Whitelisted : Bytes → List Bytes → Type 0
Whitelisted path = Exists (λ it. to_lower path ≡ to_lower it)

is_whitelisted_iff :
    (path : Bytes) (list : List Bytes) → (is_whitelisted path list ≡ true) ↔ Whitelisted path list
unfolding is_whitelisted equal_fold
is_whitelisted_iff path [] = (λ h. cc h, λ h. absurd h)
is_whitelisted_iff path (it ∷ list) =
    ground (arith, equal_iff (to_lower path) (to_lower it), is_whitelisted_iff path list)

-- The host, in lower case, may ask for the path.
abbrev pub HostAllowed : Options → Bytes → Bytes → Type 0
HostAllowed o host path =
    (o.allow_hosts ≡ []) ⊎ (Has host o.allow_hosts ⊎ Whitelisted path o.host_whitelist)

module _ (net : Net) where
  -- One of the networks has the address.
  abbrev pub Within : Bytes → List IpNet → Type 0
  Within ip = Exists (λ n. net.contains_ip n ip ≡ true)

  pub contains_iff :
      (ip : Bytes) (list : List IpNet) → (contains net ip list ≡ true) ↔ Within ip list
  unfolding contains
  contains_iff ip [] = (λ h. cc h, λ h. absurd h)
  contains_iff ip (n ∷ list) = ground (arith, contains_iff ip list)

allows_host-of :
    (hosts : StringSet) (host path : Bytes) (white : List Bytes)
    → (elim hosts [ [] ↦ true | x ∷ rest ↦ has_key host (x ∷ rest) || is_whitelisted path white ]
        ≡ true)
      ↔ ((hosts ≡ []) ⊎ (Has host hosts ⊎ Whitelisted path white))
allows_host-of [] host path white = ground arith
allows_host-of (x ∷ rest) host path white =
    ground (arith, is_whitelisted_iff path white, Option-cases (lookup host (x ∷ rest)))

pub allows_host_iff :
    (o : Options) (host path : Bytes) → (allows_host o host path ≡ true) ↔ HostAllowed o host path
unfolding allows_host
allows_host_iff o host path = allows_host-of o.allow_hosts host path o.host_whitelist

-- Why a request is admitted.
pub data Admitted (net : Net) (o : Options) (req : Request) : Type 0 where
  no_address : net.split_host_port req.remote_addr ≡ none → Admitted net o req
  no_ip :
      {addr : Bytes}
      → net.split_host_port req.remote_addr ≡ some addr
      → HostAllowed o (to_lower req.host) req.path
      → net.parse_ip addr ≡ none
      → Admitted net o req
  allowed_ip :
      {addr ip : Bytes}
      → net.split_host_port req.remote_addr ≡ some addr
      → HostAllowed o (to_lower req.host) req.path
      → net.parse_ip addr ≡ some ip
      → Within net ip o.allow_ip_nets
      → Admitted net o req
  other_ip :
      {addr ip : Bytes}
      → net.split_host_port req.remote_addr ≡ some addr
      → HostAllowed o (to_lower req.host) req.path
      → net.parse_ip addr ≡ some ip
      → ¬ Within net ip o.deny_ip_nets
      → ((find : Bytes → Bytes)
          → o.lookup_func ≡ some find
          → Takes o.allow_countries (find addr) ⊎ ¬ Takes o.deny_countries (find addr))
      → Admitted net o req

-- The country of the address is allowed, or it is not denied, or it is not asked for.
abbrev pub CountryAdmitted : Options → Bytes → Type 0
CountryAdmitted o addr =
    (find : Bytes → Bytes)
    → o.lookup_func ≡ some find
    → Takes o.allow_countries (find addr) ⊎ ¬ Takes o.deny_countries (find addr)

pub admit :
    (o : Options) (addr : Bytes) (find : Bytes → Bytes)
    → o.lookup_func ≡ some find
    → Takes o.allow_countries (find addr) ⊎ ¬ Takes o.deny_countries (find addr)
    → CountryAdmitted o addr
admit o addr find e h f e' =
    subst (λ g. Takes o.allow_countries (g addr) ⊎ ¬ Takes o.deny_countries (g addr))
      (some_inj (sym e ∙ e')) h
