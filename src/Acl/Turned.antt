-- ===== src/Acl/Turned.antt =====
-- ext/acl/acl.go: an admitted request reaches the handler, and any other one is turned away.
use xun.Base.{
  ◌≡◌, refl, ◌∙◌, ◌⊎◌, inl, inr, false, not, ◌&&◌, Option, some, [], Bytes, equal, to_lower, arith,
  Bool-cases, Option-cases,
}
use xun.Context.{Interceptor}
use xun.App.{Context, Error, HandleFunc}
use xun.Acl.Options.{Net, Options, has}
use xun.Acl.Access.{
  Model, contains, is_positive, redirect_host, reject, check_country, check_ip, allows_host, check,
}
use xun.Acl.Admission.{
  has_iff, Within, contains_iff, HostAllowed, allows_host_iff, CountryAdmitted, admit, Admitted,
  no_address, no_ip, allowed_ip, other_ip,
}

module _ (net : Net) (show : Model → Bytes) (interceptor : Option Interceptor) where
  -- The answer is a redirect of the host, or a rejection: no handler has part in it.
  abbrev pub Turned : Context × Option Error → Options → Context → Type 0
  Turned answer o c =
      (answer ≡ redirect_host net show interceptor o c)
      ⊎ ((m : Model) × (answer ≡ reject net show interceptor o m c))

  country-next :
      (o : Options) (m : Model) (next : HandleFunc) (c : Context)
      → CountryAdmitted o m.ip
      → check_country net show interceptor o m next c ≡ next c
  unfolding check_country
  country-next o m next c h = elim (Option-cases o.lookup_func) [
    | inl e ↦ rw (e, check_country)
    | inr (find, e) ↦ elim (h find e) [
      | inl t ↦ rw (e, (has_iff o.allow_countries (find m.ip)).1 t)
      | inr t ↦
          ground (
            arith,
            e,
            t,
            has_iff o.allow_countries (find m.ip),
            has_iff o.deny_countries (find m.ip),
          )
    ]
  ]

  country-Turned :
      (o : Options) (m : Model) (next : HandleFunc) (c : Context)
      → ¬ CountryAdmitted o m.ip
      → Turned (check_country net show interceptor o m next c) o c
  unfolding check_country
  country-Turned o m next c h = elim (Option-cases o.lookup_func) [
    | inl e ↦ absurd (h (λ f e'. cc))
    | inr (find, e) ↦ elim (Bool-cases (has o.allow_countries (find m.ip))) [
      | inl a ↦ absurd (h (admit o m.ip find e (inl ((has_iff o.allow_countries (find m.ip)).0 a))))
      | inr a ↦ elim (Bool-cases (has o.deny_countries (find m.ip))) [
        | inl d ↦ inr (record m { country = find m.ip }, rw (e, a, d) refl)
        | inr d ↦ absurd (
            h (admit o m.ip find e (inr (λ t. cc (d, (has_iff o.deny_countries (find m.ip)).1 t)))))
      ]
    ]
  ]

  check_ip-next :
      (o : Options) (m : Model) (next : HandleFunc) (c : Context) (ip : Bytes)
      → net.parse_ip m.ip ≡ some ip
      → ¬ Within net ip o.deny_ip_nets
      → CountryAdmitted o m.ip
      → check_ip net show interceptor o m next c ≡ next c
  unfolding check_ip
  check_ip-next o m next c ip i d f = elim (Bool-cases (contains net ip o.allow_ip_nets)) [
    | inl a ↦ rw (i, check_ip, a) refl
    | inr a ↦ elim (Bool-cases (contains net ip o.deny_ip_nets)) [
      | inl b ↦ absurd (d ((contains_iff net ip o.deny_ip_nets).0 b))
      | inr b ↦ rw (i, check_ip, a, b) (country-next o m next c f)
    ]
  ]

  -- The steps in front of the address, where the host is allowed.
  check-host :
      (o : Options) (next : HandleFunc) (c : Context) (addr : Bytes)
      → net.split_host_port c.request.remote_addr ≡ some addr
      → HostAllowed o (to_lower c.request.host) c.request.path
      → check net show interceptor o next c
        ≡ check_ip net show interceptor o
            (record { host = to_lower c.request.host; ip = addr; country = [] })
            next
            c
  unfolding check
  check-host o next c addr e h =
      rw (e, check, (allows_host_iff o (to_lower c.request.host) c.request.path).1 h) refl

  -- A request that is admitted is answered by the handler.
  pub check-Admitted :
      (o : Options) (next : HandleFunc) (c : Context)
      → Admitted net o c.request
      → check net show interceptor o next c ≡ next c
  unfolding check check_ip
  check-Admitted o next c (no_address e) = rw (e, check) refl
  check-Admitted o next c (no_ip {addr} e h i) =
      check-host o next c addr e h ∙ rw (i, check_ip) refl
  check-Admitted o next c (allowed_ip {addr} {ip} e h i a) =
      check-host o next c addr e h
      ∙ rw (i, check_ip, (contains_iff net ip o.allow_ip_nets).1 a) refl
  check-Admitted o next c (other_ip {addr} {ip} e h i d f) =
      check-host o next c addr e h
      ∙ check_ip-next o (record { host = to_lower c.request.host; ip = addr; country = [] }) next c
          ip i d f

  host-Turned :
      (o : Options) (next : HandleFunc) (c : Context) (addr : Bytes)
      → net.split_host_port c.request.remote_addr ≡ some addr
      → allows_host o (to_lower c.request.host) c.request.path ≡ false
      → Turned (check net show interceptor o next c) o c
  unfolding check redirect_host
  host-Turned o next c addr e h =
      elim (Bool-cases
        (is_positive o.host_redirect_status_code && not (equal o.host_redirect_url []))) [
          | inl r ↦ inl (rw (e, check, h, r) refl)
          | inr r ↦ inr (
            record { host = to_lower c.request.host; ip = addr; country = [] },
            rw (e, check, h, r) refl,
          )
        ]

  -- Being turned away depends on the answers alone.
  Turned-of :
      {answer answer' : Context × Option Error} (o : Options) (c : Context)
      → answer ≡ answer'
      → Turned answer' o c
      → Turned answer o c
  Turned-of o c e (inl f) = inl (e ∙ f)
  Turned-of o c e (inr (m, f)) = inr (m, e ∙ f)

  ip-Turned :
      (o : Options) (m : Model) (next : HandleFunc) (c : Context) (ip : Bytes)
      → net.parse_ip m.ip ≡ some ip
      → ¬ Within net ip o.allow_ip_nets
      → ¬ (¬ Within net ip o.deny_ip_nets × CountryAdmitted o m.ip)
      → Turned (check_ip net show interceptor o m next c) o c
  unfolding check_ip
  ip-Turned o m next c ip i na h = elim (Bool-cases (contains net ip o.allow_ip_nets)) [
    | inl a ↦ absurd (na ((contains_iff net ip o.allow_ip_nets).0 a))
    | inr a ↦ elim (Bool-cases (contains net ip o.deny_ip_nets)) [
      | inl b ↦ inr (m, rw (i, check_ip, a, b) refl)
      | inr b ↦ Turned-of o c (rw (i, check_ip, a, b) refl) (
          country-Turned o m next c
            (λ f. h (λ d. cc (b, (contains_iff net ip o.deny_ip_nets).1 d), f)))
    ]
  ]

  -- A request that is not admitted never reaches the handler: the answer is the redirect of the host
  -- or a rejection.
  pub check-Turned :
      (o : Options) (next : HandleFunc) (c : Context)
      → ¬ Admitted net o c.request
      → Turned (check net show interceptor o next c) o c
  unfolding check
  check-Turned o next c h = elim (Option-cases (net.split_host_port c.request.remote_addr)) [
    | inl e ↦ absurd (h (no_address e))
    | inr (addr, e) ↦ elim (Bool-cases (allows_host o (to_lower c.request.host) c.request.path)) [
      | inr f ↦ host-Turned o next c addr e f
      | inl f ↦
          let g = (allows_host_iff o (to_lower c.request.host) c.request.path).0 f in
          elim (Option-cases (net.parse_ip addr)) [
            | inl i ↦ absurd (h (no_ip e g i))
            | inr (ip, i) ↦ Turned-of o c (check-host o next c addr e g) (
                ip-Turned o (record { host = to_lower c.request.host; ip = addr; country = [] })
                  next c ip i (λ a. h (allowed_ip e g i a)) (λ p. h (other_ip e g i p.0 p.1)))
          ]
    ]
  ]
