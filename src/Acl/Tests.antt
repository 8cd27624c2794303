-- ===== src/Acl/Tests.antt =====
-- ext/acl/: runs, and the theorems at concrete inputs.
use mathlib.Core.Path.{subst}
use xun.Base.{
  ◌^◌, ◌-◌, sym, some_inj, ℕ, true, false, ◌≡◌, refl, inl, inr, Option, none, some, [], ◌∷◌, Bytes,
  codes, lookup, take, if◌then◌else◌, has_prefix, index_byte, arith,
}
use xun.Http.{new_response}
use xun.App.{Context, HandleFunc}
use xun.Acl.Options.{IpNet, Net, Options, new_options, allow_hosts, deny_ip_nets}
use xun.Acl.Access.{Model, check}
use xun.Sse.Event.{pos, negsuc}
use xun.Acl.Config.{
  atoi_value, section_ah, lines, remove_spaces, is_skipped, section_of, load_sections, section_na,
  section_ac,
}
use xun.Acl.Admission.{Admitted, no_address, no_ip, allowed_ip, other_ip}
use xun.Acl.Turned.{Turned, check-Admitted, check-Turned}
use xun.Acl.OnePass.{entries, within, pass, load_sections-pass}
use xun.Acl.Document.{IsEntry, print, apply, load_sections-print}
use xun.Acl.Watch.{File, get_last_mod, watch, ticks}
use xun.Acl.Reload.{loaded, ticks-newer}

-- Addresses of one network, told by the text in front of `/`.
abbrev before : ℕ → Bytes → Option Bytes
before c s = elim (index_byte s c) [ none ↦ none | some i ↦ some (take i s) ]

abbrev net_before : Option Bytes → Option IpNet
net_before none = none
net_before (some a) = some (record { ip = a; mask = [] })

abbrev sample_net : Net
sample_net = record {
  parse_cidr = λ s. net_before (before b'/' s);
  parse_ip = λ s. if has_prefix s (codes "x") then none else some s;
  cidr_mask = λ n m. [];
  mask_ip = λ ip mask. ip;
  contains_ip = λ n ip. has_prefix ip n.ip;
  split_host_port = λ s. before b':' s;
  parse_url = λ s. some s;
}

abbrev show_model : Model → Bytes
show_model m = m.host

abbrev context_from : Bytes → Context
context_from addr = record {
  request = record {
    method = codes "GET";
    path = codes "/";
    request_uri = codes "/";
    host = codes "A.com";
    remote_addr = addr;
    tls = false;
    header = [];
    cookies = [];
  };
  response = new_response;
  viewers = [];
  app_viewers = [];
  temp_data = [];
}

abbrev done : HandleFunc
done c = (c, none)

abbrev one_host : Options
unfolding allow_hosts deny_ip_nets new_options
one_host =
    deny_ip_nets sample_net (codes "10./8" ∷ []) (allow_hosts (codes "a.com" ∷ []) new_options)

acl_tests :
    ((check sample_net show_model none one_host done
        (context_from (codes "10.1:80"))).0.response.sent
      ≡ 403 ∷ [])
    × (check sample_net show_model none one_host done (context_from (codes "11.1:80"))
        ≡ done (context_from (codes "11.1:80")))
unfolding check allow_hosts deny_ip_nets new_options has_prefix new_response
acl_tests = (refl, refl)

-- What strconv.Atoi gives beside an error.
status_tests :
    (atoi_value (codes "308") ≡ pos 308)
    × (atoi_value (codes "308x") ≡ pos 0)
    × (atoi_value (codes "") ≡ pos 0)
    × (atoi_value (codes "99999999999999999999x") ≡ pos (2 ^ 63 - 1))
    × (atoi_value (codes "-9999999999999999999") ≡ negsuc (2 ^ 63 - 1))
    × (atoi_value (codes "9999999999999999999x") ≡ pos 0)
unfolding atoi_value
status_tests = (refl, refl, refl, refl, refl, refl)

check-Admitted_example :
    check sample_net show_model none one_host done (context_from (codes "x:80"))
    ≡ done (context_from (codes "x:80"))
unfolding allow_hosts deny_ip_nets new_options index_byte lookup has_prefix
check-Admitted_example =
    check-Admitted sample_net show_model none one_host done (context_from (codes "x:80"))
      (no_ip {addr = codes "x"} refl (inr (inl refl)) refl)

not-Admitted : ¬ Admitted sample_net one_host (context_from (codes "10.1:80")).request
unfolding allow_hosts deny_ip_nets new_options has_prefix index_byte lookup
not-Admitted (no_address e) = cc
not-Admitted (no_ip {addr} e h i) =
    cc (subst (λ a. sample_net.parse_ip a ≡ none) (sym (some_inj e)) i)
not-Admitted (allowed_ip e h i a) = a
not-Admitted (other_ip {addr} {ip} e h i d f) =
    let same : some (codes "10.1") ≡ some ip =
      subst (λ a. sample_net.parse_ip a ≡ some ip) (sym (some_inj e)) i in
    d (inl (subst (λ a. has_prefix a (codes "10.") ≡ true) (some_inj same) refl))

check-Turned_example :
    Turned sample_net show_model none
      (check sample_net show_model none one_host done (context_from (codes "10.1:80")))
      one_host
      (context_from (codes "10.1:80"))
check-Turned_example =
    check-Turned sample_net show_model none one_host done (context_from (codes "10.1:80"))
      not-Admitted

abbrev text : Bytes
text = codes "# sites\n[allow_hosts]\na. com\n\n[host_redirect]\nurl=/x\n[deny_ipnets]\n10./8"

load_sections-pass_example :
    load_sections sample_net 9 section_na (lines text) new_options
    ≡ some (pass sample_net (within section_na) (entries (lines text)) new_options)
unfolding lines
load_sections-pass_example =
    load_sections-pass sample_net 9 section_na (lines text) new_options (omega arith)

IsEntry-a : IsEntry (codes "A.com")
unfolding remove_spaces is_skipped section_of
IsEntry-a = (refl, refl, refl, refl)

IsEntry-b : IsEntry (codes "b")
unfolding remove_spaces is_skipped section_of
IsEntry-b = (refl, refl, refl, refl)

IsEntry-star : IsEntry (codes "*")
unfolding remove_spaces is_skipped section_of
IsEntry-star = (refl, refl, refl, refl)

load_sections-print_example :
    load_sections sample_net 6 section_na
      (print ((section_ah, codes "A.com" ∷ codes "b" ∷ []) ∷ (section_ac, codes "*" ∷ []) ∷ []))
      new_options
    ≡ some (
        apply sample_net
          ((section_ah, codes "A.com" ∷ codes "b" ∷ []) ∷ (section_ac, codes "*" ∷ []) ∷ [])
          new_options)
load_sections-print_example =
    load_sections-print sample_net
      ((section_ah, codes "A.com" ∷ codes "b" ∷ []) ∷ (section_ac, codes "*" ∷ []) ∷ []) new_options
      ((λ h. cc, (IsEntry-a, (IsEntry-b, tt))), ((λ h. cc, (IsEntry-star, tt)), tt))

abbrev file_at : ℕ → Option Bytes → File
file_at t s = record { mod_time = some t; text = s }

ticks-newer_example :
    let now =
      (ticks sample_net
        (codes "acl.ini")
        (watch one_host (file_at 3 none))
        (file_at 4 none ∷ file_at 5 (some text) ∷ [])).current in
    (now ≡ loaded sample_net (codes "acl.ini") text one_host)
    × (now.viewer_name ≡ one_host.viewer_name)
    × (now.lookup_func ≡ one_host.lookup_func)
unfolding get_last_mod
ticks-newer_example =
    ticks-newer sample_net (codes "acl.ini") text one_host (file_at 3 none) (file_at 4 none ∷ [])
      (file_at 5 (some text)) refl (omega arith) (omega arith, tt)
