-- ===== src/Executor/Target.antt =====
-- The SSRF policy of internal/executor/http.go. The parser of URLs, the addresses and the resolver of
-- package net are the record `Net`; a name resolves to the same addresses throughout a check.
pub mod Policy
use post_lite.Base.{
  if◌then◌else◌, any, Str, codes, str_eq, trim_space, split, Bool, false, not, ◌&&◌, ◌||◌, Option,
  none, some, List, [], ◌∷◌,
}

pub record Url : Type 0 where
  pub scheme : Str
  pub host : Str
  pub hostname : Str

pub record Net : Type 1 where
  pub Ip : Type 0
  pub Cidr : Type 0
  -- url.Parse, and URL.String with another scheme
  pub parse_url : Str → Option Url
  pub show_url : Url → Str → Str
  -- net.ParseIP, net.ParseCIDR, IPNet.Contains
  pub parse_ip : Str → Option Ip
  pub parse_cidr : Str → Option Cidr
  pub in_cidr : Cidr → Ip → Bool
  -- the methods of net.IP
  pub is_private : Ip → Bool
  pub is_loopback : Ip → Bool
  pub is_link_local_unicast : Ip → Bool
  pub is_link_local_multicast : Ip → Bool
  pub is_multicast : Ip → Bool
  pub is_unspecified : Ip → Bool
  -- Resolver.LookupIPAddr; none is an error
  pub lookup_ip : Str → Option (List Ip)

-- Every error here wraps ErrSSRF but the last, which is that of ParseWhitelist.
pub data TargetError : Type 0 where
  bad_url : TargetError
  scheme_not_allowed : Str → TargetError
  missing_host : TargetError
  outside_whitelist : TargetError
  dns_failed : TargetError
  no_addresses : TargetError

pub data Checked {ℓ} (A : Type ℓ) : Type ℓ where
  passed : A → Checked A
  refused : TargetError → Checked A

module _ (n : Net) where
  open n use {
    Ip, Cidr, parse_url, show_url, parse_ip, parse_cidr, in_cidr, is_private, is_loopback,
    is_link_local_unicast, is_link_local_multicast, is_multicast, is_unspecified, lookup_ip,
  }

  unfoldable pub is_in_whitelist : List Cidr → Ip → Bool
  is_in_whitelist [] ip = false
  is_in_whitelist (c ∷ wl) ip = in_cidr c ip || is_in_whitelist wl ip

  unfoldable pub is_internal : Ip → Bool
  is_internal ip =
      is_private ip
      || is_loopback ip
      || is_link_local_unicast ip
      || is_link_local_multicast ip
      || is_multicast ip
      || is_unspecified ip

  -- The loop of ParseWhitelist; none is an error
  unfoldable pub parse_parts : List Str → Option (List Cidr)
  parse_parts [] = some []
  parse_parts (part ∷ parts) =
      let rest = parse_parts parts in
      if str_eq (trim_space part) [] then rest else elim (parse_cidr (trim_space part)) [
        | none ↦ none
        | some c ↦ elim rest [ none ↦ none | some cs ↦ some (c ∷ cs) ]
      ]

  unfoldable pub parse_whitelist : Str → Option (List Cidr)
  unfolding parse_parts
  parse_whitelist s = parse_parts (split b',' s)

  abbrev pub is_http : Str → Bool
  is_http scheme = str_eq scheme (codes "http") || str_eq scheme (codes "https")

  abbrev pub checked_host : Url → Checked Url
  checked_host u = if str_eq u.hostname [] then refused missing_host else passed u

  abbrev pub http_target : Option Url → Checked Url
  http_target none = refused bad_url
  http_target (some u) =
      if is_http u.scheme then checked_host u else refused (scheme_not_allowed u.scheme)

  unfoldable pub parse_http_target : Str → Checked Url
  parse_http_target raw = http_target (parse_url raw)

  -- The switch on u.Scheme
  abbrev pub realtime_scheme : Str → Option Str
  realtime_scheme scheme =
      if str_eq scheme (codes "ws")
      then some (codes "http")
      else if str_eq scheme (codes "wss")
      then some (codes "https")
      else if is_http scheme
      then some scheme
      else none

  abbrev pub mapped_target : Url → Option Str → Checked Url
  mapped_target u none = refused (scheme_not_allowed u.scheme)
  mapped_target u (some scheme) = checked_host (record u { scheme = scheme })

  abbrev pub realtime_target : Option Url → Checked Url
  realtime_target none = refused bad_url
  realtime_target (some u) = mapped_target u (realtime_scheme u.scheme)

  unfoldable pub parse_realtime_target : Str → Checked Url
  parse_realtime_target raw = realtime_target (parse_url raw)

  abbrev pub normalized : Str → Option Url → Str
  normalized raw none = raw
  normalized raw (some u) =
      if str_eq u.scheme (codes "ws")
      then show_url u (codes "http")
      else if str_eq u.scheme (codes "wss")
      then show_url u (codes "https")
      else raw

  unfoldable pub normalize_realtime_url : Str → Str
  normalize_realtime_url raw = normalized raw (parse_url raw)

  abbrev pub is_blocked : List Cidr → Ip → Bool
  is_blocked wl ip = is_internal ip && not (is_in_whitelist wl ip)

  abbrev pub check_resolved : List Cidr → Option (List Ip) → Checked (Unit {0})
  check_resolved wl none = refused dns_failed
  check_resolved wl (some []) = refused no_addresses
  check_resolved wl (some (a ∷ rest)) =
      if any (is_blocked wl) (a ∷ rest) then refused outside_whitelist else passed tt

  abbrev pub check_host : List Cidr → Str → Option Ip → Checked (Unit {0})
  check_host wl host (some ip) = if is_blocked wl ip then refused outside_whitelist else passed tt
  check_host wl host none = check_resolved wl (lookup_ip host)

  abbrev pub check_url : List Cidr → Checked Url → Checked (Unit {0})
  check_url wl (refused e) = refused e
  check_url wl (passed u) = check_host wl u.hostname (parse_ip u.hostname)

  unfoldable pub check_target : List Cidr → Str → Checked (Unit {0})
  unfolding parse_http_target is_internal is_in_whitelist
  check_target wl raw = check_url wl (parse_http_target raw)

  abbrev pub forget : Checked Url → Checked (Unit {0})
  forget (refused e) = refused e
  forget (passed u) = passed tt

  -- With a proxy the target only has to be a well-formed http or https URL.
  unfoldable pub check_target_for : List Cidr → Str → Str → Checked (Unit {0})
  unfolding check_target
  check_target_for wl proxy raw =
      if str_eq proxy [] then check_target wl raw else forget (parse_http_target raw)

  unfoldable pub check_realtime_target : List Cidr → Str → Checked (Unit {0})
  unfolding check_target
  check_realtime_target wl raw = check_target wl (normalize_realtime_url raw)
