-- ===== src/Executor/Target/Policy.antt =====
-- What the SSRF policy lets through.
use post_lite.Base.{
  Option-cases, any, All, Str, str_eq, str_eq_iff, str_eq_refl, ◌≡◌, refl, ◌≢◌, ◌↔◌, ◌⊎◌, inl, inr,
  true, false, Option, none, some, List, [], ◌∷◌, arith,
}
use post_lite.Executor.Target.{
  Url, Net, TargetError, Checked, passed, refused, is_in_whitelist, is_internal, is_http,
  parse_http_target, is_blocked, check_host, check_target,
}

pub Checked-cases {ℓ} :
    {A : Type ℓ} (c : Checked A)
    → ((a : A) × (c ≡ passed a)) ⊎ ((e : TargetError) × (c ≡ refused e))
Checked-cases (passed a) = inl (a, refl)
Checked-cases (refused e) = inr (e, refl)

module _ (n : Net) where
  open n use {Ip, Cidr, parse_url, parse_ip, lookup_ip}

  -- An address that a direct connection may reach: it is not internal, or the whitelist has it.
  abbrev pub IsAllowed : List Cidr → Ip → Type 0
  IsAllowed wl ip = (is_internal n ip ≡ false) ⊎ (is_in_whitelist n wl ip ≡ true)

  -- The addresses that a host stands for: itself, or what it resolves to
  abbrev addresses_from : Str → Option Ip → Option (List Ip)
  addresses_from host (some ip) = some (ip ∷ [])
  addresses_from host none = lookup_ip host

  unfoldable pub addresses : Str → Option (List Ip)
  addresses host = addresses_from host (parse_ip host)

  -- A URL that is safe to contact: http or https, with a host all of whose addresses are allowed
  pub record IsSafe (wl : List Cidr) (raw : Str) : Type 0 where
    pub url : Url
    pub parsed : parse_url raw ≡ some url
    pub http : is_http n url.scheme ≡ true
    pub host : url.hostname ≢ []
    pub ips : List Ip
    pub found : addresses url.hostname ≡ some ips
    pub some_ip : ips ≢ []
    pub allowed : All (IsAllowed wl) ips

  any-IsAllowed :
      (wl : List Cidr) (ips : List Ip) → any (is_blocked n wl) ips ≡ false → All (IsAllowed wl) ips
  any-IsAllowed wl [] h = tt
  any-IsAllowed wl (ip ∷ ips) h = ground (arith, any-IsAllowed wl ips)

  IsAllowed-any :
      (wl : List Cidr) (ips : List Ip) → All (IsAllowed wl) ips → any (is_blocked n wl) ips ≡ false
  IsAllowed-any wl [] h = refl
  IsAllowed-any wl (ip ∷ ips) h = ground (arith, IsAllowed-any wl ips)

  module _ (wl : List Cidr) (raw : Str) where
    parse_http_target-eq-passed :
        (u : Url)
        → parse_http_target n raw ≡ passed u
        → (parse_url raw ≡ some u) × (is_http n u.scheme ≡ true) × (u.hostname ≢ [])
    unfolding parse_http_target
    parse_http_target-eq-passed u e = ground (arith, str_eq_refl [])

    check_host_sound :
        (host : Str)
        → check_host n wl host (parse_ip host) ≡ passed tt
        → (ips : List Ip) × (addresses host ≡ some ips) × (ips ≢ []) × All (IsAllowed wl) ips
    unfolding addresses
    check_host_sound host e = elim (Option-cases (parse_ip host)) [
      | inr (ip, literal) ↦
          (ip ∷ [], rw literal refl, λ p. cc, (any-IsAllowed wl (ip ∷ []) (ground arith)))
      | inl name ↦ elim (Option-cases (lookup_ip host)) [
        | inl failed ↦ absurd (cc (rw (name, failed) at e))
        | inr ([], found) ↦ absurd (cc (rw (name, found) at e))
        | inr (a ∷ rest, found) ↦
            (a ∷ rest, rw (name, found) refl, λ p. cc, any-IsAllowed wl (a ∷ rest) (ground arith))
      ]
    ]

    check_host_complete :
        (host : Str) (ips : List Ip)
        → addresses host ≡ some ips
        → ips ≢ []
        → All (IsAllowed wl) ips
        → check_host n wl host (parse_ip host) ≡ passed tt
    unfolding addresses
    check_host_complete host [] found full h = absurd (full refl)
    check_host_complete host (ip ∷ ips) found full h = ground (arith, IsAllowed-any wl (ip ∷ ips) h)

    check_target_sound : check_target n wl raw ≡ passed tt → IsSafe wl raw
    unfolding check_target
    check_target_sound e = elim (Checked-cases (parse_http_target n raw)) [
      | inr (why, bad) ↦ absurd (cc (rw bad at e))
      | inl (u, good) ↦
          let (parsed, http, host) = parse_http_target-eq-passed u good in
          let (ips, found, full, allowed) = check_host_sound u.hostname (rw good at e) in
          record {
            url = u;
            parsed = parsed;
            http = http;
            host = host;
            ips = ips;
            found = found;
            some_ip = full;
            allowed = allowed;
          }
    ]

    check_target_complete : IsSafe wl raw → check_target n wl raw ≡ passed tt
    unfolding check_target parse_http_target
    check_target_complete s =
        let good : str_eq s.url.hostname [] ≡ false =
          ground (arith, str_eq_iff s.url.hostname []) in
        rw (s.parsed, s.http, good)
          (check_host_complete s.url.hostname s.ips s.found s.some_ip s.allowed)

-- A direct connection is let through exactly if the URL is an http or https URL with a host, the
-- host is an address or resolves to at least one, and every address it stands for is public or in
-- the whitelist.
pub check_target_iff :
    (n : Net) (wl : List (n.Cidr)) (raw : Str)
    → (check_target n wl raw ≡ passed tt) ↔ IsSafe n wl raw
check_target_iff n wl raw = (check_target_sound n wl raw, check_target_complete n wl raw)
