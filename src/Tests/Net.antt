-- ===== src/Tests/Net.antt =====
-- The SSRF policy of internal/executor/http.go over a small network.
use post_lite.Base.{
  ◌==◌, if◌then◌else◌, Str, codes, str_eq, cut_prefix, ℕ, ◌≡◌, refl, ◌↔◌, false, Option, none, some,
  [], ◌∷◌, ◌++◌,
}
use post_lite.Executor.Target.{
  Url, Net, scheme_not_allowed, missing_host, outside_whitelist, dns_failed, passed, refused,
  parse_whitelist, parse_realtime_target, normalize_realtime_url, check_target, check_target_for,
  check_realtime_target,
}
use post_lite.Executor.Target.Policy.{addresses, IsSafe, check_target_iff}

abbrev url_of : Str → Option Str → Option Url
url_of scheme none = none
url_of scheme (some host) = some (record { scheme = scheme; host = host; hostname = host })

-- The addresses 10 (private), 127 (loopback) and 93 (public); the parser knows "http://host",
-- "file://host" and "ws://host".
abbrev pub lab : Net
lab = record {
  Ip = ℕ;
  Cidr = ℕ;
  parse_url = λ s. elim (cut_prefix s (codes "http://")) [
    | some host ↦ url_of (codes "http") (some host)
    | none ↦ elim (cut_prefix s (codes "ws://")) [
      | some host ↦ url_of (codes "ws") (some host)
      | none ↦ url_of (codes "file") (cut_prefix s (codes "file://"))
    ]
  ];
  show_url = λ u scheme. scheme ++ codes "://" ++ u.host;
  parse_ip = λ s.
      if str_eq s (codes "10.0.0.1")
      then some 10
      else if str_eq s (codes "127.0.0.1")
      then some 127
      else none;
  parse_cidr = λ s. if str_eq s (codes "10.0.0.0/8") then some 10 else none;
  in_cidr = λ c ip. c == ip;
  is_private = λ ip. ip == 10;
  is_loopback = λ ip. ip == 127;
  is_link_local_unicast = λ ip. false;
  is_link_local_multicast = λ ip. false;
  is_multicast = λ ip. false;
  is_unspecified = λ ip. ip == 0;
  lookup_ip = λ s.
      if str_eq s (codes "good.test")
      then some (93 ∷ [])
      else if str_eq s (codes "mixed.test")
      then some (93 ∷ 10 ∷ [])
      else none;
}

unfoldable pub policy : Unit {0}
unfolding check_target check_target_for check_realtime_target parse_realtime_target
    normalize_realtime_url parse_whitelist addresses
policy = tt

check_target_tests :
    (check_target lab [] (codes "http://good.test") ≡ passed tt)
    × (check_target lab [] (codes "http://mixed.test") ≡ refused outside_whitelist)
    × (check_target lab (10 ∷ []) (codes "http://mixed.test") ≡ passed tt)
    × (check_target lab [] (codes "http://10.0.0.1") ≡ refused outside_whitelist)
    × (check_target lab [] (codes "http://gone.test") ≡ refused dns_failed)
    × (check_target lab [] (codes "file://good.test") ≡ refused (scheme_not_allowed (codes "file")))
    × (check_target lab [] (codes "http://") ≡ refused missing_host)
    × (check_realtime_target lab [] (codes "ws://good.test") ≡ passed tt)
    × (check_target_for lab [] (codes "http://p") (codes "http://10.0.0.1") ≡ passed tt)
    × (parse_whitelist lab (codes " 10.0.0.0/8, ") ≡ some (10 ∷ []))
    × (parse_whitelist lab (codes "10.0.0.0/8,x") ≡ none)
unfolding policy
check_target_tests = (refl, refl, refl, refl, refl, refl, refl, refl, refl, refl, refl)

check_target_iff_example :
    (check_target lab (10 ∷ []) (codes "http://mixed.test") ≡ passed tt)
    ↔ IsSafe lab (10 ∷ []) (codes "http://mixed.test")
check_target_iff_example = check_target_iff lab (10 ∷ []) (codes "http://mixed.test")
