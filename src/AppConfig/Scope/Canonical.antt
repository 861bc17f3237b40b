-- ===== src/AppConfig/Scope/Canonical.antt =====
-- Which configuration URLs are scopes, and what their canonical form is.
use Prim.Native.String.{◌++◌}
use oxide_gha_runner_scale_s.Prelude.{
  true, ◌⊎◌, str_eq, Bool-cases, String, false, some, ◌≡◌, ◌≢◌, ◌≤◌, ◌↔◌, refl, subst, arith,
  str_eq_iff, inl, inr, length, Option-cases,
}
use oxide_gha_runner_scale_s.GoStrings.{
  is_slash, is_colon, contains, trim, trim_space, to_lower, split,
}
use oxide_gha_runner_scale_s.AppConfig.{Url, Outside}
use oxide_gha_runner_scale_s.AppConfig.Scope.{
  canonical, canonical_path, canonical_host, canonical_hostname, split_host_port, scope_of,
  canonical_github_scope, join_host_port,
}

-- A port that a URL need not name.
abbrev pub IsDefaultPort : String → Type 0
IsDefaultPort port = (port ≡ "") ⊎ (port ≡ "443")

-- How a host with a name and a port is written: an IPv6 name in brackets, and the port behind a colon
-- unless it is missing or the port of HTTPS.
pub data IsHostText (name port : String) : String → Type 0 where
  name_alone : IsDefaultPort port → contains is_colon name ≡ false → IsHostText name port name
  in_brackets :
      IsDefaultPort port → contains is_colon name ≡ true → IsHostText name port ("[" ++ name ++ "]")
  with_port :
      (port ≢ "") × (port ≢ "443")
      → contains is_colon name ≡ false
      → IsHostText name port (name ++ ":" ++ port)
  in_brackets_with_port :
      (port ≢ "") × (port ≢ "443")
      → contains is_colon name ≡ true
      → IsHostText name port ("[" ++ name ++ "]:" ++ port)

canonical_host-IsHostText : (name port : String) → IsHostText name port (canonical_host name port)
unfolding canonical_host join_host_port
canonical_host-IsHostText name port =
    let missing = str_eq_iff port "" in
    let of_https = str_eq_iff port "443" in
    elim (Bool-cases (str_eq port "")) [
      | inl h ↦ elim (Bool-cases (contains is_colon name)) [
        | inl c ↦ rw (canonical_host, h, c) (IsHostText.in_brackets (inl (missing.0 h)) c)
        | inr c ↦ rw (canonical_host, h, c) (IsHostText.name_alone (inl (missing.0 h)) c)
      ]
      | inr h ↦ elim (Bool-cases (str_eq port "443")) [
        | inl k ↦ elim (Bool-cases (contains is_colon name)) [
          | inl c ↦ rw (canonical_host, h, k, c) (IsHostText.in_brackets (inr (of_https.0 k)) c)
          | inr c ↦ rw (canonical_host, h, k, c) (IsHostText.name_alone (inr (of_https.0 k)) c)
        ]
        | inr k ↦
            let other : (port ≢ "") × (port ≢ "443") =
              ((λ e. cc (h, missing.1 e)), (λ e. cc (k, of_https.1 e))) in
            elim (Bool-cases (contains is_colon name)) [
              | inl c ↦ rw (canonical_host, h, k, c) (IsHostText.in_brackets_with_port other c)
              | inr c ↦ rw (canonical_host, h, k, c) (IsHostText.with_port other c)
            ]
      ]
    ]

IsHostText-unique :
    (name port text : String) → IsHostText name port text → text ≡ canonical_host name port
unfolding canonical_host join_host_port
IsHostText-unique name port _ (IsHostText.name_alone d c) =
    ground (arith, str_eq_iff port "", str_eq_iff port "443")
IsHostText-unique name port _ (IsHostText.in_brackets d c) =
    ground (arith, str_eq_iff port "", str_eq_iff port "443")
IsHostText-unique name port _ (IsHostText.with_port d c) =
    ground (arith, str_eq_iff port "", str_eq_iff port "443")
IsHostText-unique name port _ (IsHostText.in_brackets_with_port d c) =
    ground (arith, str_eq_iff port "", str_eq_iff port "443")

-- The host name of github.com with and without `www.` is one.
abbrev pub IsName : String → String → Type 0
IsName hostname name =
    ((hostname ≡ "www.github.com") × (name ≡ "github.com"))
    ⊎ ((hostname ≢ "www.github.com") × (name ≡ hostname))

module _ (o : Outside) where
  -- The path in lower case, without its outer slashes.
  abbrev pub scope_path : String → String
  scope_path path = to_lower o.lower_beyond (trim is_slash path)

  -- An HTTPS URL of an enterprise, an organization or a repository, and nothing else.
  pub record IsScope (u : Url) : Type 0 where
    pub secure : to_lower o.lower_beyond u.scheme ≡ "https"
    pub hosted : u.host ≢ ""
    pub has_no_user : u.has_user ≡ false
    pub has_no_query : u.raw_query ≡ ""
    pub has_no_fragment : u.fragment ≡ ""
    pub named : to_lower o.lower_beyond (split_host_port u.host).0 ≢ ""
    pub has_path : scope_path u.path ≢ ""
    pub has_few_parts : length (split is_slash (scope_path u.path)) ≤ 2

  -- `https://`, the host, and the path.
  abbrev pub IsCanonical : Url → String → Type 0
  IsCanonical u text =
      (name : String) × (host : String) × IsName
        (to_lower o.lower_beyond (split_host_port u.host).0) name
      × IsHostText name (split_host_port u.host).1 host
      × (text ≡ "https://" ++ host ++ "/" ++ scope_path u.path)

  abbrev canonical_text : Url → String
  canonical_text u =
      "https://"
      ++ canonical_host (canonical_hostname o u.host) (split_host_port u.host).1
      ++ "/"
      ++ canonical_path o u.path

  canonical_hostname-IsName :
      (host : String)
      → IsName (to_lower o.lower_beyond (split_host_port host).0) (canonical_hostname o host)
  unfolding canonical_hostname
  canonical_hostname-IsName host =
      let lower = to_lower o.lower_beyond (split_host_port host).0 in
      let same = str_eq_iff lower "www.github.com" in
      elim (Bool-cases (str_eq lower "www.github.com")) [
        | inl h ↦ rw (canonical_hostname, h) (inl (same.0 h, refl))
        | inr h ↦ rw (canonical_hostname, h) (inr ((λ e. cc (h, same.1 e)), refl))
      ]

  IsName-unique :
      (host name : String)
      → IsName (to_lower o.lower_beyond (split_host_port host).0) name
      → name ≡ canonical_hostname o host
  unfolding canonical_hostname
  IsName-unique host name (inl (h, e)) =
      ground (arith, str_eq_iff (to_lower o.lower_beyond (split_host_port host).0) "www.github.com")
  IsName-unique host name (inr (h, e)) =
      ground (arith, str_eq_iff (to_lower o.lower_beyond (split_host_port host).0) "www.github.com")

  IsCanonical-iff : (u : Url) (text : String) → IsCanonical u text ↔ (text ≡ canonical_text u)
  unfolding canonical_path
  IsCanonical-iff u text = (
    λ (name, host, named, shown, same).
        (let h = IsHostText-unique name _ host shown in
          let n = IsName-unique u.host name named in cc),
    λ same. (
      canonical_hostname o u.host,
      canonical_host (canonical_hostname o u.host) (split_host_port u.host).1,
      canonical_hostname-IsName u.host,
      canonical_host-IsHostText _ _,
      same,
    ),
  )

  scope_of_iff :
      (u : Url) (text : String) → (scope_of o u ≡ canonical text) ↔ (IsScope u × IsCanonical u text)
  unfolding scope_of canonical_path
  scope_of_iff u text =
      let scheme = str_eq_iff (to_lower o.lower_beyond u.scheme) "https" in
      let host = str_eq_iff u.host "" in
      let query = str_eq_iff u.raw_query "" in
      let fragment = str_eq_iff u.fragment "" in
      let name = str_eq_iff (to_lower o.lower_beyond (split_host_port u.host).0) "" in
      let path = str_eq_iff (canonical_path o u.path) "" in
      let canonical_form = IsCanonical-iff u text in
      (
        λ h. (
          ground (arith, scheme, host, query, fragment, name, path),
          canonical_form.1 (ground (arith, scheme, host, query, fragment, name, path)),
        ),
        λ (v, same).
            (let e = canonical_form.0 same in
              ground (arith, scheme, host, query, fragment, name, path)),
      )

  -- A configuration URL is accepted exactly if its trimmed text parses as an HTTPS URL with a host
  -- name, with no user, query or fragment, and with a path of one or two parts. Its canonical form is
  -- `https://`, the host name in lower case with github.com for www.github.com and with brackets around
  -- an IPv6 name, a colon and the port unless it is 443 or missing, and the path in lower case without
  -- its outer slashes.
  pub canonical_github_scope_iff :
      (config_url text : String)
      → (canonical_github_scope o config_url ≡ canonical text) ↔ (
          (u : Url) × (o.url_parse (trim_space config_url) ≡ some u)
          × IsScope u
          × IsCanonical u text)
  unfolding canonical_github_scope
  canonical_github_scope_iff config_url text =
      elim (Option-cases (o.url_parse (trim_space config_url))) [
        | inl k ↦ (λ h. absurd (ground arith), λ (u, there, v, same). absurd (ground arith))
        | inr (u, k) ↦
            let scope = scope_of_iff u text in
            (
              λ h. (let facts = scope.0 (ground arith) in (u, k, facts.0, facts.1)),
              λ (v, there, is_scope, same).
                  (let url : v ≡ u = cc in
                    let known = subst (λ z. IsScope z × IsCanonical z text) url (is_scope, same) in
                    rw (canonical_github_scope, k) (scope.1 known)),
            )
      ]
