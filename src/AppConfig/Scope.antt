-- ===== src/AppConfig/Scope.antt =====
-- internal/config/config.go, `canonicalGitHubScope`, with `Hostname` and `Port` of a URL.
pub mod Canonical
use Prim.Native.Char.{Char, code}
use Prim.Native.String.{[], ◌∷◌, ◌++◌}
use mathlib.Core.List.{◌∷◌ as cons}
use oxide_gha_runner_scale_s.Prelude.{
  ℕ, String, Bool, true, false, not, ◌&&◌, ◌||◌, Option, none, some, str_eq, ltb, leb, ◌==◌, length,
  if◌then◌else◌,
}
use oxide_gha_runner_scale_s.GoStrings.{
  is_slash, is_colon, trim, trim_space, to_lower, split, contains,
}
use oxide_gha_runner_scale_s.AppConfig.{Url, Outside}

pub data ScopeError : Type 0 where
  unparsable not_https has_extras no_host no_scope too_many_parts : ScopeError

pub data Scope : Type 0 where
  canonical : String → Scope
  rejected : ScopeError → Scope

-- The parts of a text around its last colon.
unfoldable pub around_last_colon : String → Option (String × String)
around_last_colon [] = none
around_last_colon (c ∷ s) = elim (around_last_colon s) [
  | some (before, after) ↦ some (c ∷ before, after)
  | none ↦ if is_colon c then some ([], s) else none
]

abbrev is_digit : Char → Bool
is_digit c = leb 48 (code c) && leb (code c) 57

unfoldable pub all_digits : String → Bool
all_digits [] = true
all_digits (c ∷ s) = is_digit c && all_digits s

-- `]` at the end.
unfoldable pub without_end : String → Option String
without_end [] = none
without_end (c ∷ []) = if code c == 93 then some [] else none
without_end (c ∷ d ∷ s) = elim (without_end (d ∷ s)) [ none ↦ none | some t ↦ some (c ∷ t) ]

-- The host without brackets.
unfoldable pub unbracketed : String → String
unfolding without_end
unbracketed [] = []
unbracketed (c ∷ s) =
    if code c == 91 then elim (without_end s) [ none ↦ c ∷ s | some t ↦ t ] else c ∷ s

-- `Hostname()` and `Port()`: what follows the last colon is a port if it has only digits.
unfoldable pub split_host_port : String → String × String
unfolding around_last_colon all_digits unbracketed
split_host_port host = elim (around_last_colon host) [
  | none ↦ (unbracketed host, [])
  | some (before, after) ↦
      if all_digits after then (unbracketed before, after) else (unbracketed host, [])
]

-- `net.JoinHostPort`.
unfoldable pub join_host_port : String → String → String
unfolding contains
join_host_port host port =
    if contains is_colon host then "[" ++ host ++ "]:" ++ port else host ++ ":" ++ port

-- The host of the canonical URL.
unfoldable pub canonical_host : String → String → String
unfolding join_host_port contains
canonical_host hostname port =
    if not (str_eq port "") && not (str_eq port "443")
    then join_host_port hostname port
    else (if contains is_colon hostname then "[" ++ hostname ++ "]" else hostname)

-- The path of the canonical URL.
unfoldable pub canonical_path : Outside → String → String
unfolding trim to_lower
canonical_path o path = to_lower o.lower_beyond (trim is_slash path)

unfoldable pub canonical_hostname : Outside → String → String
unfolding to_lower split_host_port
canonical_hostname o host =
    let hostname = to_lower o.lower_beyond (split_host_port host).0 in
    if str_eq hostname "www.github.com" then "github.com" else hostname

-- `url.Parse` gives a scheme in lower case ASCII, on which `EqualFold` with "https" is this test.
unfoldable pub scope_of : Outside → Url → Scope
scope_of o u =
    let path = canonical_path o u.path in
    if not (str_eq (to_lower o.lower_beyond u.scheme) "https") || str_eq u.host ""
    then rejected not_https
    else (if u.has_user || not (str_eq u.raw_query "") || not (str_eq u.fragment "")
        then rejected has_extras
        else (if str_eq (to_lower o.lower_beyond (split_host_port u.host).0) ""
            then rejected no_host
            else (if str_eq path ""
                then rejected no_scope
                else (if ltb 2 (length (split is_slash path))
                    then rejected too_many_parts
                    else canonical (
                        "https://"
                        ++ canonical_host (canonical_hostname o u.host) (split_host_port u.host).1
                        ++ "/"
                        ++ path)))))

unfoldable pub canonical_github_scope : Outside → String → Scope
unfolding trim_space scope_of
canonical_github_scope o config_url = elim (o.url_parse (trim_space config_url)) [
  | none ↦ rejected unparsable
  | some u ↦ scope_of o u
]
