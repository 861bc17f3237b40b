-- ===== src/AppConfig/Fallbacks.antt =====
-- The fallbacks to the environment.
use oxide_gha_runner_scale_s.Prelude.{
  String, none, some, ◌≡◌, ◌≢◌, refl, arith, str_eq_iff, inl, inr, Option-cases,
}
use oxide_gha_runner_scale_s.AppConfig.{
  AppAuth, PatAuth, Auth, Config, Outside, or_fallback, fallback_auth, apply_env_fallbacks,
}

or_fallback_idem : (s t : String) → or_fallback (or_fallback s t) t ≡ or_fallback s t
or_fallback_idem s t = ground (arith, str_eq_iff s "", str_eq_iff t "")

or_fallback-set : (s t : String) → s ≢ "" → or_fallback s t ≡ s
or_fallback-set s t h = ground (arith, str_eq_iff s "")

-- What the file says about the authentication stays: which kinds are set, every field of the GitHub
-- App but an empty private key, and a token that is not empty.
abbrev pub KeepsAuth : Auth → Auth → Type 0
KeepsAuth a a' =
    ((app : AppAuth)
      → a.app ≡ some app
      → (a'.pat ≡ a.pat)
        × ((key : String) × (a'.app ≡ some (record app { private_key = key }))
            × (app.private_key ≢ "" → key ≡ app.private_key)))
    × ((pat : PatAuth)
        → a.app ≡ none
        → a.pat ≡ some pat
        → (a'.app ≡ none)
          × ((token : String) × (a'.pat ≡ some (record { token = token }))
              × (pat.token ≢ "" → token ≡ pat.token)))

fallback_auth-KeepsAuth : (o : Outside) (a : Auth) → KeepsAuth a (fallback_auth o a)
unfolding fallback_auth
fallback_auth-KeepsAuth o a = (
  λ app h.
      rw (fallback_auth, h)
        (
          refl,
          (
            or_fallback app.private_key (o.getenv "GITHUB_APP_PRIVATE_KEY"),
            refl,
            or_fallback-set app.private_key (o.getenv "GITHUB_APP_PRIVATE_KEY"),
          ),
        ),
  λ pat h k. (
    ground arith,
    (
      or_fallback pat.token (o.getenv "GITHUB_TOKEN"),
      ground arith,
      or_fallback-set pat.token (o.getenv "GITHUB_TOKEN"),
    ),
  ),
)

fallback_auth_idem :
    (o : Outside) (a : Auth) → fallback_auth o (fallback_auth o a) ≡ fallback_auth o a
unfolding fallback_auth
fallback_auth_idem o a = elim (Option-cases a.app) [
  | inr (app, p) ↦
      ground (arith, or_fallback_idem app.private_key (o.getenv "GITHUB_APP_PRIVATE_KEY"))
  | inl p ↦ elim (Option-cases a.pat) [
    | inr (pat, q) ↦ ground (arith, or_fallback_idem pat.token (o.getenv "GITHUB_TOKEN"))
    | inl q ↦ ground (arith, str_eq_iff (o.getenv "GITHUB_TOKEN") "")
  ]
]

-- What the file sets takes precedence over the environment, and falling back a second time changes
-- nothing.
pub apply_env_fallbacks_lem :
    (o : Outside) (c : Config)
    → let c' = apply_env_fallbacks o c in
      (c.oxide.host ≢ "" → c'.oxide.host ≡ c.oxide.host)
      × (c.oxide.token ≢ "" → c'.oxide.token ≡ c.oxide.token)
      × KeepsAuth c.github.auth c'.github.auth
      × (apply_env_fallbacks o c' ≡ c')
unfolding apply_env_fallbacks
apply_env_fallbacks_lem o c = (
  or_fallback-set c.oxide.host (o.getenv "OXIDE_HOST"),
  or_fallback-set c.oxide.token (o.getenv "OXIDE_TOKEN"),
  fallback_auth-KeepsAuth o c.github.auth,
  λ i. record c {
    oxide = record {
      host = or_fallback_idem c.oxide.host (o.getenv "OXIDE_HOST") i;
      token = or_fallback_idem c.oxide.token (o.getenv "OXIDE_TOKEN") i;
    };
    github = record c.github { auth = fallback_auth_idem o c.github.auth i };
  },
)
