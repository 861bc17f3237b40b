-- ===== src/AppConfig/Clients/Credential.antt =====
-- Which credential an accepted authentication has.
use oxide_gha_runner_scale_s.Prelude.{
  String, none, some, ◌≡◌, ◌≢◌, ◌⊎◌, inl, inr, refl, arith, Option-cases, str_eq_iff,
}
use oxide_gha_runner_scale_s.GoStrings.{trim_space}
use oxide_gha_runner_scale_s.AppConfig.{AppAuth, PatAuth, Auth, Outside}
use oxide_gha_runner_scale_s.AppConfig.Labels.{Checked-cases}
use oxide_gha_runner_scale_s.AppConfig.Validate.{
  accepted, validate_app_auth, validate_pat_auth, validate_auth,
}
use oxide_gha_runner_scale_s.AppConfig.Clients.{
  GithubRequest, github_app, personal_access_token, github_request,
}

-- The request has the one credential that is configured: the App, whose private key is not blank and
-- which the GitHub library accepts, or the token, which is not empty.
abbrev pub HasCredential : Outside → String → Auth → GithubRequest → Type 0
HasCredential o url a q =
    ((app : AppAuth) × (a.app ≡ some app)
      × (a.pat ≡ none)
      × (trim_space app.private_key ≢ "")
      × (o.app_auth_problem app ≡ none)
      × (q ≡ github_app url app))
    ⊎ ((pat : PatAuth) × (a.app ≡ none)
        × (a.pat ≡ some pat)
        × (pat.token ≢ "")
        × (q ≡ personal_access_token url pat.token))

validate_app_auth-key :
    (o : Outside) (a a' : AppAuth)
    → validate_app_auth o a ≡ accepted a'
    → (trim_space a'.private_key ≢ "") × (o.app_auth_problem a' ≡ none)
unfolding validate_app_auth
validate_app_auth-key o a a' h = ground (arith, str_eq_iff (trim_space a.private_key) "")

validate_pat_auth-token : (p p' : PatAuth) → validate_pat_auth p ≡ accepted p' → p'.token ≢ ""
unfolding validate_pat_auth
validate_pat_auth-token p p' h = ground (arith, str_eq_iff (trim_space p.token) "")

pub validate_auth-HasCredential :
    (o : Outside) (url : String) (a a' : Auth)
    → validate_auth o a ≡ accepted a'
    → (q : GithubRequest) × (github_request url a' ≡ some q) × HasCredential o url a' q
unfolding validate_auth github_request
validate_auth-HasCredential o url a a' h = elim (Option-cases a.app) [
  | inl p ↦ elim (Option-cases a.pat) [
    | inl q ↦ absurd (ground arith)
    | inr (pat, q) ↦ elim (Checked-cases (validate_pat_auth pat)) [
      | inl (e, k) ↦ absurd (ground arith)
      | inr (pat', k) ↦
          let app_is : a'.app ≡ none = ground arith in
          let pat_is : a'.pat ≡ some pat' = ground arith in
          (
            personal_access_token url pat'.token,
            ground arith,
            inr (pat', app_is, pat_is, validate_pat_auth-token pat pat' k, refl),
          )
    ]
  ]
  | inr (app, p) ↦ elim (Option-cases a.pat) [
    | inr (pat, q) ↦ absurd (ground arith)
    | inl q ↦ elim (Checked-cases (validate_app_auth o app)) [
      | inl (e, k) ↦ absurd (ground arith)
      | inr (app', k) ↦
          let app_is : a'.app ≡ some app' = ground arith in
          let pat_is : a'.pat ≡ none = ground arith in
          let (key, fine) = validate_app_auth-key o app app' k in
          (github_app url app', ground arith, inl (app', app_is, pat_is, key, fine, refl))
    ]
  ]
]
