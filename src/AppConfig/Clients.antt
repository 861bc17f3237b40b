-- ===== src/AppConfig/Clients.antt =====
-- internal/config/config.go, what `ScaleSetClient` asks the GitHub library for.
pub mod Credential
use oxide_gha_runner_scale_s.Prelude.{String, Option, none, some}
use oxide_gha_runner_scale_s.AppConfig.{AppAuth, Auth}

-- `NewClientWithGitHubApp` and `NewClientWithPersonalAccessToken`, with the configuration URL. The
-- fields of a `GitHubAppAuth` are those of an `AppAuth`.
pub data GithubRequest : Type 0 where
  github_app : String → AppAuth → GithubRequest
  personal_access_token : String → String → GithubRequest

-- Where neither authentication is there, `c.GitHub.Auth.PAT.Token` would be a nil dereference; this is
-- none here.
unfoldable pub github_request : String → Auth → Option GithubRequest
github_request url a = elim a.app [
  | some app ↦ some (github_app url app)
  | none ↦ elim a.pat [ some pat ↦ some (personal_access_token url pat.token) | none ↦ none ]
]
