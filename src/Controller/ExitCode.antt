-- ===== src/Controller/ExitCode.antt =====
-- When the process succeeds.
use oxide_gha_runner_scale_s.Prelude.{
  String, Bool, true, false, Option, none, some, List, [], ◌∷◌, ◌≡◌, ◌⊎◌, inl, inr, ◌↔◌, refl, sym,
  subst, ◌∙◌, arith,
}
use oxide_gha_runner_scale_s.AppConfig
use oxide_gha_runner_scale_s.AppConfig.{Outside, AppAuth, PatAuth, Auth, apply_env_fallbacks}
use oxide_gha_runner_scale_s.AppConfig.Validate.{Checked, accepted, refused, load_file, validate}
use oxide_gha_runner_scale_s.AppConfig.Loaded.{IsLoaded, load_file-IsLoaded}
use oxide_gha_runner_scale_s.AppConfig.Clients.{GithubRequest}
use oxide_gha_runner_scale_s.AppConfig.Clients.Credential.{HasCredential}
use oxide_gha_runner_scale_s.ScaleSet.{RunnerScaleSet, ensured, ensure_scale_set}
use oxide_gha_runner_scale_s.Controller.{ControllerError}
use oxide_gha_runner_scale_s.Controller.Start.{
  scale_set_settings, Surroundings, run, new_controller, after_clients, after_load, exit_code_of,
  ClientError, main_run,
}
use oxide_gha_runner_scale_s.Controller.Exit.{ServedAt, run_lem}
use oxide_gha_runner_scale_s.Controller.Handover.{client_answer, validate-new_controller}

exit_code_of-zero : (errors : List ControllerError) → (exit_code_of errors ≡ 0) ↔ (errors ≡ [])
exit_code_of-zero [] = (λ h. refl, λ h. refl)
exit_code_of-zero (e ∷ es) = (λ h. absurd (omega arith), λ h. cc)

-- Both libraries make their clients, that of GitHub with the one credential of the configuration.
abbrev pub HasClients : Outside → Surroundings → AppConfig.Config → Type 0
HasClients o w c =
    (q : GithubRequest) × HasCredential o c.github.config_url c.github.auth q
    × (w.create_github_client q ≡ none)
    × (w.create_oxide_client c.oxide.host c.oxide.token ≡ none)

-- GitHub has or gets the scale set, which is served to its end.
abbrev pub IsServed : Surroundings → AppConfig.Config → Type 0
IsServed w c =
    (x : RunnerScaleSet) × ((ensure_scale_set w.github (scale_set_settings c)).0 ≡ ensured x)
    × ServedAt w c x

HasCredential-unique :
    (o : Outside) (url : String) (a : Auth) (q q' : GithubRequest)
    → HasCredential o url a q
    → HasCredential o url a q'
    → q ≡ q'
HasCredential-unique o url a q q' (inl (x, is, lacks, key, fine, e))
      (inl (x', is', lacks', key', fine', e')) =
    cc
HasCredential-unique o url a q q' (inl (x, is, lacks, key, fine, e))
      (inr (x', lacks', is', token', e')) =
    absurd (ground arith)
HasCredential-unique o url a q q' (inr (x, lacks, is, token, e))
      (inl (x', is', lacks', key', fine', e')) =
    absurd (ground arith)
HasCredential-unique o url a q q' (inr (x, lacks, is, token, e))
      (inr (x', lacks', is', token', e')) =
    cc

client_answer-none : (a b : Option String) → (client_answer a b ≡ none) ↔ ((a ≡ none) × (b ≡ none))
client_answer-none none none = (λ h. (refl, refl), λ h. refl)
client_answer-none none (some t) = (λ h. cc, λ h. cc (h.1))
client_answer-none (some t) b = (λ h. cc, λ h. cc (h.0))

-- For an accepted configuration the clients are created exactly if both libraries make them.
new_controller-HasClients :
    (o : Outside) (w : Surroundings) (c₀ c : AppConfig.Config)
    → validate o c₀ ≡ accepted c
    → (new_controller o w c ≡ none) ↔ HasClients o w c
new_controller-HasClients o w c₀ c valid =
    let (q, has, answer) = validate-new_controller o w c₀ c valid in
    let both =
      client_answer-none (w.create_github_client q)
        (w.create_oxide_client c.oxide.host c.oxide.token) in
    (
      λ h. (let (git, oxide) = both.0 (sym answer ∙ h) in (q, has, git, oxide)),
      λ (q', has', git, oxide).
          (let same = HasCredential-unique o _ _ q' q has' has in
            answer ∙ both.1 (subst (λ z. w.create_github_client z ≡ none) same git, oxide)),
    )

after_clients-zero :
    (w : Surroundings) (c : AppConfig.Config) (a : Option ClientError)
    → (after_clients w c a ≡ 0) ↔ ((a ≡ none) × IsServed w c)
unfolding after_clients
after_clients-zero w c none =
    let code = exit_code_of-zero (run w c).errors in
    let served = run_lem w c in (λ h. (refl, served.0 (code.0 h)), λ h. code.1 (served.1 h.1))
after_clients-zero w c (some e) = (λ h. absurd (omega arith), λ h. cc (h.0))

after_load-zero :
    (o : Outside) (w : Surroundings) (m : Checked AppConfig.Config)
    → (after_load o w m ≡ 0)
      ↔ ((c : AppConfig.Config) × (m ≡ accepted c) × (new_controller o w c ≡ none) × IsServed w c)
unfolding after_load
after_load-zero o w (refused e) = (λ h. absurd (omega arith), λ h. cc (h.1))
after_load-zero o w (accepted c) =
    let code = after_clients-zero w c (new_controller o w c) in
    (
      λ h. (c, refl, (code.0 h).0, (code.0 h).1),
      λ (d, e, made, served).
          (let same : d ≡ c = cc in
            code.1 (subst (λ z. (new_controller o w z ≡ none) × IsServed w z) same (made, served))),
    )

-- A served configuration makes the process exit with 0.
served-zero :
    (o : Outside) (w : Surroundings) (path : String) (c : AppConfig.Config)
    → IsLoaded o path c
    → HasClients o w c
    → IsServed w c
    → after_load o w (load_file o path) ≡ 0
served-zero o w path c (text, written, opened, decoded, valid) clients served =
    (after_load-zero o w (load_file o path)).1 (
      c,
      (load_file-IsLoaded o path c).1 (text, written, opened, decoded, valid),
      (new_controller-HasClients o w (apply_env_fallbacks o written) c valid).1 clients,
      served,
    )

-- The process exits with 0 exactly if it is asked for its version, or if its configuration file opens
-- and holds one document that is accepted with what the environment adds, both libraries make a
-- client, that of GitHub with the one credential of that configuration, and the controller serves the
-- scale set: the scale set is there or made, the scaler, the session and the listener are made, the
-- session closes, and the scale set was drained and deleted or no peer failed otherwise than by
-- cancellation.
pub main_run-zero :
    (o : Outside) (w : Surroundings) (show_version : Bool) (path : String)
    → (main_run o w show_version path ≡ 0) ↔ (
        (show_version ≡ true)
        ⊎ ((c : AppConfig.Config) × IsLoaded o path c × HasClients o w c × IsServed w c))
unfolding main_run
main_run-zero o w true path = (λ h. inl refl, λ h. refl)
main_run-zero o w false path =
    let code = after_load-zero o w (load_file o path) in
    (
      λ h.
          (let (c, loaded, made, served) = code.0 h in
            let (text, written, opened, decoded, valid) = (load_file-IsLoaded o path c).0 loaded in
            inr (
              c,
              (text, written, opened, decoded, valid),
              (new_controller-HasClients o w (apply_env_fallbacks o written) c valid).0 made,
              served,
            )),
      λ h. elim h [
        | inl e ↦ cc
        | inr (c, loaded, clients, served) ↦ served-zero o w path c loaded clients served
      ],
    )
