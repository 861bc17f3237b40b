-- ===== src/Controller/Exit.antt =====
-- When the controller succeeds.
use oxide_gha_runner_scale_s.Scaler.Create
use oxide_gha_runner_scale_s.Prelude.{
  String, Option, none, some, List, [], ◌∷◌, ◌≡◌, ◌⊎◌, ◌↔◌, refl, subst,
}
use oxide_gha_runner_scale_s.AppConfig
use oxide_gha_runner_scale_s.AppConfig.{Outside}
use oxide_gha_runner_scale_s.Scaler.World.{Scaler}
use oxide_gha_runner_scale_s.Scaler.Create.{
  Construction, constructed, new_scaler, scaler_of, construction,
}
use oxide_gha_runner_scale_s.ScaleSet.{
  Change, RunnerScaleSet, Ensured, ensured, not_ensured, ensure_scale_set,
}
use oxide_gha_runner_scale_s.Controller.{closing_session, creating_listener, drained}
use oxide_gha_runner_scale_s.Controller.Cleanup.{EndedWell, joined-nil, finish_run_lem}
use oxide_gha_runner_scale_s.Controller.Start.{
  to_int, scaler_config, scale_set_settings, Surroundings, after_listener, after_session,
  after_scaler, after_ensure, run_scale_set, run,
}

-- The configuration of the scaler that comes from an accepted configuration is valid.
module _ (w : Surroundings) (c : AppConfig.Config) where
  -- The peers ran, and the clean-up went well.
  abbrev pub PeersServed : RunnerScaleSet → Type 0
  PeersServed x =
      (w.close_session ≡ none)
      × (((w.run_peers.1 ≡ drained) × (w.delete_scale_set x.id ≡ none))
          ⊎ EndedWell w.run_peers.0 w.run_peers.1)

  after_listener-nil :
      (changes : List Change) (x : RunnerScaleSet) (a : Option String)
      → ((after_listener w c changes x a).errors ≡ []) ↔ ((a ≡ none) × PeersServed x)
  unfolding after_listener
  after_listener-nil changes x none =
      let served =
        (finish_run_lem w.run_peers.0 w.run_peers.1 w.close_session (w.delete_scale_set x.id)).0 in
      (λ h. (refl, served.0 h), λ h. served.1 h.1)
  after_listener-nil changes x (some text) =
      let nil_iff = joined-nil (creating_listener text ∷ []) closing_session w.close_session in
      (λ h. cc ((nil_iff.0 h).0), λ h. cc)

  after_session-nil :
      (changes : List Change) (x : RunnerScaleSet) (a : Option String)
      → ((after_session w c changes x a).errors ≡ []) ↔ (
          (a ≡ none)
          × (w.create_listener x.id (to_int c.scale_set.max_runners) ≡ none)
          × PeersServed x)
  unfolding after_session
  after_session-nil changes x none =
      let rest =
        after_listener-nil changes x (w.create_listener x.id (to_int c.scale_set.max_runners)) in
      (λ h. (let r = rest.0 h in (refl, r.0, r.1)), λ h. rest.1 (h.1, h.2))
  after_session-nil changes x (some text) = (λ h. cc, λ h. cc)

  -- The scaler, the session and the listener are made as well.
  abbrev pub ServedAt : RunnerScaleSet → Type 0
  ServedAt x =
      ((s : Scaler) × (new_scaler (scaler_config c x.id) ≡ constructed s))
      × (w.create_session x.id ≡ none)
      × (w.create_listener x.id (to_int c.scale_set.max_runners) ≡ none)
      × PeersServed x

  after_scaler-nil :
      (changes : List Change) (x : RunnerScaleSet) (m : Construction)
      → ((after_scaler w c changes x m).errors ≡ []) ↔ (
          ((s : Scaler) × (m ≡ constructed s))
          × (w.create_session x.id ≡ none)
          × (w.create_listener x.id (to_int c.scale_set.max_runners) ≡ none)
          × PeersServed x)
  unfolding after_scaler
  after_scaler-nil changes x (constructed s) =
      let rest = after_session-nil changes x (w.create_session x.id) in
      (λ h. (let r = rest.0 h in ((s, refl), r.0, r.1, r.2)), λ h. rest.1 (h.1, h.2, h.3))
  after_scaler-nil changes x (Create.refused e) = (λ h. cc, λ h. cc)

  after_ensure-nil :
      (changes : List Change) (answer : Ensured)
      → ((after_ensure w c changes answer).errors ≡ [])
        ↔ ((x : RunnerScaleSet) × (answer ≡ ensured x) × ServedAt x)
  unfolding after_ensure run_scale_set
  after_ensure-nil changes (not_ensured e) = (λ h. cc, λ h. cc)
  after_ensure-nil changes (ensured x) =
      let rest = after_scaler-nil changes x (new_scaler (scaler_config c x.id)) in
      (
        λ h. (x, refl, rest.0 h),
        λ (y, e, served). (let same : y ≡ x = cc in rest.1 (subst ServedAt same served)),
      )

  -- The controller returns nil exactly if GitHub has or gets the scale set, the scaler, the session
  -- and the listener are made, the session closes, and either the scaler drained the scale set and
  -- its deletion succeeds or neither peer failed otherwise than by cancellation.
  pub run_lem : ((run w c).errors ≡ []) ↔ (
      (x : RunnerScaleSet) × ((ensure_scale_set w.github (scale_set_settings c)).0 ≡ ensured x)
      × ServedAt x)
  unfolding run
  run_lem =
      let (answer, changes) = ensure_scale_set w.github (scale_set_settings c) in
      after_ensure-nil changes answer
