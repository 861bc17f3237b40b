-- ===== src/AppConfig/Idempotent.antt =====
-- Normalized settings are accepted again, unchanged.
use oxide_gha_runner_scale_s.Prelude.{
  String, List, [], ◌∷◌, map, ◌≢◌, sym, subst, All, ◌≡◌, refl, arith, inl, inr, Option-cases,
}
use oxide_gha_runner_scale_s.GoStrings.{trim_space}
use oxide_gha_runner_scale_s.GoStrings.Trim.{trim_space_idem}
use oxide_gha_runner_scale_s.AppConfig.{AppAuth, PatAuth, Auth, Oxide, Instance, ScaleSet, Outside}
use oxide_gha_runner_scale_s.AppConfig.Labels.{Checked-cases, label_key, Apart, validate_labels_iff}
use oxide_gha_runner_scale_s.AppConfig.Validate.{
  accepted, validate_app_auth, validate_pat_auth, validate_auth, validate_oxide, validate_labels,
  validate_instance, validate_scale_set,
}

validate_instance_idem :
    (i i' : Instance) → validate_instance i ≡ accepted i' → validate_instance i' ≡ accepted i'
unfolding validate_instance
validate_instance_idem i i' h = ground (
  arith,
  trim_space_idem i.project,
  trim_space_idem i.vpc,
  trim_space_idem i.subnet,
  trim_space_idem i.image,
)

validate_oxide_idem :
    (x x' : Oxide) → validate_oxide x ≡ accepted x' → validate_oxide x' ≡ accepted x'
unfolding validate_oxide
validate_oxide_idem x x' h = ground (arith, trim_space_idem x.host, trim_space_idem x.token)

validate_app_auth_idem :
    (o : Outside) (a a' : AppAuth)
    → validate_app_auth o a ≡ accepted a'
    → validate_app_auth o a' ≡ accepted a'
unfolding validate_app_auth
validate_app_auth_idem o a a' h = ground (arith, trim_space_idem a.client_id)

validate_pat_auth_idem :
    (p p' : PatAuth) → validate_pat_auth p ≡ accepted p' → validate_pat_auth p' ≡ accepted p'
unfolding validate_pat_auth
validate_pat_auth_idem p p' h = ground (arith, trim_space_idem p.token)

-- An accepted authentication is accepted again, unchanged, as `ScaleSetClient` asks.
pub validate_auth_idem :
    (o : Outside) (a a' : Auth) → validate_auth o a ≡ accepted a' → validate_auth o a' ≡ accepted a'
unfolding validate_auth
validate_auth_idem o a a' h = elim (Option-cases a.app) [
  | inl p ↦ elim (Option-cases a.pat) [
    | inl q ↦ ground arith
    | inr (pat, q) ↦ elim (Checked-cases (validate_pat_auth pat)) [
      | inl (e, k) ↦ ground arith
      | inr (pat', k) ↦ ground (arith, validate_pat_auth_idem pat pat')
    ]
  ]
  | inr (app, p) ↦ elim (Option-cases a.pat) [
    | inr (pat, q) ↦ ground arith
    | inl q ↦ elim (Checked-cases (validate_app_auth o app)) [
      | inl (e, k) ↦ ground arith
      | inr (app', k) ↦ ground (arith, validate_app_auth_idem o app app')
    ]
  ]
]

pub map_trim_idem :
    (texts : List String) → map trim_space (map trim_space texts) ≡ map trim_space texts
map_trim_idem [] = refl
map_trim_idem (text ∷ texts) = λ i. trim_space_idem text i ∷ map_trim_idem texts i

module _ (o : Outside) where
  pub kept_again :
      (texts : List String)
      → All (λ u. trim_space u ≢ "") texts
      → All (λ u. trim_space u ≢ "") (map trim_space texts)
  kept_again [] h = tt
  kept_again (text ∷ texts) h = (rw (trim_space_idem text) h.0, kept_again texts h.1)

  differs_again :
      (k : String) (texts : List String)
      → All (λ u. k ≢ label_key o u) texts
      → All (λ u. k ≢ label_key o u) (map trim_space texts)
  differs_again k [] h = tt
  differs_again k (text ∷ texts) h = (rw (trim_space_idem text) h.0, differs_again k texts h.1)

  pub Apart-again : (texts : List String) → Apart o texts → Apart o (map trim_space texts)
  Apart-again [] h = tt
  Apart-again (text ∷ texts) h = (
    rw (trim_space_idem text) (differs_again (label_key o text) texts h.0),
    Apart-again texts h.1,
  )

  validate_labels_idem :
      (texts labels : List String)
      → validate_labels o [] 0 texts ≡ accepted labels
      → validate_labels o [] 0 labels ≡ accepted labels
  validate_labels_idem texts labels h =
      let facts = (validate_labels_iff o texts labels).0 h in
      let again = map trim_space texts in
      subst (λ ls. validate_labels o [] 0 ls ≡ accepted ls) (sym facts.0)
        ((validate_labels_iff o again again).1
          (sym (map_trim_idem texts), kept_again texts facts.1, Apart-again texts facts.2))

  -- A scale set configuration that was accepted is accepted again as it was normalized, and so
  -- normalization loses nothing.
  pub validate_scale_set_idem :
      (s s' : ScaleSet)
      → validate_scale_set o s ≡ accepted s'
      → validate_scale_set o s' ≡ accepted s'
  unfolding validate_scale_set
  validate_scale_set_idem s s' h = elim (Checked-cases (validate_labels o [] 0 s.labels)) [
    | inl (e, k) ↦ ground arith
    | inr (labels, k) ↦ elim (Checked-cases (validate_instance s.instance_of)) [
      | inl (e, j) ↦ ground arith
      | inr (i, j) ↦ ground (
        arith,
        trim_space_idem s.name,
        trim_space_idem s.runner_group,
        validate_labels_idem s.labels labels,
        validate_instance_idem s.instance_of i,
      )
    ]
  ]
