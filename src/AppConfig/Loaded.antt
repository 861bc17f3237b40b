-- ===== src/AppConfig/Loaded.antt =====
-- When `LoadFile` accepts a file.
use oxide_gha_runner_scale_s.Prelude.{
  String, some, ◌≡◌, ◌↔◌, inl, inr, refl, sym, ◌∙◌, arith, Option-cases,
}
use oxide_gha_runner_scale_s.AppConfig.{
  Config, Outside, Trailing, end_of_file, another_document, trailing_error, apply_env_fallbacks,
}
use oxide_gha_runner_scale_s.AppConfig.Validate.{accepted, validate, load, load_file}

-- The file opens and holds one document, which is accepted with what the environment adds.
abbrev pub IsLoaded : Outside → String → Config → Type 0
IsLoaded o path c =
    (text : String) × (written : Config) × (o.open_file path ≡ some text)
    × (o.decode text ≡ some (written, end_of_file))
    × (validate o (apply_env_fallbacks o written) ≡ accepted c)

module _ (o : Outside) where
  load-accepted :
      (text : String) (c written : Config) (t : Trailing)
      → o.decode text ≡ some (written, t)
      → load o text ≡ accepted c
      → (t ≡ end_of_file) × (validate o (apply_env_fallbacks o written) ≡ accepted c)
  unfolding load
  load-accepted text c written end_of_file h e =
      let same : load o text ≡ validate o (apply_env_fallbacks o written) = rw (load, h) refl in
      (refl, sym same ∙ e)
  load-accepted text c written another_document h e = absurd (ground arith)
  load-accepted text c written (trailing_error t) h e = absurd (ground arith)

  pub load_file-IsLoaded :
      (path : String) (c : Config) → (load_file o path ≡ accepted c) ↔ IsLoaded o path c
  unfolding load_file load
  load_file-IsLoaded path c = (
    λ e. elim (Option-cases (o.open_file path)) [
      | inl h ↦ absurd (ground arith)
      | inr (text, h) ↦
          let opened : load_file o path ≡ load o text = rw (load_file, h) refl in
          elim (Option-cases (o.decode text)) [
            | inl k ↦ absurd (ground arith)
            | inr ((written, t), k) ↦
                let (ends, valid) = load-accepted text c written t k (sym opened ∙ e) in
                (text, written, h, rw (k, ends) refl, valid)
          ]
    ],
    λ (text, written, opened, decoded, valid). (rw (load_file, opened, load, decoded) valid),
  )
