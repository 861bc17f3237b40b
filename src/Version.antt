-- ===== src/Version.antt =====
-- version.go: the version and the commit that the process reports.
pub mod Reported
use oxide_gha_runner_scale_s.Prelude.{
  String, Bool, true, false, Option, none, some, List, [], ◌∷◌, str_eq, if◌then◌else◌,
}

pub record BuildInfo : Type 0 where
  pub version : String
  pub commit : String

-- What the source reads of `debug.BuildInfo`.
pub record GoBuildInfo : Type 0 where
  pub main_version : String
  pub settings : List (String × String)

-- The loop over the settings, up to its `break`.
unfoldable pub revision_or : String → List (String × String) → String
revision_or commit [] = commit
revision_or commit ((key, value) ∷ settings) =
    if str_eq key "vcs.revision" then value else revision_or commit settings

-- `if s == "" { s = otherwise }`.
abbrev pub or_else : String → String → String
or_else s otherwise = if str_eq s "" then otherwise else s

-- `getBuildInfo`, with the linker's values and what `debug.ReadBuildInfo` answers.
unfoldable pub get_build_info : BuildInfo → Option GoBuildInfo → BuildInfo
unfolding revision_or
get_build_info linked none = record {
  version = or_else linked.version "unknown";
  commit = or_else linked.commit "unknown";
}
get_build_info linked (some info) = record {
  version = or_else (or_else linked.version info.main_version) "unknown";
  commit = or_else (or_else linked.commit (revision_or linked.commit info.settings)) "unknown";
}
