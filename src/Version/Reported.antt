-- ===== src/Version/Reported.antt =====
-- The reported version and commit.
use oxide_gha_runner_scale_s.Prelude.{String, Option, none, some, ◌≡◌, ◌≢◌, arith, str_eq_iff}
use oxide_gha_runner_scale_s.Version.{BuildInfo, GoBuildInfo, or_else, revision_or, get_build_info}

or_else-named : (s t : String) → t ≢ "" → or_else s t ≢ ""
or_else-named s t h = ground (arith, str_eq_iff s "")

or_else-set : (s t : String) → s ≢ "" → or_else s t ≡ s
or_else-set s t h = ground (arith, str_eq_iff s "")

or_else_twice : (s t u : String) → s ≢ "" → or_else (or_else s t) u ≡ s
or_else_twice s t u h = ground (arith, str_eq_iff s "", str_eq_iff t "")

unknown_named : ◌≢◌ {A = String} "unknown" ""
unknown_named h = cc

-- The process always reports some version and some commit, and those that the linker set as they are.
pub get_build_info_lem :
    (linked : BuildInfo) (info : Option GoBuildInfo)
    → let reported = get_build_info linked info in
      (reported.version ≢ "")
      × (reported.commit ≢ "")
      × (linked.version ≢ "" → reported.version ≡ linked.version)
      × (linked.commit ≢ "" → reported.commit ≡ linked.commit)
unfolding get_build_info
get_build_info_lem linked none = (
  or_else-named linked.version "unknown" unknown_named,
  or_else-named linked.commit "unknown" unknown_named,
  or_else-set linked.version "unknown",
  or_else-set linked.commit "unknown",
)
get_build_info_lem linked (some info) = (
  or_else-named (or_else linked.version info.main_version) "unknown" unknown_named,
  or_else-named (or_else linked.commit (revision_or linked.commit info.settings)) "unknown"
      unknown_named,
  or_else_twice linked.version info.main_version "unknown",
  or_else_twice linked.commit (revision_or linked.commit info.settings) "unknown",
)
