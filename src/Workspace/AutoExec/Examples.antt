-- ===== src/Workspace/AutoExec/Examples.antt =====
-- Tests and witnesses for autoexec.rs.
use llmdevsilo.Prelude.{◌≡◌, refl, ◌↔◌, true, ◌∷◌, ◌++◌, none, is_some, codes, strip_prefix}
use llmdevsilo.Workspace.AutoExec.{rules, segments_of, match_path}
use llmdevsilo.Workspace.AutoExec.Depth.{Covered, match_path-Covered, match_path-deeper}

match_path_hook : is_some (match_path (codes "vendor//.git/hooks/pre-commit")) ≡ true
unfolding match_path strip_prefix
match_path_hook = refl

match_path_dir : match_path (codes ".git/hooks") ≡ none
unfolding match_path strip_prefix
match_path_dir = refl

match_path-Covered_example :
    (is_some (match_path (codes "a/.cargo/config.toml")) ≡ true)
    ↔ Covered (segments_of (codes "a/.cargo/config.toml")) rules
match_path-Covered_example = match_path-Covered (codes "a/.cargo/config.toml")

match_path-deeper_example :
    is_some (match_path (codes "crates/x" ++ (47 ∷ codes "build.rs"))) ≡ true
unfolding match_path strip_prefix
match_path-deeper_example = match_path-deeper (codes "crates/x") (codes "build.rs") refl
