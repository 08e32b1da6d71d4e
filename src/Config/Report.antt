-- ===== src/Config/Report.antt =====
-- internal/config/report.go: which development postures the report at boot names.
use gophercast.Prelude.{Bool, List, [], ◌∷◌, ◌++◌, if◌then◌else◌}

pub record CorePostures : Type 0 where
  pub serve_enforcement_off : Bool
  pub serve_password_default : Bool
  pub dev_auth : Bool
  pub no_identity_path : Bool

pub data Line : Type 0 where
  enforcement_block password_line dev_auth_line identity_line : Line

abbrev pub line_if : Bool → Line → List Line
line_if b line = if b then line ∷ [] else []

-- The lines between the frame, which is written only where there is a line.
unfoldable pub boot_report : CorePostures → List Line
boot_report p =
    line_if p.serve_enforcement_off enforcement_block
    ++ (line_if p.serve_password_default password_line
        ++ (line_if p.dev_auth dev_auth_line ++ line_if p.no_identity_path identity_line))
