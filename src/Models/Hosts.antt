-- ===== src/Models/Hosts.antt =====
-- `Host` of internal/models/types.go; its port may be negative as it is read.
use ops_terminator.Base.{ℕ, List}
use ops_terminator.Base.Text.{Text}
use ops_terminator.Base.Int.{ℤ}

-- `Host`; the labels as the list of their entries.
pub record Host : Type 0 where
  pub id : Text
  pub display_name : Text
  pub mode : Text
  pub address : Text
  pub port : ℤ
  pub user : Text
  pub password_env : Text
  pub tags : List Text
  pub labels : List (Text × Text)
  pub created_at : ℕ
  pub updated_at : ℕ
