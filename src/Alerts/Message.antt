-- ===== src/Alerts/Message.antt =====
-- internal/alerts/alerts.go: the alert, its colour and its time as text.
use btrfs_snapah_pow.Base.{ℕ, String, ◌==◌, Option, none, some, if◌then◌else◌}

-- `time` is `none` for the zero time.
pub record Alert : Type 0 where
  pub level : String
  pub title : String
  pub message : String
  pub node_id : String
  pub time : Option ℕ

unfoldable pub level_color : String → String
level_color level =
    if level == "critical"
    then "#e8360a"
    else if level == "error"
    then "#e8360a"
    else if level == "warning"
    then "#f5c800"
    else "#22a64a"

-- `a.Time.Format(layout)`, of an alert that `Send` has stamped
abbrev pub shown_time : (String → ℕ → String) → String → Option ℕ → String
shown_time format layout none = ""
shown_time format layout (some t) = format layout t
