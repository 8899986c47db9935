-- ===== src/Alerts.antt =====
-- internal/alerts/alerts.go: where alerts go. The environment is a function; the mail library and
-- the HTTP client are parameters; `Time.Format` is the parameter `format`.
pub mod Message
pub mod Email
pub mod Watchdog
pub mod Channels
mod Examples
use btrfs_snapah_pow.Base.{
  ℕ, String, ◌++◌, ◌==◌, Bool, true, false, not, Option, none, some, List, [], ◌∷◌, Result, ok, err,
  is_empty, if◌then◌else◌,
}
use mathlib.Core.List
use btrfs_snapah_pow.Alerts.Message.{Alert, level_color, shown_time}
use btrfs_snapah_pow.Alerts.Email.{email_body}
use btrfs_snapah_pow.Http.{Json, end, field, nil, cons}

pub record Config : Type 0 where
  pub smtp_host : String
  pub smtp_port : ℕ
  pub smtp_user : String
  pub smtp_pass : String
  pub smtp_from : String
  pub webhook_url : String
  pub email_enabled : Bool
  pub webhook_enabled : Bool

-- `os.Getenv`: empty where the variable is not set.
abbrev pub Env : Type 0
Env = String → String

abbrev get_env : Env → String → String → String
get_env env key fallback = if not (is_empty (env key)) then env key else fallback

unfoldable pub config_from_env : Env → Config
config_from_env env = record {
  smtp_host = get_env env "SMTP_HOST" "localhost";
  smtp_port = 587;
  smtp_user = get_env env "SMTP_USERNAME" "";
  smtp_pass = get_env env "SMTP_PASSWORD" "";
  smtp_from = get_env env "SMTP_FROM" "snapah@localhost";
  webhook_url = get_env env "ALERT_WEBHOOK_URL" "";
  email_enabled = not (is_empty (get_env env "ALERT_EMAIL_TO" ""));
  webhook_enabled = not (is_empty (get_env env "ALERT_WEBHOOK_URL" ""));
}

-- The goroutines that `Send` starts.
pub data Task : Type 0 where
  email webhook : Alert → Task

-- `if a.Time.IsZero() { a.Time = time.Now() }`
abbrev pub stamped : ℕ → Alert → Alert
stamped now a = record a { time = elim a.time [ none ↦ some now | some t ↦ some t ] }

unfoldable pub send : Config → ℕ → Alert → List Task
send cfg now a =
    List.◌++◌ (if cfg.email_enabled then email (stamped now a) ∷ [] else [])
      (if cfg.webhook_enabled then webhook (stamped now a) ∷ [] else [])

-- What the program calls of the mail library: a dialer's settings, and a message.
pub record Mail : Type 0 where
  pub host : String
  pub port : ℕ
  pub user : String
  pub pass : String
  pub from_address : String
  pub to : String
  pub subject : String
  pub html : String

unfoldable pub subject_of : Alert → String
subject_of a = "[snapah-pow][" ++ (a.level ++ ("] " ++ a.title))

-- The outside world of the two channels: a state `W`, mail that is sent, and HTTP posts, which
-- answer a status code.
pub record Outside (W : Type 0) : Type 0 where
  pub format : String → ℕ → String
  pub dial_and_send : Mail → W → W × Result (Unit {0})
  pub post : String → Json → W → W × Result ℕ

module _ {W : Type 0} (out : Outside W) where
  mailed : W × Result (Unit {0}) → W × Result (Unit {0})
  mailed (w, ok _) = (w, ok tt)
  mailed (w, err e) = (w, err ("smtp: " ++ e))

  -- `sendEmail`
  unfoldable pub send_email : Env → Config → Alert → W → W × Result (Unit {0})
  unfolding mailed
  send_email env cfg a w =
      let to = env "ALERT_EMAIL_TO" in
      if is_empty to
      then (w, ok tt)
      else mailed (
          out.dial_and_send
            (record {
              host = cfg.smtp_host;
              port = cfg.smtp_port;
              user = cfg.smtp_user;
              pass = cfg.smtp_pass;
              from_address = cfg.smtp_from;
              to = to;
              subject = subject_of a;
              html = email_body out.format a;
            })
            w)

module _ {W : Type 0} (out : Outside W) where
  unfoldable pub generic_payload : Alert → Json
  generic_payload a = Json.obj (
      field "level" (Json.str a.level) (
        field "title" (Json.str a.title) (
          field "message" (Json.str a.message) (
            field "node_id" (Json.str a.node_id) (
              field "time" (Json.str (shown_time out.format "2006-01-02T15:04:05Z07:00" a.time))
                (field "source" (Json.str "snapah-pow") end))))))

  abbrev slack_field : String → String → Json
  slack_field title value = Json.obj (
      field "title" (Json.str title)
        (field "value" (Json.str value) (field "short" (Json.str "true") end)))

  unfoldable pub slack_payload : Alert → Json
  slack_payload a = Json.obj (
      field "text" (Json.str ("*[snapah-pow]* " ++ (a.title ++ ("\n" ++ a.message)))) (
        field "attachments"
          (Json.arr (
            cons
              (Json.obj (
                field "color" (Json.str (level_color a.level)) (
                  field "fields"
                    (Json.arr (
                      cons (slack_field "Nivel" a.level) (
                        cons (slack_field "Nodo" a.node_id) (
                          cons (slack_field "Hora" (shown_time out.format "02/01 15:04:05" a.time))
                            nil))))
                    end)))
              nil))
          end))

  posted_again : W × Result ℕ → W × Result (Unit {0})
  posted_again (w, ok code) = (w, ok tt)
  posted_again (w, err e) = (w, err ("webhook: " ++ e))

  posted : String → Alert → W × Result ℕ → W × Result (Unit {0})
  posted url a (w, ok code) = (w, ok tt)
  posted url a (w, err e) = posted_again (out.post url (generic_payload a) w)

  -- `sendWebhook`: as Slack first, then as plain JSON.
  unfoldable pub send_webhook : Config → Alert → W → W × Result (Unit {0})
  unfolding posted posted_again
  send_webhook cfg a w = posted cfg.webhook_url a (out.post cfg.webhook_url (slack_payload a) w)
