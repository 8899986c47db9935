-- ===== src/Server/Admin.antt =====
-- The HTTP handlers of cmd/server/main.go for policies, API keys and alerts.
use btrfs_snapah_pow.Base.{
  ℕ, String, ◌++◌, ◌==◌, Bool, not, map, Option, none, some, Result, ok, err, is_empty,
  if◌then◌else◌,
}
use mathlib.Core.List
use btrfs_snapah_pow.Http.{Handler, Writer, Request, Json, Fields, end, field, get, write_header}
use btrfs_snapah_pow.ApiKeys.{generate, list, revoke}
use btrfs_snapah_pow.Alerts.{config_from_env, send}
use btrfs_snapah_pow.Alerts.Message.{Alert}
use btrfs_snapah_pow.Scheduler
use btrfs_snapah_pow.Scheduler.{add_policy}
use btrfs_snapah_pow.Storage.Models.{Policy, ApiKeyRecord}
use btrfs_snapah_pow.Storage.Gorm.{Gorm}
use btrfs_snapah_pow.Storage.Db.{create_policy, list_policies}
use btrfs_snapah_pow.Server.Types.{
  KeyRequest, AlertRequest, Libraries, Readings, alerting, Server, db, with_db,
}
use btrfs_snapah_pow.Server.Answers.{json_resp, http_err, forbidden}
use btrfs_snapah_pow.Server.Handlers.{role_of, listing}

-- `r.Header.Get("X-User-Role") != "admin"`
abbrev pub not_admin : {B : Type 0} → Request B → Bool
not_admin r = not (role_of r == "admin")

abbrev pub or_default : String → String → String
or_default value fallback = if is_empty value then fallback else value

-- the scheduler's form of a policy of the database
abbrev pub scheduled : Policy → Scheduler.Policy
scheduled p = record {
  id = p.id;
  name = p.name;
  node_id = p.node_id;
  subvolume_path = p.subvolume_path;
  schedule = p.schedule;
  retention_hourly = p.retention_hourly;
  retention_daily = p.retention_daily;
  retention_weekly = p.retention_weekly;
  retention_monthly = p.retention_monthly;
  read_only = p.read_only;
  replicate = p.replicate;
  enabled = p.enabled;
}

-- a field that is there if the pointer is not nil
abbrev optional : String → (ℕ → Json) → Option ℕ → Fields → Fields
optional key f none rest = rest
optional key f (some t) rest = field key (f t) rest

module _ (g : Gorm) {C W B : Type 0} (lib : Libraries C W B) where
  open g use {Conn}

  abbrev State : Type 0
  State = Server Conn C W

  -- The row is written: the policy is scheduled, and what the scheduler says is dropped.
  unfoldable pub created : Policy → Conn × Result (Unit {0}) → Writer → State → Writer × State
  created p (d, err e) w s = (http_err e 500 w, with_db d s)
  created p (d, ok _) w s = (
    json_resp (lib.encode.policy p) (write_header 201 w),
    record (with_db d s) { scheduler = (add_policy lib.cron (scheduled p) s.scheduler).0 },
  )

  unfoldable pub post_policy : Readings → Result Policy → Writer → State → Writer × State
  post_policy rd (err e) w s = (http_err e 400 w, s)
  post_policy rd (ok p) w s =
      created (record p { id = rd.id }) (create_policy g (record p { id = rd.id }) (db s)) w s

  unfoldable pub handle_policies : Readings → Handler B State
  unfolding post_policy created
  handle_policies rd w r s =
      if r.method == "GET"
      then (
        listing g lib "policies" lib.encode.policy (list_policies g (get "node_id" r.query) (db s))
            w,
        s,
      )
      else if r.method == "POST"
      then (if not_admin r
          then (forbidden "solo admin puede crear politicas" w, s)
          else post_policy rd (lib.decode.policy r.body) w s)
      else (write_header 405 w, s)

  -- what the list shows of a key
  unfoldable pub safe_key : ApiKeyRecord → Json
  safe_key k = Json.obj (
      field "id" (Json.str k.id) (
        field "name" (Json.str k.name) (
          field "prefix" (Json.str k.prefix) (
            field "role" (Json.str k.role) (
              field "active" (Json.bool k.active) (
                field "created_at" (lib.encode.time k.created_at) (
                  optional "expires_at" lib.encode.time k.expires_at
                    (optional "last_used_at" lib.encode.time k.last_used_at end))))))))

  new_key : Conn × Result (String × ApiKeyRecord) → Writer → State → Writer × State
  new_key (d, err e) w s = (http_err e 500 w, with_db d s)
  new_key (d, ok (plaintext, key)) w s = (
    json_resp
        (Json.obj (
          field "id" (Json.str key.id) (
            field "name" (Json.str key.name) (
              field "role" (Json.str key.role) (
                field "prefix" (Json.str key.prefix) (
                  field "active" (Json.bool key.active) (
                    field "created_at" (lib.encode.time key.created_at) (
                      field "key" (Json.str plaintext) (
                        field "warning"
                          (Json.str "Guarda esta key ahora. No se puede recuperar despues.")
                          end)))))))))
        (write_header 201 w),
    with_db d s,
  )

  post_key : Readings → Result KeyRequest → Writer → State → Writer × State
  post_key rd (err e) w s = (http_err e 400 w, s)
  post_key rd (ok req) w s =
      new_key
        (generate lib.crypto g rd.raw rd.now rd.later
          (or_default req.name ("api-key-" ++ rd.short_id)) (or_default req.role "operator")
          req.expires_days (db s))
        w s

  unfoldable pub handle_api_keys : Readings → Handler B State
  unfolding post_key new_key
  handle_api_keys rd w r s =
      if r.method == "GET"
      then (if not_admin r
          then (forbidden "solo admin puede listar API keys" w, s)
          else (listing g lib "keys" safe_key (list lib.crypto g (db s)) w, s))
      else if r.method == "POST"
      then (if not_admin r
          then (forbidden "solo admin puede crear API keys" w, s)
          else post_key rd (lib.decode.key r.body) w s)
      else (write_header 405 w, s)

  revoke_key : Result String → Writer → State → Writer × State
  revoke_key (err e) w s = (http_err e 400 w, s)
  revoke_key (ok id) w s =
      let (d, success) = revoke lib.crypto g id (db s) in
      (
        json_resp (Json.obj (field "success" (Json.bool success) (field "id" (Json.str id) end))) w,
        with_db d s,
      )

  unfoldable pub handle_revoke_api_key : Handler B State
  unfolding revoke_key
  handle_revoke_api_key w r s =
      if not (r.method == "POST")
      then (write_header 405 w, s)
      else if not_admin r
      then (forbidden "solo admin puede revocar API keys" w, s)
      else revoke_key (lib.decode.revoke r.body) w s

  abbrev pub test_alert : AlertRequest → Alert
  test_alert req = record {
    level = or_default req.level "info";
    title = or_default req.title "Alerta de prueba";
    message = or_default req.message "Test desde snapah-pow";
    node_id = "manual";
    time = none;
  }

  send_test : Readings → Result AlertRequest → Writer → State → Writer × State
  send_test rd (err e) w s = (http_err e 400 w, s)
  send_test rd (ok req) w s = (
    json_resp
        (Json.obj (
          field "status" (Json.str "alerta enviada")
            (field "level" (Json.str (or_default req.level "info")) end)))
        w,
    record s {
      tasks = List.◌++◌ s.tasks (map alerting (send s.alerts_cfg rd.now (test_alert req)));
    },
  )

  unfoldable pub handle_alert_test : Readings → Handler B State
  unfolding send_test
  handle_alert_test rd w r s =
      if not (r.method == "POST")
      then (write_header 405 w, s)
      else if not_admin r
      then (forbidden "solo admin puede enviar alertas de prueba" w, s)
      else send_test rd (lib.decode.alert r.body) w s

  -- The configuration is read anew from the environment.
  unfoldable pub handle_alert_config : Handler B State
  handle_alert_config w r s =
      let cfg = config_from_env lib.env in
      if not_admin r then (forbidden "solo admin" w, s) else (
        json_resp
            (Json.obj (
              field "email_enabled" (Json.bool cfg.email_enabled) (
                field "webhook_enabled" (Json.bool cfg.webhook_enabled) (
                  field "smtp_host" (Json.str cfg.smtp_host)
                    (field "smtp_from" (Json.str cfg.smtp_from) end)))))
            w,
        s,
      )
