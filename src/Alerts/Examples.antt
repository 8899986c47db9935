-- ===== src/Alerts/Examples.antt =====
-- Alerts and the watchdog at concrete inputs, over the ORM in memory.
use btrfs_snapah_pow.Base.{
  ℕ, zero, suc, ◌+◌, ◌≡◌, refl, ◌⊎◌, inl, String, ◌++◌, ◌==◌, none, some, List, [], ◌∷◌, ok, err,
  lookup, insert, arith, if◌then◌else◌, is_empty, map,
}
use mathlib.Core.List
use btrfs_snapah_pow.Storage.Models.{Node}
use btrfs_snapah_pow.Storage.Db.{update_node_status, list_nodes}
use btrfs_snapah_pow.Storage.Memory.{Memory, memory, memory_nodes-laws, empty_memory}
use btrfs_snapah_pow.Alerts.Message.{Alert}
use btrfs_snapah_pow.Alerts.{
  Env, email, webhook, stamped, send, config_from_env, Outside, slack_payload, generic_payload,
  send_webhook,
}
use btrfs_snapah_pow.Alerts.Channels.{send_configured, send_webhook_outcome}
use btrfs_snapah_pow.Alerts.Watchdog.{
  Clock, Watch, alert_recovered, alert_offline, check_node, check_nodes, check, watch,
}
use btrfs_snapah_pow.Alerts.Watchdog.Alternation.{follow, known_down, follow-watch}
use btrfs_snapah_pow.Alerts.Watchdog.Recovery.{offline_mark_recovers}

abbrev node : String → ℕ → Node
node status last_seen = record {
  id = "n1";
  hostname = "nas";
  address = "10.0.0.2";
  status = status;
  last_seen = last_seen;
  created_at = 0;
  updated_at = 0;
  deleted_at = none;
}

abbrev clock : ℕ → Clock
clock n = record { since = n; now = n }

abbrev with_node : Node → Memory
with_node n = record empty_memory { nodes = n ∷ [] }

abbrev start : Watch memory
start = record { last_status = []; db = with_node (node "online" 0) }

-- Two checks a minute apart, three minutes after the node was last heard of.
flaps :
    let (w', sent) =
      watch memory
        ((clock 180000000000, with_node (node "online" 0))
          ∷ (clock 240000000000, with_node (node "offline" 180000000000))
          ∷ [])
        start in
    map (λ (a : Alert). a.level) sent ≡ "critical" ∷ "info" ∷ []
unfolding watch check check_nodes check_node list_nodes update_node_status lookup insert
flaps = refl

abbrev rounds : List (Clock × Memory)
rounds = (clock 180000000000, with_node (node "online" 0)) ∷ []

follow-watch_example :
    follow "n1" (known_down memory "n1" start) (watch memory rounds start).1
    ≡ some (known_down memory "n1" (watch memory rounds start).0)
follow-watch_example = follow-watch memory "n1" rounds start

offline_mark_recovers_example :
    (check_node memory
      (clock 240000000000)
      (node "offline" 180000000000)
      (check_node memory (clock 180000000000) (node "online" 0) start).0).1
    ≡ alert_recovered (node "offline" 180000000000) ∷ []
unfolding update_node_status memory_nodes-laws check_node lookup
offline_mark_recovers_example =
    offline_mark_recovers memory memory_nodes-laws (clock 180000000000) (clock 240000000000)
      (node "online" 0) (node "offline" 180000000000) start refl refl refl (inl refl) refl
      (omega arith)

abbrev env : Env
env key = if key == "ALERT_WEBHOOK_URL" then "http://hook" else ""

abbrev alert : Alert
alert = alert_offline (node "online" 0)

send_configured_run :
    send (config_from_env env) 5 alert
    ≡ List.◌++◌
        (if is_empty (env "ALERT_EMAIL_TO") then [] else email (stamped 5 alert) ∷ [])
        (if is_empty (env "ALERT_WEBHOOK_URL") then [] else webhook (stamped 5 alert) ∷ [])
send_configured_run = send_configured env 5 alert

-- A world that counts the posts and refuses the first.
abbrev world : Outside ℕ
world = record {
  format = λ layout t. layout;
  dial_and_send = λ m w. (w, ok tt);
  post = λ url body w. (w + 1, elim w [ zero ↦ err "refused" | suc n ↦ ok 200 ]);
}

send_webhook_outcome_example :
    let cfg = config_from_env env in
    let (w₁, first) = world.post cfg.webhook_url (slack_payload world alert) 0 in
    let (w₂, second) = world.post cfg.webhook_url (generic_payload world alert) w₁ in
    ((code : ℕ) × (first ≡ ok code) × (send_webhook world cfg alert 0 ≡ (w₁, ok tt)))
    ⊎ ((e : String) × (code : ℕ) × (first ≡ err e)
        × (second ≡ ok code)
        × (send_webhook world cfg alert 0 ≡ (w₂, ok tt)))
    ⊎ ((e e' : String) × (first ≡ err e)
        × (second ≡ err e')
        × (send_webhook world cfg alert 0 ≡ (w₂, err ("webhook: " ++ e'))))
send_webhook_outcome_example = send_webhook_outcome world (config_from_env env) alert 0
