-- ===== src/Alerts/Channels.antt =====
-- The channels of internal/alerts/alerts.go.
use btrfs_snapah_pow.Base.{
  ℕ, ◌≡◌, refl, ◌⊎◌, inl, inr, String, ◌++◌, Bool, true, false, Result, ok, err, [], ◌∷◌, is_empty,
  if◌then◌else◌, not, Bool-cases, ap, ◌∙◌,
}
use mathlib.Core.Path.{ap₂}
use mathlib.Core.List
use btrfs_snapah_pow.Alerts.Message.{Alert}
use btrfs_snapah_pow.Alerts.{
  Config, Env, email, webhook, stamped, get_env, send, config_from_env, Outside, slack_payload,
  generic_payload, posted, posted_again, send_webhook,
}

get_env_empty : (env : Env) (key : String) → is_empty (get_env env key "") ≡ is_empty (env key)
get_env_empty env key = elim (Bool-cases (is_empty (env key))) [
  | inl unset ↦ rw (unset, get_env) refl
  | inr given ↦ rw (given, get_env) given
]

if_not : {A : Type 0} (b : Bool) (x y : A) → (if not b then x else y) ≡ (if b then y else x)
if_not true x y = refl
if_not false x y = refl

-- With the configuration of the environment an alert goes by mail exactly if `ALERT_EMAIL_TO` is
-- set, and to the webhook exactly if `ALERT_WEBHOOK_URL` is, with one and the same time.
pub send_configured :
    (env : Env) (now : ℕ) (a : Alert)
    → send (config_from_env env) now a
      ≡ List.◌++◌
          (if is_empty (env "ALERT_EMAIL_TO") then [] else email (stamped now a) ∷ [])
          (if is_empty (env "ALERT_WEBHOOK_URL") then [] else webhook (stamped now a) ∷ [])
unfolding send config_from_env
send_configured env now a =
    ap₂ List.◌++◌
      (ap (λ b. if not b then email (stamped now a) ∷ [] else [])
          (get_env_empty env "ALERT_EMAIL_TO")
        ∙ if_not (is_empty (env "ALERT_EMAIL_TO")) (email (stamped now a) ∷ []) [])
      (ap (λ b. if not b then webhook (stamped now a) ∷ [] else [])
          (get_env_empty env "ALERT_WEBHOOK_URL")
        ∙ if_not (is_empty (env "ALERT_WEBHOOK_URL")) (webhook (stamped now a) ∷ []) [])

module _ {W : Type 0} (out : Outside W) where
  posted_outcome :
      (url : String) (a : Alert) (o : W × Result ℕ)
      → ((code : ℕ) × (o.1 ≡ ok code) × (posted out url a o ≡ (o.0, ok tt)))
        ⊎ ((e : String) × (o.1 ≡ err e)
            × (posted out url a o ≡ posted_again out (out.post url (generic_payload out a) o.0)))
  unfolding posted
  posted_outcome url a (w, ok code) = inl (code, refl, refl)
  posted_outcome url a (w, err e) = inr (e, refl, refl)

  posted_again_outcome :
      (o : W × Result ℕ)
      → ((code : ℕ) × (o.1 ≡ ok code) × (posted_again out o ≡ (o.0, ok tt)))
        ⊎ ((e : String) × (o.1 ≡ err e) × (posted_again out o ≡ (o.0, err ("webhook: " ++ e))))
  unfolding posted_again
  posted_again_outcome (w, ok code) = inl (code, refl, refl)
  posted_again_outcome (w, err e) = inr (e, refl, refl)

  -- `sendWebhook` posts the Slack form; the plain form is posted exactly if that failed, and the
  -- call fails exactly if both posts do.
  pub send_webhook_outcome :
      (cfg : Config) (a : Alert) (w : W)
      → let (w₁, first) = out.post cfg.webhook_url (slack_payload out a) w in
        let (w₂, second) = out.post cfg.webhook_url (generic_payload out a) w₁ in
        ((code : ℕ) × (first ≡ ok code) × (send_webhook out cfg a w ≡ (w₁, ok tt)))
        ⊎ ((e : String) × (code : ℕ) × (first ≡ err e)
            × (second ≡ ok code)
            × (send_webhook out cfg a w ≡ (w₂, ok tt)))
        ⊎ ((e e' : String) × (first ≡ err e)
            × (second ≡ err e')
            × (send_webhook out cfg a w ≡ (w₂, err ("webhook: " ++ e'))))
  unfolding send_webhook
  send_webhook_outcome cfg a w =
      let url = cfg.webhook_url in
      let slack = out.post url (slack_payload out a) w in
      elim (posted_outcome url a slack) [
        | inl (code, good, result) ↦ inl (code, good, result)
        | inr (e, bad, result) ↦
            elim (posted_again_outcome (out.post url (generic_payload out a) slack.0)) [
              | inl (code, good, result') ↦ inr (inl (e, code, bad, good, result ∙ result'))
              | inr (e', worse, result') ↦ inr (inr (e, e', bad, worse, result ∙ result'))
            ]
      ]
