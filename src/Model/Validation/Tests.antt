-- ===== src/Model/Validation/Tests.antt =====
-- The validation of concrete profiles.
use codex_hosts.Prelude.{◌≡◌, refl, none, ◌↔◌}
use codex_hosts.Text.{trim}
use codex_hosts.Model.{valid_sudo_username}
use codex_hosts.Model.Samples.{inner}
use codex_hosts.Model.Validation.{
  validation_issue, advanced_issue, sudo_bad, bad_credentials, channels_ok, keepalive_ok,
  timeouts_ok,
}
use codex_hosts.Model.Validation.Sound.{IsValidProfile, validation_issue_iff}

valid : validation_issue inner ≡ none
unfolding validation_issue advanced_issue sudo_bad bad_credentials channels_ok keepalive_ok
    timeouts_ok trim valid_sudo_username
valid = refl

validation_issue_iff_example : (validation_issue inner ≡ none) ↔ IsValidProfile inner
validation_issue_iff_example = validation_issue_iff inner
