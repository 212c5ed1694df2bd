-- ===== src/Discovery/Signatures/Entry.antt =====
-- internal/discovery/network.go: an entry of the table of signatures. A confidence is in
-- hundredths.
use homelab_homepage.Prelude.{ℕ, String, Bool, ◌||◌, ◌==◌, string_eq}
use homelab_homepage.Go.Text.{contains_text}

-- `matches` gets the header's `Get`, the body and the title.
pub record Signature : Type 0 where
  pub name : String
  pub confidence : ℕ
  pub icon : String
  pub matches : (String → String) → String → String → Bool

unfoldable pub simple_sig : String → ℕ → String → String → String → Signature
simple_sig name conf icon title_match body_match = record {
  name = name;
  confidence = conf;
  icon = icon;
  matches = λ h b t. contains_text t title_match || contains_text b body_match;
}

-- strings.EqualFold(t, "n8n")
unfoldable pub is_n8n : String → Bool
is_n8n t = t == "n8n" || t == "N8n" || t == "n8N" || t == "N8N"
