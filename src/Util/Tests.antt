-- ===== src/Util/Tests.antt =====
-- Subdomains at concrete texts.
use Prim.Native.Char.{Char}
use homelab_homepage.Util.Subdomain.{sanitise_subdomain}
use homelab_homepage.Util.Subdomain.Label.{IsLabel, sanitise_subdomain-IsLabel}

abbrev same_char : Char → Char
same_char c = c

sanitise_subdomain-IsLabel_example : IsLabel (sanitise_subdomain same_char " My_App.2 ")
sanitise_subdomain-IsLabel_example = sanitise_subdomain-IsLabel same_char " My_App.2 "
