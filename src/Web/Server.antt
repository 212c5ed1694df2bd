-- ===== src/Web/Server.antt =====
-- internal/web/server.go: what the handlers work on, and the answers that they give.
use Prim.Native.Char.{Char}
use homelab_homepage.Prelude.{ℕ, String, Bool, ◌&&◌, if◌then◌else◌}
use homelab_homepage.Go.Map.{Map, insert, erase}
use homelab_homepage.Go.Text.{is_some}
use homelab_homepage.Store.Icons.{safe_icon_path}
use homelab_homepage.Store.State.{Store}
use homelab_homepage.Cf.Api.{Api}
use homelab_homepage.Cf.Client.{Client}

pub data Status : Type 0 where
  ok_status no_content bad_request not_found conflict : Status

-- The store, the icon files by id, and the world beyond the Cloudflare client.
pub record Server (api : Api) : Type 0 where
  pub store : Store
  pub icons : Map String
  pub world : api.World

-- `cfg`, the directory of the icons, the client, and `unicode.ToLower` beyond ASCII.
pub record Setup : Type 0 where
  pub domain : String
  pub server_ip : String
  pub icon_dir : String
  pub client : Client
  pub lower : Char → Char

-- What a call draws from outside: `util.NewID()`, `time.Now()`, and whether icon files can be
-- written, and removed.
pub record Draw : Type 0 where
  pub new_id : String
  pub now : ℕ
  pub writable : Bool
  pub removable : Bool

-- `WriteIcon` on the files.
abbrev pub write_icon : Draw → String → String → Map String → Map String
write_icon draw id bytes icons = if draw.writable then insert id bytes icons else icons

-- `DeleteIcon` on the files: an id with no safe path is left, and an error of os.Remove is ignored.
abbrev pub delete_icon : String → Bool → String → Map String → Map String
delete_icon icon_dir removable id icons =
    if is_some (safe_icon_path icon_dir id) && removable then erase id icons else icons
