-- ===== src/Server/Replies.antt =====
-- The status and the content type of the answers of cmd/server/main.go.
use btrfs_snapah_pow.Base.{◌≡◌, ◌⊎◌, some}
use btrfs_snapah_pow.Http.{Writer, status, sent_header}
use btrfs_snapah_pow.Storage.Gorm.{Gorm}
use btrfs_snapah_pow.Server.Types.{Server}

-- An answer to a wrong method; one to something made or begun, which goes out as plain text; or one
-- that is marked as JSON.
abbrev pub Typed : Writer → Type 0
Typed w =
    (status w ≡ 405)
    ⊎ (((status w ≡ 201) ⊎ (status w ≡ 202))
        × (sent_header "Content-Type" w ≡ some "text/plain; charset=utf-8"))
    ⊎ (sent_header "Content-Type" w ≡ some "application/json")
