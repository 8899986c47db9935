-- ===== src/Agent/Security.antt =====
-- The transports of the server of cmd/server/main.go and of the agent of cmd/agent/main.go.
use btrfs_snapah_pow.Base.{ok}
use btrfs_snapah_pow.Config.{Config}
use btrfs_snapah_pow.Tls
use btrfs_snapah_pow.Tls.{Files, server_tls, client_tls, Mutual}
use btrfs_snapah_pow.Server.Start.{Credentials, insecure, with_tls, fatal}
use btrfs_snapah_pow.Agent
use btrfs_snapah_pow.Agent.{Transport, secure}

module _ {F K B P : Type 0} (files : Files F K B P) where
  -- Credentials of the two sides that understand each other: both without TLS, or a server that wants
  -- a certificate from the pool of the one that the agent presents. A server that does not start is
  -- left out.
  abbrev pub Agree : Credentials (Tls.Config K P) → Transport (Tls.Config K P) → Type 0
  Agree insecure Agent.insecure = Unit
  Agree (with_tls server) (secure client) = Mutual files (ok server) (ok client)
  Agree (fatal e) creds = Unit
  Agree _ _ = ⊥
