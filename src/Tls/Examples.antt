-- ===== src/Tls/Examples.antt =====
-- The three files of a node, as texts.
use btrfs_snapah_pow.Base.{◌≡◌, refl, String, ◌==◌, false, some, ok, err, if◌then◌else◌, not}
use btrfs_snapah_pow.Tls.{Files, Mutual, server_tls, client_tls, certs_exist, server_tls-client_tls}

abbrev toy_files : Files (Unit {0}) String String String
toy_files = record {
  load_x509_key_pair = λ cert key w. if cert == "node.crt" then ok "pair" else err "no such file";
  read_file = λ f w. if f == "ca.crt" then ok "authority" else err "no such file";
  append_certs_from_pem = λ text. some text;
  is_not_exist = λ f w. not (f == "node.crt");
}

one_missing : certs_exist toy_files "node.crt" "node.key" "ca.crt" tt ≡ false
unfolding certs_exist
one_missing = refl

server_tls-client_tls_run :
    Mutual toy_files
      (server_tls toy_files "node.crt" "node.key" "ca.crt" tt)
      (client_tls toy_files "node.crt" "node.key" "ca.crt" tt)
server_tls-client_tls_run = server_tls-client_tls toy_files "node.crt" "node.key" "ca.crt" tt
