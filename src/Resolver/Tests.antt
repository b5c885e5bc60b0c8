-- ===== src/Resolver/Tests.antt =====
-- A stub resolver only, and a lease file that names a server.
use synctang.Prelude.{[], ◌∷◌, bytes_eq, codes, some, true, if◌then◌else◌}
use synctang.Resolver.{Files, ensure_resolver_at}
use synctang.Resolver.Choice.{Origin, ensure_resolver_at-Origin}

abbrev files : Files
files = record {
  read = λ p.
      if bytes_eq p (codes "lease")
      then some (codes "DNS=10.0.0.1")
      else some (codes "nameserver 127.0.0.53");
  glob = λ p. p ∷ [];
  write = λ c. true;
  is_loopback = λ ip. bytes_eq ip (codes "127.0.0.53");
}

ensure_resolver_at-Origin_example :
    Origin files
      (codes "resolv")
      (codes "run" ∷ [])
      (codes "lease" ∷ [])
      (ensure_resolver_at files (codes "resolv") (codes "run" ∷ []) (codes "lease" ∷ []))
ensure_resolver_at-Origin_example =
    ensure_resolver_at-Origin files (codes "resolv") (codes "run" ∷ []) (codes "lease" ∷ [])
