-- ===== src/Redis.antt =====
-- internal/store/redis/presence.go. The client of go-redis, with the server behind it, is a parameter: its
-- commands on a state, each at a time. The model keeps the ones that the store calls.
pub mod Window
pub mod Limiter
mod Examples
use mcphub.Prelude.{
  ℕ, ◌+◌, ◌*◌, Bool, true, false, Option, none, some, [], ◌∷◌, ◌++◌, Text, str, ltb, leb, ◌==◌,
  if◌then◌else◌,
}
use mcphub.Auth.Store.{Result, ok, err, RevocationStore}
use mcphub.Gateway.Catalog.{CatalogCache}
use mcphub.Gateway.Tunnel.{PresenceStore}

-- Incr, Expire, Set with a time to live, SetNX, Get, Exists and Del of the client, with durations in
-- nanoseconds as in Go: what the client sends for one is its own. A value of Get is none where the key is
-- not there. The errors of the connection are `err`.
pub record Client (S : Type 0) : Type 0 where
  pub incr : Text → ℕ → S → Result ℕ × S
  pub expire : Text → ℕ → ℕ → S → S
  pub set : Text → Text → ℕ → ℕ → S → Result (Unit {0}) × S
  pub set_nx : Text → Text → ℕ → ℕ → S → Result Bool × S
  pub get : Text → ℕ → S → Result (Option Text)
  pub exists : Text → ℕ → S → Result ℕ
  pub del : Text → ℕ → S → Result (Unit {0}) × S

unfoldable pub connect_key : Text → Text → Text → Text
connect_key prefix tenant id =
    prefix ++ (str ":connect:" ++ (tenant ++ (str ":" ++ (id ++ str ":heartbeat"))))

unfoldable pub component_key : Text → Text → Text → Text → Text
component_key prefix tenant connect id =
    prefix
    ++ (str ":component:"
        ++ (tenant ++ (str ":" ++ (connect ++ (str ":" ++ (id ++ str ":heartbeat"))))))

unfoldable pub catalog_key : Text → Text → Text → Text
catalog_key prefix tenant component =
    prefix ++ (str ":catalog:" ++ (tenant ++ (str ":" ++ component)))

unfoldable pub catalog_lock_key : Text → Text → Text → Text
catalog_lock_key prefix tenant component =
    prefix ++ (str ":lock:catalog:" ++ (tenant ++ (str ":" ++ component)))

abbrev pub minute : ℕ
minute = 60000000000

abbrev pub revoked_key : Text → Text
revoked_key hash = str "mcphub:token:revoked:" ++ hash

abbrev pub rate_key : Text → Text
rate_key key = str "mcphub:rate:" ++ key

abbrev pub is_there : Result ℕ → Result Bool
is_there (err e) = err e
is_there (ok n) = ok (ltb 0 n)

abbrev pub bytes_of : Result (Option Text) → Result Text
bytes_of (err e) = err e
bytes_of (ok none) = ok []
bytes_of (ok (some v)) = ok v

module _ {S : Type 0} (r : Client S) (now : ℕ) where
  abbrev pub counted : Result ℕ × S → Text → ℕ → ℕ → Result Bool × S
  counted (err e, s) k limit window = (err e, s)
  counted (ok n, s) k limit window =
      (ok (leb n limit), if n == 1 then r.expire k window now s else s)

  -- `Allow`
  unfoldable pub allow : Text → ℕ → ℕ → S → Result Bool × S
  allow key limit window s = counted (r.incr (rate_key key) now s) (rate_key key) limit window

  -- The methods of store.PresenceStore on the heartbeats.
  unfoldable pub set_connect_heartbeat : Text → Text → Text → ℕ → S → Result (Unit {0}) × S
  unfolding connect_key
  set_connect_heartbeat prefix tenant id ttl s =
      r.set (connect_key prefix tenant id) (str "1") ttl now s

  unfoldable pub set_component_heartbeat : Text → Text → Text → Text → ℕ → S → Result (Unit {0}) × S
  unfolding component_key
  set_component_heartbeat prefix tenant connect id ttl s =
      r.set (component_key prefix tenant connect id) (str "1") ttl now s

  unfoldable pub clear_connect : Text → Text → Text → S → Result (Unit {0}) × S
  unfolding connect_key
  clear_connect prefix tenant id s = r.del (connect_key prefix tenant id) now s

  unfoldable pub clear_component : Text → Text → Text → Text → S → Result (Unit {0}) × S
  unfolding component_key
  clear_component prefix tenant connect id s = r.del (component_key prefix tenant connect id) now s

  unfoldable pub connect_online : Text → Text → Text → S → Result Bool
  unfolding connect_key
  connect_online prefix tenant id s = is_there (r.exists (connect_key prefix tenant id) now s)

  unfoldable pub component_online : Text → Text → Text → Text → S → Result Bool
  unfolding component_key
  component_online prefix tenant connect id s =
      is_there (r.exists (component_key prefix tenant connect id) now s)

  unfoldable pub mark_token_revoked : Text → ℕ → S → Result (Unit {0}) × S
  mark_token_revoked hash ttl s =
      r.set (revoked_key hash) (str "1") (if ttl == 0 then minute else ttl) now s

  unfoldable pub token_revoked : Text → S → Result Bool
  token_revoked hash s = is_there (r.exists (revoked_key hash) now s)

  -- The store as device login, and as the refresh of a catalog, see it: the refresh drops the error of
  -- SetCatalog.
  unfoldable pub revocation_store : RevocationStore S
  revocation_store = record {
    mark_token_revoked = mark_token_revoked;
    token_revoked = token_revoked;
  }

  unfoldable pub catalog_cache : Text → CatalogCache S
  unfolding catalog_key catalog_lock_key
  catalog_cache prefix = record {
    get_catalog =
        λ tenant component s. bytes_of (r.get (catalog_key prefix tenant component) now s);
    set_catalog = λ tenant component value ttl s.
        (r.set (catalog_key prefix tenant component) value ttl now s).1;
    try_catalog_lock = λ tenant component ttl s.
        r.set_nx (catalog_lock_key prefix tenant component) (str "1") ttl now s;
  }
