-- ===== src/Redis/Client.antt =====
-- The methods of `RedisClient`. The server and redis.asyncio are the record Server; JSON is a
-- parameter; log lines are left out.
use Prim.Native.String.{◌++◌ as ◌<>◌}
use big_x.Base.{ℕ, String, Bool, true, false, not, Option, none, some, leb, ◌==◌, if◌then◌else◌}
use big_x.Base.Exec.{Result, ok, err, Exec, pure, raise, ◌>>=◌, ◌>>◌}
use big_x.Base.Json.{Json}

-- An exception: a `RedisError`, `JSONDecodeError`, or any other.
pub data RedisFault : Type 0 where
  redis_error other_fault : String → RedisFault
  bad_json : RedisFault

-- The operations of redis.asyncio on the state of the server, and the parser of JSON.
pub record Server (W : Type 0) : Type 0 where
  pub ping : Exec RedisFault W Bool
  pub aclose : Exec RedisFault W (Unit {0})
  pub get : String → Exec RedisFault W (Option String)
  pub set : String → String → Option ℕ → Exec RedisFault W (Unit {0})
  pub delete : String → Exec RedisFault W (Unit {0})
  pub exists : String → Exec RedisFault W ℕ
  pub hget : String → String → Exec RedisFault W (Option String)
  pub hset : String → String → String → Exec RedisFault W (Unit {0})
  pub expire : String → ℕ → Exec RedisFault W (Unit {0})
  pub incrby : String → ℕ → Exec RedisFault W ℕ
  pub acquire : String → ℕ → Exec RedisFault W Bool
  pub release : String → Exec RedisFault W (Unit {0})
  pub dumps : Json → String
  pub loads : String → Option Json
  pub lower : String → String

-- `self._client is not None`, and the server.
pub record Link (W : Type 0) : Type 0 where
  pub connected : Bool
  pub world : W

-- A value to store: a dictionary or a list, or what is stored as it is.
pub data Value : Type 0 where
  structured : Json → Value
  plain : String → Value

-- The answer of `check_rate_limit`.
pub record Verdict : Type 0 where
  pub allowed : Bool
  pub current : ℕ
  pub limit : ℕ
  pub window_seconds : ℕ

module _ {W : Type 0} where
  abbrev pub on_server : {A : Type 0} → Exec RedisFault W A → Exec RedisFault (Link W) A
  on_server act c = ((act c.world).0, record c { world = (act c.world).1 })

  -- `except RedisError: return default`
  abbrev pub recovered :
      {A : Type 0} → A → Result RedisFault A → Link W → Result RedisFault A × Link W
  recovered default (err (redis_error e)) c = (ok default, c)
  recovered default r c = (r, c)

  abbrev pub or_else : {A : Type 0} → Exec RedisFault (Link W) A → A → Exec RedisFault (Link W) A
  or_else act default c = recovered default (act c).0 (act c).1

module _ {W : Type 0} (server : Server W) where
  -- `connect`, whose new client stays if something other than a `RedisError` is raised
  abbrev pub pinged : Result RedisFault Bool → Exec RedisFault (Link W) (Unit {0})
  pinged (ok _) c = (ok tt, record c { connected = true })
  pinged (err (redis_error e)) c =
      (do on_server server.aclose; λ d. (err (redis_error e), record d { connected = false }))
        (record c { connected = true })
  pinged (err e) c = (err e, record c { connected = true })

  -- `get_client`
  unfoldable pub get_client : Exec RedisFault (Link W) (Unit {0})
  get_client c =
      if c.connected
      then (ok tt, c)
      else pinged (server.ping c.world).0 (record c { world = (server.ping c.world).1 })

  unfoldable pub health_check : Exec RedisFault (Link W) Bool
  health_check = or_else (do get_client; on_server server.ping) false

  unfoldable pub close : Exec RedisFault (Link W) (Unit {0})
  close c =
      if c.connected
      then (do on_server server.aclose; λ d. (ok tt, record d { connected = false })) c
      else (ok tt, c)

  abbrev pub stored : Value → String
  stored (structured j) = server.dumps j
  stored (plain s) = s

  unfoldable pub set : String → Value → Option ℕ → Exec RedisFault (Link W) Bool
  set key value ttl =
      or_else (do get_client; on_server (server.set key (stored value) ttl); pure true) false

  unfoldable pub get : String → Exec RedisFault (Link W) (Option String)
  get key = or_else (do get_client; on_server (server.get key)) none

  abbrev pub loaded : Option String → Option Json
  loaded none = none
  loaded (some value) = server.loads value

  unfoldable pub get_json : String → Exec RedisFault (Link W) (Option Json)
  get_json key = do value ← get key; pure (loaded value)

  unfoldable pub delete : String → Exec RedisFault (Link W) Bool
  delete key = or_else (do get_client; on_server (server.delete key); pure true) false

  unfoldable pub exists : String → Exec RedisFault (Link W) Bool
  exists key = or_else (do get_client; n ← on_server (server.exists key); pure (not (n == 0))) false

  -- `if ttl: await client.expire(key, ttl)`
  abbrev pub expire_after : String → Option ℕ → Exec RedisFault (Link W) (Unit {0})
  expire_after key none = pure tt
  expire_after key (some ttl) = if ttl == 0 then pure tt else on_server (server.expire key ttl)

  unfoldable pub cache_set : String → String → Value → Option ℕ → Exec RedisFault (Link W) Bool
  cache_set key field value ttl =
      or_else
        (do
          get_client
          on_server (server.hset key field (stored value))
          expire_after key ttl
          pure true)
        false

  abbrev pub cached : Option String → Option Value
  cached none = none
  cached (some value) = elim (server.loads value) [
    | none ↦ some (plain value)
    | some j ↦ some (structured j)
  ]

  unfoldable pub cache_get : String → String → Exec RedisFault (Link W) (Option Value)
  cache_get key field =
      or_else (do get_client; value ← on_server (server.hget key field); pure (cached value)) none

  unfoldable pub create_session : String → Json → Option ℕ → Exec RedisFault (Link W) Bool
  create_session session_id data_ ttl =
      or_else
        (do
          get_client
          on_server (server.set ("session:" <> session_id) (server.dumps data_) ttl)
          pure true)
        false

  -- `json.loads`, whose exception nothing catches here
  abbrev pub session_of : Option String → Exec RedisFault (Link W) (Option Json)
  session_of none = pure none
  session_of (some value) = elim (server.loads value) [
    | none ↦ raise bad_json
    | some j ↦ pure (some j)
  ]

  unfoldable pub get_session : String → Exec RedisFault (Link W) (Option Json)
  get_session session_id =
      or_else
        (do get_client; value ← on_server (server.get ("session:" <> session_id)); session_of value)
        none

  unfoldable pub delete_session : String → Exec RedisFault (Link W) Bool
  delete_session session_id = delete ("session:" <> session_id)

  -- `if ttl and value == amount`
  unfoldable pub increment : String → ℕ → Option ℕ → Exec RedisFault (Link W) ℕ
  increment key amount ttl = do
    get_client
    value ← on_server (server.incrby key amount)
    (if value == amount then expire_after key ttl else pure tt)
    pure value

  unfoldable pub increment_spend : String → ℕ → String → Option ℕ → Exec RedisFault (Link W) ℕ
  increment_spend wallet_address amount period ttl =
      increment ("spend:" <> period <> ":" <> server.lower wallet_address) amount ttl

  unfoldable pub check_rate_limit : String → ℕ → ℕ → Exec RedisFault (Link W) Verdict
  check_rate_limit identifier limit window_seconds = do
    get_client
    current ← on_server (server.incrby ("ratelimit:" <> identifier) 1)
    (if current == 1
        then on_server (server.expire ("ratelimit:" <> identifier) window_seconds)
        else pure tt)
    pure (record {
      allowed = leb current limit;
      current = current;
      limit = limit;
      window_seconds = window_seconds;
    })

  -- `None` where the lock is not acquired in time, and the name of its key otherwise
  unfoldable pub acquire_lock : String → ℕ → Exec RedisFault (Link W) (Option String)
  acquire_lock lock_name timeout = do
    get_client
    acquired ← on_server (server.acquire ("lock:" <> lock_name) timeout)
    pure (if acquired then some ("lock:" <> lock_name) else none)

  unfoldable pub release_lock : Option String → Exec RedisFault (Link W) (Unit {0})
  release_lock none = pure tt
  release_lock (some lock) = or_else (on_server (server.release lock)) tt
