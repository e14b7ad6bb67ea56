-- ===== src/Sync/Config.antt =====
-- sync/config.py, from the environment as a dictionary.
use pumo_bio_metric.Prelude.{
  ◌≡◌, refl, Bool, true, false, not, ◌&&◌, [], ◌∷◌, any, if◌then◌else◌, Option, none, some,
}
use pumo_bio_metric.Text.{Text, codes, same, strip, lower, is_empty}
use pumo_bio_metric.Text.Numbers.{ℤ, pos, int}
use pumo_bio_metric.Dict
use pumo_bio_metric.Dict.{Dict}

-- `os.getenv(name, default)`
abbrev pub getenv : Dict Text → Text → Text → Text
getenv env name default = elim (Dict.get env name) [ some v ↦ v | none ↦ default ]

abbrev pub number_or : ℤ → Option ℤ → ℤ
number_or default none = default
number_or default (some n) = n

-- `_int`
unfoldable pub int_setting : Dict Text → Text → ℤ → ℤ
unfolding int strip
int_setting env name default =
    let raw = strip (getenv env name []) in
    if is_empty raw then default else number_or default (int raw)

-- `_bool`
unfoldable pub bool_setting : Dict Text → Text → Bool → Bool
unfolding strip lower any
bool_setting env name default =
    let raw = lower (strip (getenv env name [])) in
    if is_empty raw
    then default
    else any (same raw) (codes "1" ∷ codes "true" ∷ codes "yes" ∷ codes "on" ∷ codes "t" ∷ [])

pub record SyncConfig : Type 0 where
  pub enabled : Bool
  pub host : Text
  pub port : ℤ
  pub name : Text
  pub user : Text
  pub password : Text
  pub sslmode : Text
  pub heartbeat_seconds : ℤ
  pub spool_flush_seconds : ℤ
  pub spool_path : Text

-- `configured`
abbrev pub configured : SyncConfig → Bool
configured c = not (is_empty c.host) && not (is_empty c.name) && not (is_empty c.user)

-- `load_config`
unfoldable pub load_config : Dict Text → SyncConfig
unfolding int_setting bool_setting
load_config env =
    let mode = strip (getenv env (codes "LMS_DB_SSLMODE") (codes "prefer")) in
    record {
      enabled = bool_setting env (codes "LMS_SYNC_ENABLED") true;
      host = strip (getenv env (codes "LMS_DB_HOST") []);
      port = int_setting env (codes "LMS_DB_PORT") (pos 5432);
      name = strip (getenv env (codes "LMS_DB_NAME") []);
      user = strip (getenv env (codes "LMS_DB_USER") []);
      password = getenv env (codes "LMS_DB_PASSWORD") [];
      sslmode = if is_empty mode then codes "prefer" else mode;
      heartbeat_seconds = int_setting env (codes "LMS_SYNC_HEARTBEAT_SECONDS") (pos 60);
      spool_flush_seconds = int_setting env (codes "LMS_SYNC_SPOOL_FLUSH_SECONDS") (pos 60);
      spool_path =
          strip (getenv env (codes "LMS_SYNC_SPOOL") (codes "spool/pending_punches.jsonl"));
    }

config_test :
    (configured (load_config ((codes "LMS_DB_HOST", codes " db ") ∷ [])) ≡ false)
    × ((load_config ((codes "LMS_DB_PORT", codes "x") ∷ [])).port ≡ pos 5432)
    × ((load_config ((codes "LMS_SYNC_ENABLED", codes " Off ") ∷ [])).enabled ≡ false)
unfolding load_config Dict.get same
config_test = (refl, refl, refl)
