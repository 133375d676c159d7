-- ===== src/Logger/Lines.antt =====
-- The sink of src/core/logger.py: what `logger.bind(…).info(…)` writes, and the level of
-- src/core/config.py from which it does.
use pizzaria_api.Prelude.{ℕ, Option, none, List, [], ◌∷◌, leb, if◌then◌else◌}
use pizzaria_api.Prelude.Dict.{Str, Dict, lookup}
use pizzaria_api.Text.{Unicode, codes, upper}
use pizzaria_api.Errors.{Exception}
use pizzaria_api.Logger.{Entries, patch}

-- The levels that `Settings.log_level` names.
pub data Level : Type 0 where
  debug : Level
  info : Level
  warning : Level
  error : Level
  critical : Level

-- The severities of loguru.
unfoldable pub severity : Level → ℕ
severity debug = 10
severity info = 20
severity warning = 30
severity error = 40
severity critical = 50

abbrev pub level_names : Dict Level
level_names =
    (codes "DEBUG", debug)
    ∷ (codes "INFO", info)
    ∷ (codes "WARNING", warning)
    ∷ (codes "ERROR", error)
    ∷ (codes "CRITICAL", critical)
    ∷ []

-- What the environment gives for `log_level`: a text, or a value of another type.
pub data Setting : Type 0 where
  text : Str → Setting
  other : ℕ → Setting

unfoldable pub normalize_log_level : Unicode → Setting → Setting
normalize_log_level u (text v) = text (upper u v)
normalize_log_level u (other n) = other n

-- `log_level: Literal[…]`, once the validator ran
abbrev pub literal_level : Setting → Option Level
literal_level (text v) = lookup v level_names
literal_level (other n) = none

unfoldable pub log_level : Unicode → Setting → Option Level
unfolding normalize_log_level
log_level u v = literal_level (normalize_log_level u v)

-- A line of the log, with what the patcher left of `extra`. Where it has an exception, the sink
-- writes its traceback after it, which loguru fills with the values of variables: that text, which
-- no patcher sees, is left out.
pub record Line : Type 0 where
  pub level : Level
  pub message : Str
  pub extra : Entries
  pub exception : Option Exception

-- What a record that passes the sink's level adds to the lines.
unfoldable pub write : Unicode → Level → Option Str → Line → List Line
unfolding severity patch
write u threshold request_id line =
    if leb (severity threshold) (severity line.level)
    then record line { extra = patch u request_id line.extra } ∷ []
    else []
