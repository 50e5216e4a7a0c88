-- ===== src/Log.antt =====
-- internal/logx/logx.go: the levelled log. The output is the text written so far; formatting and the clock
-- are the caller's, and `logf` takes the text of the message and of the time.
pub mod Filter
use hash256_miner.Base.{ℕ, Bool, List, [], ◌∷◌, ◌++◌, Bytes, codes, ltb, if◌then◌else◌}

pub data Level : Type 0 where
  level_debug level_info level_warn level_error : Level

-- The value of the constant.
pub rank : Level → ℕ
rank level_debug = 0
rank level_info = 1
rank level_warn = 2
rank level_error = 3

pub record Logger : Type 0 where
  pub out : Bytes
  pub level : Level

-- `New`
pub new_logger : Bytes → Level → Logger
new_logger out level = record { out = out; level = level }

-- `SetLevel`, on the default logger
pub set_level : Level → Logger → Logger
set_level level l = record l { level = level }

-- The three writes of a line.
pub line : Bytes → Bytes → Bytes → Bytes
line prefix time msg = time ++ b' ' ∷ (prefix ++ b' ' ∷ (msg ++ 10 ∷ []))

pub logf : Level → Bytes → Bytes → Bytes → Logger → Logger
unfolding rank line
logf level prefix time msg l =
    if ltb (rank level) (rank l.level) then l else record l { out = l.out ++ line prefix time msg }

abbrev pub prefix_of : Level → Bytes
prefix_of level_debug = codes "DEBUG"
prefix_of level_info = codes "INFO "
prefix_of level_warn = codes "WARN "
prefix_of level_error = codes "ERROR"

-- `Debugf`, `Infof`, `Warnf` and `Errorf`
pub log : Level → Bytes → Bytes → Logger → Logger
unfolding logf
log level time msg l = logf level (prefix_of level) time msg l
