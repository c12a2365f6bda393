-- ===== src/Stone/Logging.antt =====
-- apsara/stone/logging/logging.h: a place in the code that logs (`LogInfo`), the macros that decide
-- whether it does, and `Logger`. A call of `AppendLog`, whose code is in the binary, is the message that
-- it is given; the stack trace is a parameter.

pub mod Configured
pub mod Doubling
mod Examples
pub mod Rates
pub mod Sections
pub mod Sinks
pub mod Sampling
use Prim.Native.String.{String}
use recommender.Prelude.{
  ℕ, ◌+◌, ◌*◌, ◌^◌, ◌&&◌, Bool, true, List, [], ◌∷◌, Option, none, some, ltb, leb, ◌==◌,
  if◌then◌else◌,
}
use recommender.Run.{Run, ok, fault, ◌>>=◌}

pub data LogLevel : Type 0 where
  all profile debug info warning error fatal off inherit : LogLevel

-- The number of a level and one, since `LOG_LEVEL_INHERIT` is -1.
abbrev pub rank : LogLevel → ℕ
rank all = 1
rank profile = 101
rank debug = 201
rank info = 301
rank warning = 401
rank error = 501
rank fatal = 601
rank off = 10001
rank inherit = 0

-- A static object of the place that it describes.
pub record LogInfo : Type 0 where
  pub enabled : Bool
  pub stack_trace_enabled : Bool
  pub default_level : LogLevel
  pub level : LogLevel
  pub counter : ℕ
  pub file : String
  pub line : ℕ

unfoldable pub enable : LogInfo → Bool → LogInfo
enable i enabled = record i { enabled = enabled }

unfoldable pub enable_stack_trace : LogInfo → Bool → LogInfo
enable_stack_trace i enabled = record i { stack_trace_enabled = enabled }

unfoldable pub set_level : LogInfo → LogLevel → LogInfo
set_level i level = record i { level = level }

unfoldable pub reset : LogInfo → LogInfo
reset i = record i { enabled = true; level = i.default_level }

-- A value of `int64_t` that is not negative; a larger one overflows, which is undefined.
abbrev pub int64 : ℕ → Run ℕ
int64 n = if ltb n (2 ^ 63) then ok n else fault

-- `++mCounter`, and the new value.
unfoldable pub touch : LogInfo → Run (LogInfo × ℕ)
touch i = do n ← int64 (i.counter + 1); ok (record i { counter = n }, n)

unfoldable pub const_next : ℕ → ℕ → Run ℕ
const_next init_next cur_next = ok init_next

unfoldable pub linear_next : ℕ → ℕ → Run ℕ
linear_next init_next cur_next = int64 (cur_next + init_next)

unfoldable pub double_next : ℕ → ℕ → Run ℕ
double_next init_next cur_next = int64 (cur_next * 2)

-- `__FILE__`, `__FUNCTION__` and `__LINE__`.
pub record Place : Type 0 where
  pub file : String
  pub function : String
  pub line : ℕ

-- What a macro reads of its logger: `GetPath()` and `GetMinLevel()`.
pub record View : Type 0 where
  pub path : String
  pub min_level : LogLevel

-- A call of `AppendLog`: what its builder was given, by `Init` and then field by field, and the level.
pub record Message (F : Type 0) : Type 0 where
  pub path : String
  pub level : LogLevel
  pub place : Place
  pub stack_trace : String
  pub fields : List F
  pub at_level : LogLevel

-- `logger->GetMinLevel() <= sInfo.Level() && sInfo.Enabled() && ThreadLogEnabled()`
unfoldable pub log_enabled : View → LogInfo → Bool → Bool
log_enabled logger i thread_enabled =
    leb (rank logger.min_level) (rank i.level) && (i.enabled && thread_enabled)

-- The local variable `stacktrace`; `trace` is what `StackTrace` prints.
unfoldable pub stacktrace : LogInfo → String → String
stacktrace i trace = if i.stack_trace_enabled then trace else ""

module _ {F : Type 0} (place : Place) where
  -- `builder.Init(…)fields; logger->AppendLog(builder, sInfo.Level())`
  unfoldable pub message : View → LogInfo → String → List F → Message F
  message logger i trace fields = record {
    path = logger.path;
    level = i.level;
    place = place;
    stack_trace = stacktrace i trace;
    fields = fields;
    at_level = i.level;
  }

  -- `STONE_LOG_X_IF`: the calls of `AppendLog`.
  unfoldable pub log_x_if : Bool → View → Bool → String → LogInfo → List F → List (Message F)
  log_x_if condition logger thread_enabled trace i fields =
      if condition && log_enabled logger i thread_enabled
      then message logger i trace fields ∷ []
      else []

  -- `STONE_LOG_X`
  unfoldable pub log_x : View → Bool → String → LogInfo → List F → List (Message F)
  unfolding log_x_if
  log_x logger = log_x_if true logger

-- The static objects of a place that logs a sample: `sInfo`, and `sNext`, which gets its value when the
-- place is first reached.
pub record Site : Type 0 where
  pub s_info : LogInfo
  pub s_next : Option ℕ

abbrev pub next_of : ℕ → Option ℕ → ℕ
next_of init_next none = init_next
next_of init_next (some n) = n

module _ {F : Type 0} (place : Place) (init_next : ℕ) (next_func : ℕ → ℕ → Run ℕ) where
  -- The block under `sLock`, which makes it one step. The fields may use `STONE_LOG_COUNTER`.
  unfoldable pub log_counted : View → String → (ℕ → List F) → Site → Run (Site × List (Message F))
  log_counted logger trace fields s = do
    let next = next_of init_next s.s_next
    (i, n) ← touch s.s_info
    next' ← if n == next then next_func init_next n else ok next
    ok (
      record { s_info = i; s_next = some next' },
      if n == next then message place logger i trace (fields n) ∷ [] else [],
    )

  -- `STONE_LOG_X_SAMPLED`: the static objects after it, and the calls of `AppendLog`.
  unfoldable pub log_x_sampled :
      View → Bool → String → (ℕ → List F) → Site → Run (Site × List (Message F))
  unfolding log_counted
  log_x_sampled logger thread_enabled trace fields s =
      if log_enabled logger s.s_info thread_enabled
      then log_counted logger trace fields s
      else ok (s, [])
