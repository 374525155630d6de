-- ===== src/Diagnostics/Logging.antt =====
-- The names of the log levels of karo_x2_sdk/diagnostics.py, and which lines `_post_log` of
-- karo_x2_sdk/_internal/robot_impl.py prints where the application has no log handler.
use karo_x2_sdk_python.Prelude.{
  ℕ, ◌<>◌, Bool, true, false, String, if◌then◌else◌, leb, ◌==◌, string_eq,
}
use karo_x2_sdk_python.Diagnostics.{LogLevel}

-- `_LEVELS`
unfoldable pub level_name : LogLevel → String
level_name LogLevel.trace = "Trace"
level_name LogLevel.debug = "Debug"
level_name LogLevel.info = "Info"
level_name LogLevel.warn = "Warn"
level_name LogLevel.error = "Error"
level_name LogLevel.off = "Off"

-- `str(level).lower()`
unfoldable pub lower_name : LogLevel → String
lower_name LogLevel.trace = "trace"
lower_name LogLevel.debug = "debug"
lower_name LogLevel.info = "info"
lower_name LogLevel.warn = "warn"
lower_name LogLevel.error = "error"
lower_name LogLevel.off = "off"

-- `level_order.get(name, 2)`
unfoldable pub level_order : String → ℕ
level_order name =
    if name == "trace"
    then 0
    else if name == "debug"
    then 1
    else if name == "info"
    then 2
    else if name == "warn"
    then 3
    else if name == "error"
    then 4
    else if name == "off"
    then 5
    else 2

-- Whether a line is printed, where `min_level` is the lower case of KARO_SDK_LOG_LEVEL, or "info".
unfoldable pub is_printed : LogLevel → String → Bool
unfolding lower_name level_order
is_printed level min_level = leb (level_order min_level) (level_order (lower_name level))

-- Where a line goes: to the handler of the application, to the error output, or nowhere.
pub data LogTarget : Type 0 where
  to_handler : LogTarget
  to_stderr : String → LogTarget
  dropped : LogTarget

-- `_post_log`; the flag is whether there is a handler.
unfoldable pub post_log : Bool → String → LogLevel → String → LogTarget
unfolding is_printed lower_name
post_log true min_level level msg = to_handler
post_log false min_level level msg =
    if is_printed level min_level
    then to_stderr ("[karo-x2-sdk " <> (lower_name level <> ("] " <> msg)))
    else dropped
