-- ===== src/Domain/Diagnostic.antt =====
-- The bound on diagnostics that the engine publishes (src/domain/error.rs).
pub mod Shape
use wallet_engine.Base.{ℕ, map, take, if◌then◌else◌}
use wallet_engine.Types.Texts.{Text, is_control, trim}

abbrev pub diagnostic_max_chars : ℕ
diagnostic_max_chars = 512

-- The closure of `map`: a control character becomes a space.
unfoldable pub without_control : ℕ → ℕ
without_control c = if is_control c then 32 else c

unfoldable pub bounded_diagnostic : Text → Text
bounded_diagnostic message = trim (take diagnostic_max_chars (map without_control message))
