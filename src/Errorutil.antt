-- ===== src/Errorutil.antt =====
-- pkg/errorutil: retrying with exponential backoff (retry.go), and `Check` (error.go).
pub mod Retry
use iaa_s_exporter.Prelude.{Option, none, some}
use iaa_s_exporter.Prelude.Result.{Result, ok, fatal}

-- `Check` logs the error and exits; without an error it returns.
unfoldable pub check : {E : Type 0} → Option E → Result E (Unit {0})
check none = ok tt
check (some err) = fatal
