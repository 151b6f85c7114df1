-- ===== src/WaBinary/Termination.antt =====
-- `decode_node` of wa/wabinary/decoder.py on every input.
use whatsapp_cli.Common.{◌≢◌}
use whatsapp_cli.Common.Outcome.{Outcome, ok, raise, recursion_error}
use whatsapp_cli.WaBinary.Node.{Node}

-- What never raises RecursionError.
abbrev NoRecursion {ℓ} : {A : Type ℓ} → Outcome A → Type 0
NoRecursion (ok a) = Unit {0}
NoRecursion (raise e) = e ≢ recursion_error
