-- ===== src/Common/Base64.antt =====
-- `base64.b64encode` of Python's standard library, as text.
use Prim.Native.Nat.{ℕ, ◌+◌, ◌*◌, ◌/◌, ◌%◌}
use mathlib.Core.List.{[], ◌∷◌}
use whatsapp_cli.Common.Tests.{ltb, if◌then◌else◌, ◌==◌}
use whatsapp_cli.Common.Utf8.{Bytes, Str}

-- The character of six bits
unfoldable pub base64_char : ℕ → ℕ
base64_char n =
    if ltb n 26
    then b'A' + n
    else if ltb n 52
    then b'a' + n % 26
    else if ltb n 62
    then b'0' + (n + 8) % 60
    else if n == 62
    then b'+'
    else b'/'

unfoldable pub b64encode : Bytes → Str
unfolding base64_char
b64encode [] = []
b64encode (a ∷ []) = base64_char (a / 4) ∷ base64_char (a % 4 * 16) ∷ b'=' ∷ b'=' ∷ []
b64encode (a ∷ b ∷ []) =
    base64_char (a / 4) ∷ base64_char (a % 4 * 16 + b / 16) ∷ base64_char (b % 16 * 4) ∷ b'=' ∷ []
b64encode (a ∷ b ∷ c ∷ rest) =
    base64_char (a / 4)
    ∷ base64_char (a % 4 * 16 + b / 16)
    ∷ base64_char (b % 16 * 4 + c / 64)
    ∷ base64_char (c % 64)
    ∷ b64encode rest
