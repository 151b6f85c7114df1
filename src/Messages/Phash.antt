-- ===== src/Messages/Phash.antt =====
-- `_phash` of wa/cli.py: the hash over the devices that a message is sent to.
use whatsapp_cli.Common.{ℕ, Bool, true, false, ◌&&◌, List, [], ◌∷◌, ◌++◌, map}
use whatsapp_cli.Common.Tests.{◌==◌, ltb, if◌then◌else◌}
use whatsapp_cli.Common.Lists.{is_empty, take}
use whatsapp_cli.Common.Utf8.{Str, codes, utf8_encode}
use whatsapp_cli.Common.Base64.{b64encode}
use whatsapp_cli.WaBinary.Node.{Jid}
use whatsapp_cli.WaBinary.JidText.{ad_string}
use whatsapp_cli.Noise.Primitives.{Primitives}

-- `s <= t` on texts
unfoldable pub str_le : Str → Str → Bool
str_le [] t = true
str_le (c ∷ s) [] = false
str_le (c ∷ s) (d ∷ t) = let rest = str_le s t in if c == d then rest else ltb c d

-- `sorted`: the texts are placed one by one.
unfoldable pub place_str : Str → List Str → List Str
unfolding str_le
place_str s [] = s ∷ []
place_str s (t ∷ ts) = let rest = place_str s ts in if str_le s t then s ∷ t ∷ ts else t ∷ rest

unfoldable pub sorted : List Str → List Str
unfolding place_str
sorted [] = []
sorted (s ∷ ss) = place_str s (sorted ss)

-- `"".join(texts)`
unfoldable pub concat : List Str → Str
concat [] = []
concat (s ∷ ss) = s ++ concat ss

-- `s.rstrip(c)`
unfoldable pub rstrip : ℕ → Str → Str
rstrip c [] = []
rstrip c (x ∷ s) = let rest = rstrip c s in if is_empty rest && (x == c) then [] else x ∷ rest

unfoldable pub phash : Primitives → List Jid → Str
unfolding sorted concat rstrip
phash p devices =
    let ad_strs = sorted (map ad_string devices) in
    let digest = take 6 (p.sha256 (utf8_encode (concat ad_strs))) in
    codes "2:" ++ rstrip b'=' (b64encode digest)
