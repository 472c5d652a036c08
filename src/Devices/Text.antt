-- ===== src/Devices/Text.antt =====
-- `str(url).rstrip("/")`.
use Prim.Native.Char.{code}
use Prim.Native.String.{String}
use hilforge.Base.{Bool, true, false, ◌==◌, ◌&&◌, if◌then◌else◌}

abbrev is_empty : String → Bool
is_empty String.[] = true
is_empty (String.◌∷◌ c s) = false

unfoldable pub rstrip_slash : String → String
rstrip_slash String.[] = String.[]
rstrip_slash (String.◌∷◌ c s) =
    let rest = rstrip_slash s in
    if code c == b'/' && is_empty rest then String.[] else String.◌∷◌ c rest
