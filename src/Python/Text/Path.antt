-- ===== src/Python/Text/Path.antt =====
-- `text.lower()` of ASCII text, and `os.path.join` of two parts.
use Prim.Native.Char.{code}
use Prim.Native.String.{slice}
use fast_and_safe_io_memory.Base.{
  String, ◌<>◌, Bool, false, ◌&&◌, ◌||◌, ◌≡◌, refl, ◌+◌, ◌-◌, leb, ◌==◌, ◌=ₛ◌, starts_with,
  if◌then◌else◌,
}

unfoldable pub lower : String → String
lower String.[] = String.[]
lower (String.◌∷◌ c s) =
    let rest = lower s in
    if leb b'A' (code c) && leb (code c) b'Z'
    then slice "abcdefghijklmnopqrstuvwxyz" (code c - b'A') (code c - b'A' + 1) <> rest
    else String.◌∷◌ c rest

ends_in_slash : String → Bool
ends_in_slash String.[] = false
ends_in_slash (String.◌∷◌ c s) = ends_in_slash s || (code c == b'/' && s =ₛ "")

-- an absolute second part replaces the first
unfoldable pub join_path : String → String → String
unfolding ends_in_slash
join_path a b =
    if starts_with b "/" then b else if a =ₛ "" || ends_in_slash a then a <> b else a <> "/" <> b

paths :
    (lower "A-Tput_x" ≡ "a-tput_x")
    × (join_path "out" "a.pdf" ≡ "out/a.pdf")
    × (join_path "out/" "a.pdf" ≡ "out/a.pdf")
    × (join_path "out" "/a.pdf" ≡ "/a.pdf")
unfolding lower join_path
paths = (refl, refl, refl, refl)
