-- ===== src/Prelude/Strings.antt =====
-- The methods of a JavaScript string that the services call, on the ASCII letters.
use Prim.Native.Nat.{ℕ, ◌+◌, ◌-◌}
use mathlib.Core.Bool.{Bool, true, false, ◌&&◌, ◌||◌}
use mathlib.Core.List.{[], ◌∷◌, map}
use pft_backend.Prelude.Tests.{leb, ◌==◌, if◌then◌else◌}
use pft_backend.Prelude.Value.{Text}

abbrev upper_code : ℕ → ℕ
upper_code c = if leb b'a' c && leb c b'z' then c - 32 else c

abbrev lower_code : ℕ → ℕ
lower_code c = if leb b'A' c && leb c b'Z' then c + 32 else c

abbrev pub to_upper : Text → Text
to_upper s = map upper_code s

abbrev pub to_lower : Text → Text
to_lower s = map lower_code s

-- `s.startsWith(prefix)`
abbrev pub starts_with : Text → Text → Bool
starts_with s [] = true
starts_with [] (p ∷ ps) = false
starts_with (c ∷ cs) (p ∷ ps) = (c == p) && starts_with cs ps

-- `s.includes(part)`
abbrev pub includes : Text → Text → Bool
includes [] part = starts_with [] part
includes (c ∷ cs) part = starts_with (c ∷ cs) part || includes cs part

-- `s.split(c).pop()`
abbrev pub after_last : ℕ → Text → Text
after_last c [] = []
after_last c (d ∷ ds) =
    let rest = after_last c ds in
    if includes ds (c ∷ []) then rest else if d == c then ds else d ∷ ds
