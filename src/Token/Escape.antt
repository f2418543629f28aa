-- ===== src/Token/Escape.antt =====
-- An encoding without dots, in place of the base64 that auth/token/token.go uses, for the tests.
use eidola.Common.{String, ◌≡◌, refl, Bool, true, false, arith, ◌==◌, if◌then◌else◌}
use Prim.Native.Char.{Char, code}
use eidola.Token.Claims.{has_dot}
use text.Mathlib.TextEquality.{Char-path}

-- A dot is written "%d", and "%" is written "%p".
abbrev percent : Char
percent = "%"

abbrev dot : Char
dot = "."

abbrev escape : Char → String → String
escape c s =
    if code c == b'.'
    then String.◌∷◌ percent (String.◌∷◌ "d" s)
    else if code c == b'%'
    then String.◌∷◌ percent (String.◌∷◌ "p" s)
    else String.◌∷◌ c s

unfoldable pub escaped : String → String
escaped String.[] = ""
escaped (String.◌∷◌ c s) = escape c (escaped s)

-- The first argument says that a "%" has been read.
unfoldable pub restored : Bool → String → String
restored b String.[] = ""
restored false (String.◌∷◌ c s) =
    let rest = restored true s in
    let plain = restored false s in if code c == b'%' then rest else String.◌∷◌ c plain
restored true (String.◌∷◌ c s) =
    let plain = restored false s in String.◌∷◌ (if code c == b'd' then dot else percent) plain

pub escaped-dotless : (s : String) → has_dot (escaped s) ≡ false
unfolding has_dot escaped
escaped-dotless String.[] = refl
escaped-dotless (String.◌∷◌ c s) = ground (arith, escaped-dotless s)

pub restored-escaped : (s : String) → restored false (escaped s) ≡ s
unfolding restored escaped
restored-escaped String.[] = refl
restored-escaped (String.◌∷◌ c s) =
    ground (arith, restored-escaped s, Char-path c dot, Char-path c percent)
