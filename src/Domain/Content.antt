-- ===== src/Domain/Content.antt =====
-- app/domain/content.py, content_addressed_key: the object key of a blob.
use Prim.Native.Char.{Char, code}
use Prim.Native.String.{◌++◌ as text_append}
use media_engine.Prelude.{
  ℕ, String, Option, none, some, ◌&&◌, ◌==◌, leb, if◌then◌else◌, Exception, Result, ok, raised, suc,
}

-- The lower case of a hexadecimal digit; no other character has a hexadecimal digit's lower case.
lower_hex : Char → Option Char
lower_hex c =
    if leb b'0' (code c) && leb (code c) b'9'
    then some c
    else if leb b'a' (code c) && leb (code c) b'f'
    then some c
    else if code c == b'A'
    then some "a"
    else if code c == b'B'
    then some "b"
    else if code c == b'C'
    then some "c"
    else if code c == b'D'
    then some "d"
    else if code c == b'E'
    then some "e"
    else if code c == b'F'
    then some "f"
    else none

prepend : Char → Option String → Option String
prepend c none = none
prepend c (some s) = some (String.◌∷◌ c s)

lower_or_none : Option Char → Option String → Option String
unfolding prepend
lower_or_none none rest = none
lower_or_none (some c) rest = prepend c rest

-- `sha256.lower()`, if every character of it is a hexadecimal digit.
unfoldable pub normalized_hex : String → Option String
unfolding lower_hex lower_or_none
normalized_hex String.[] = some ""
normalized_hex (String.◌∷◌ c s) = lower_or_none (lower_hex c) (normalized_hex s)

-- `len(text)`
unfoldable pub text_length : String → ℕ
text_length String.[] = 0
text_length (String.◌∷◌ c s) = suc (text_length s)

-- `text[:2]`
first_two : String → String
first_two (String.◌∷◌ c (String.◌∷◌ d s)) = String.◌∷◌ c (String.◌∷◌ d String.[])
first_two s = s

key_of : Option String → Result String
unfolding first_two text_length
key_of none = raised Exception.value_error
key_of (some normalized) =
    if text_length normalized == 64
    then ok (
        text_append "blobs/sha256/"
          (text_append (first_two normalized) (text_append "/" normalized)))
    else raised Exception.value_error

unfoldable pub content_addressed_key : String → Result String
unfolding key_of normalized_hex
content_addressed_key sha256 = key_of (normalized_hex sha256)
