-- ===== src/Go/Url.antt =====
-- The part of net/url that the program uses to print a URL: the escaping of paths and String.
use fedbox.Prelude.{
  ℕ, ◌+◌, ◌-◌, ◌*◌, ◌/◌, ◌%◌, ◌≡◌, refl, Bool, false, ◌&&◌, ◌||◌, not, Option, none, some, [], ◌∷◌,
  ◌++◌, Text, codes, ◌==◌, text_eq, nat_eq, leb, contains, all, if◌then◌else◌,
}

pub record Url : Type 0 where
  pub scheme : Text
  pub host : Text
  pub path : Text
  pub raw_path : Text
  pub raw_query : Text

abbrev alphanumeric : ℕ → Bool
alphanumeric c =
    (leb b'a' c && leb c b'z') || (leb b'A' c && leb c b'Z') || (leb b'0' c && leb c b'9')

-- shouldEscape in the mode of paths
should_escape : ℕ → Bool
should_escape c = not (alphanumeric c || contains (codes "-_.~$&+,/:;=@") c)

hex_digit : ℕ → ℕ
hex_digit d = if leb d 9 then b'0' + d else b'A' + (d - 10)

escape : Text → Text
unfolding should_escape hex_digit
escape [] = []
escape (c ∷ s) =
    if should_escape c
    then b'%' ∷ hex_digit (c / 16) ∷ hex_digit (c % 16) ∷ escape s
    else c ∷ escape s

-- url.PathEscape: in the mode of one path segment the separators are escaped too.
unfoldable pub path_escape : Text → Text
unfolding should_escape hex_digit
path_escape [] = []
path_escape (c ∷ s) =
    if should_escape c || contains (codes "/;,") c
    then b'%' ∷ hex_digit (c / 16) ∷ hex_digit (c % 16) ∷ path_escape s
    else c ∷ path_escape s

valid_encoded_byte : ℕ → Bool
valid_encoded_byte c = contains (codes "!$&'()*+,;=:@[]%") c || not (should_escape c)

unhex : ℕ → Option ℕ
unhex c =
    if leb b'0' c && leb c b'9'
    then some (c - b'0')
    else if leb b'a' c && leb c b'f'
    then some (c - b'a' + 10)
    else if leb b'A' c && leb c b'F'
    then some (c - b'A' + 10)
    else none

abbrev unhex_pair : Option ℕ → Option ℕ → Option Text → Option Text
unhex_pair (some a) (some b) (some s) = some ((a * 16 + b) ∷ s)
unhex_pair _ _ _ = none

abbrev push_byte : ℕ → Option Text → Option Text
push_byte c none = none
push_byte c (some s) = some (c ∷ s)

abbrev unescape_byte : ℕ → Option Text → Option Text
unescape_byte c rest = if c == b'%' then none else push_byte c rest

unescape : Text → Option Text
unfolding unhex
unescape [] = some []
unescape (c ∷ []) = unescape_byte c (some [])
unescape (c ∷ d ∷ []) = unescape_byte c (unescape (d ∷ []))
unescape (c ∷ d ∷ e ∷ s) =
    let pair = unhex_pair (unhex d) (unhex e) (unescape s) in
    let plain = push_byte c (unescape (d ∷ e ∷ s)) in if c == b'%' then pair else plain

abbrev decodes_to : Option Text → Text → Bool
decodes_to none p = false
decodes_to (some q) p = q == p

-- (*URL).EscapedPath
escaped_path : Text → Text → Text
unfolding escape unescape valid_encoded_byte
escaped_path path raw =
    if not (raw == []) && all valid_encoded_byte raw && decodes_to (unescape raw) path
    then raw
    else if path == codes "*"
    then path
    else escape path

abbrev slash_before : Text → Text → Text
slash_before [] host = []
slash_before (c ∷ s) host = if c == b'/' || host == [] then c ∷ s else b'/' ∷ c ∷ s

-- (*URL).String for a URL with a scheme, whose host needs no escaping
unfoldable pub to_string : Url → Text
unfolding escaped_path
to_string u =
    u.scheme
    ++ (codes "://"
        ++ (u.host
            ++ (slash_before (escaped_path u.path u.raw_path) u.host
                ++ (if u.raw_query == [] then [] else b'?' ∷ u.raw_query))))

-- (*URL).String for a URL with an absolute path only
unfoldable pub request_uri : Text → Text → Text → Text
unfolding escaped_path
request_uri path raw_path raw_query =
    escaped_path path raw_path ++ (if raw_query == [] then [] else b'?' ∷ raw_query)

tests :
    to_string (record {
      scheme = codes "https";
      host = codes "example.com";
      path = codes "/a b";
      raw_path = [];
      raw_query = codes "type=Note";
    })
    ≡ codes "https://example.com/a%20b?type=Note"
unfolding to_string
tests = refl
