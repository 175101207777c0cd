-- ===== src/Access/Tokens.antt =====
-- app/security.py, the tokens of workers and clients, and their splitting by app/services.
use Prim.Native.Char.{Char, code}
use Prim.Native.String.{◌++◌}
use text.Mathlib.TextEquality.{Char-path}
use text.Mathlib.TextLemmas.{nil-append, cons-append}
use media_engine.Prelude.{
  String, Bool, false, Option, none, some, ◌||◌, ◌==◌, not, if◌then◌else◌, ◌≡◌, refl, ap, ◌∙◌,
  arith, ◌=ₛ◌, inl, inr, Bool-cases, Option-cases,
}

abbrev prepend : Char → Option (String × String) → Option (String × String)
prepend c none = none
prepend c (some (a, b)) = some (String.◌∷◌ c a, b)

-- `text.split(separator, 1)`, if it gives two parts.
unfoldable pub split_once : Char → String → Option (String × String)
split_once c String.[] = none
split_once c (String.◌∷◌ d s) =
    let rest = split_once c s in if code d == code c then some (String.[], s) else prepend d rest

unfoldable pub has_char : Char → String → Bool
has_char c String.[] = false
has_char c (String.◌∷◌ d s) = code d == code c || has_char c s

-- `token.split("_", 2)`, if it gives three parts.
unfoldable pub split_token : String → Option (String × String × String)
unfolding split_once
split_token token = elim (split_once "_" token) [
  | none ↦ none
  | some (first, rest) ↦ elim (split_once "_" rest) [
    | none ↦ none
    | some (second, third) ↦ some (first, second, third)
  ]
]

pub record GeneratedToken : Type 0 where
  pub token : String
  pub prefix : String
  pub token_hash : String

-- `f"{tag}_{prefix}_{secret}"`
unfoldable pub token_text : String → String → String → String
token_text tag prefix secret = tag ++ ("_" ++ (prefix ++ ("_" ++ secret)))

-- `hash_api_key` is SHA-256, and the prefix and the secret are drawn at random.
unfoldable pub generate_token : (String → String) → String → String → String → GeneratedToken
unfolding token_text
generate_token hash_api_key tag prefix secret = record {
  token = token_text tag prefix secret;
  prefix = prefix;
  token_hash = hash_api_key (token_text tag prefix secret);
}

-- `_worker_token_parts`: the prefix, and the hash of the whole token.
unfoldable pub worker_token_parts : (String → String) → String → Option (String × String)
unfolding split_token
worker_token_parts hash_api_key token = elim (split_token token) [
  | none ↦ none
  | some (tag, prefix, secret) ↦
      if not (tag =ₛ "mew") || (prefix =ₛ "" || secret =ₛ "")
      then none
      else some (prefix, hash_api_key token)
]

pub split_once-append :
    (c : Char) (a b : String)
    → has_char c a ≡ false
    → split_once c (a ++ String.◌∷◌ c b) ≡ some (a, b)
unfolding split_once has_char
split_once-append c String.[] b h = ground (arith, nil-append (String.◌∷◌ c b))
split_once-append c (String.◌∷◌ d s) b h =
    ground (arith, cons-append d s (String.◌∷◌ c b), split_once-append c s b)

underscore-append : (s : String) → "_" ++ s ≡ String.◌∷◌ "_" s
underscore-append s = cons-append "_" "" s ∙ ap (String.◌∷◌ "_") (nil-append s)

-- A secret may hold separators; the tag and the prefix may not.
pub split_token-text :
    (tag prefix secret : String)
    → has_char "_" tag ≡ false
    → has_char "_" prefix ≡ false
    → split_token (token_text tag prefix secret) ≡ some (tag, prefix, secret)
unfolding split_token token_text
split_token-text tag prefix secret h k =
    rw (underscore-append (prefix ++ ("_" ++ secret)), underscore-append secret)
      (rw (split_once-append "_" tag (prefix ++ String.◌∷◌ "_" secret) h, split_token)
        (rw (split_once-append "_" prefix secret k) refl))

pub worker_token_parts-text :
    (hash_api_key : String → String) (prefix secret : String)
    → has_char "_" prefix ≡ false
    → (prefix =ₛ "") ≡ false
    → (secret =ₛ "") ≡ false
    → worker_token_parts hash_api_key (token_text "mew" prefix secret)
      ≡ some (prefix, hash_api_key (token_text "mew" prefix secret))
unfolding worker_token_parts has_char
worker_token_parts-text hash_api_key prefix secret h p s =
    ground (arith, split_token-text "mew" prefix secret refl h)

-- And what a split gives is what it was joined of.
pub split_once-join :
    (c : Char) (text : String) {a b : String}
    → split_once c text ≡ some (a, b)
    → text ≡ a ++ String.◌∷◌ c b
unfolding split_once
split_once-join c String.[] h = cc
split_once-join c (String.◌∷◌ d s) {a} {b} h = elim (Bool-cases (code d == code c)) [
  | inl hit ↦ ground (arith, nil-append (String.◌∷◌ c b), Char-path d c)
  | inr miss ↦ elim (Option-cases (split_once c s)) [
    | inl n ↦ ground arith
    | inr ((a', b'), e) ↦
        ground (arith, cons-append d a' (String.◌∷◌ c b), split_once-join c s {a = a'} {b = b'} e)
  ]
]
