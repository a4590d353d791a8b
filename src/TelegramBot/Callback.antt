-- ===== src/TelegramBot/Callback.antt =====
-- telegram_bot/service.py: `access_callback_data` and `parse_access_callback_data`. A text is the
-- list of its code points.
use dc_inventory.Prelude.{
  ℕ, ◌+◌, ◌≡◌, refl, sym, ap, ◌∙◌, ◌↔◌, Bool, true, ◌&&◌, ◌||◌, Option, none, some, List, [], ◌∷◌,
  ◌++◌, arith,
}
use dc_inventory.Prelude.Tests.{◌==◌, ltb, leb, if◌then◌else◌}
use dc_inventory.Prelude.Lists.{length, all}

-- `"access:"`
abbrev pub callback_prefix : List ℕ
callback_prefix = 97 ∷ 99 ∷ 99 ∷ 101 ∷ 115 ∷ 115 ∷ 58 ∷ []

-- `data[len(prefix):]`, where `data.startswith(prefix)`.
unfoldable pub without_prefix : List ℕ → List ℕ → Option (List ℕ)
without_prefix [] text = some text
without_prefix (p ∷ ps) [] = none
without_prefix (p ∷ ps) (c ∷ cs) = let rest = without_prefix ps cs in if p == c then rest else none

abbrev is_between : ℕ → ℕ → ℕ → Bool
is_between low high c = leb low c && leb c high

-- `[A-Za-z0-9_-]`
abbrev pub is_token_char : ℕ → Bool
is_token_char c =
    is_between 65 90 c || is_between 97 122 c || is_between 48 57 c || c == 95 || c == 45

-- `_CALLBACK_TOKEN_PATTERN`
unfoldable pub is_callback_token : List ℕ → Bool
is_callback_token token = all is_token_char token && leb 20 (length token) && leb (length token) 48

abbrev pub if_token : Option (List ℕ) → Option (List ℕ)
if_token none = none
if_token (some token) = if is_callback_token token then some token else none

-- `none` where the source raises InvalidAccessCallbackError.
unfoldable pub parse_access_callback_data : List ℕ → Option (List ℕ)
parse_access_callback_data text = if_token (without_prefix callback_prefix text)

-- The bytes of the UTF-8 encoding of a code point.
abbrev utf8_bytes : ℕ → ℕ
utf8_bytes c = if ltb c 128 then 1 else if ltb c 2048 then 2 else if ltb c 65536 then 3 else 4

unfoldable pub encoded_length : List ℕ → ℕ
encoded_length [] = 0
encoded_length (c ∷ cs) = utf8_bytes c + encoded_length cs

-- `none` where the source raises ValueError.
unfoldable pub access_callback_data : List ℕ → Option (List ℕ)
access_callback_data token =
    let text = callback_prefix ++ token in if ltb 64 (encoded_length text) then none else some text

ascii_length : (cs : List ℕ) → all is_token_char cs ≡ true → encoded_length cs ≡ length cs
unfolding encoded_length
ascii_length [] h = refl
ascii_length (c ∷ cs) h = ground (arith, h, ascii_length cs)

prefix_found : (ps cs token : List ℕ) → without_prefix ps cs ≡ some token → cs ≡ (ps ++ token)
unfolding without_prefix
prefix_found [] cs token h = ground (arith, h)
prefix_found (p ∷ ps) [] token h = ground (arith, h)
prefix_found (p ∷ ps) (c ∷ cs) token h = ground (arith, h, prefix_found ps cs token)

token_found :
    (o : Option (List ℕ)) (token : List ℕ)
    → if_token o ≡ some token
    → (o ≡ some token) × (is_callback_token token ≡ true)
token_found none token h = absurd (ground (arith, h))
token_found (some t) token h = (ground (arith, h), ground (arith, h))

token_fits :
    (token : List ℕ)
    → is_callback_token token ≡ true
    → access_callback_data token ≡ some (callback_prefix ++ token)
unfolding access_callback_data is_callback_token encoded_length
token_fits token h = ground (arith, h, ascii_length token)

parsed_again :
    (text token : List ℕ)
    → access_callback_data token ≡ some text
    → is_callback_token token ≡ true
    → parse_access_callback_data text ≡ some token
unfolding access_callback_data parse_access_callback_data without_prefix
parsed_again text token h t = ground (arith, h, t)

-- The data of a button is parsed to a token exactly when it is the data that is made for this token
-- and the token is of the pattern. So a token of the pattern always fits into the data of a button.
pub parse-access_callback_data :
    (text token : List ℕ)
    → ((parse_access_callback_data text ≡ some token)
        ↔ ((access_callback_data token ≡ some text) × (is_callback_token token ≡ true)))
      × (is_callback_token token ≡ true
          → access_callback_data token ≡ some (callback_prefix ++ token))
unfolding parse_access_callback_data
parse-access_callback_data text token = (
  (
    (λ h.
        let (found, valid) = token_found (without_prefix callback_prefix text) token h in
        (
          token_fits token valid ∙ ap some (sym (prefix_found callback_prefix text token found)),
          valid,
        )),
    (λ h. parsed_again text token h.0 h.1),
  ),
  token_fits token,
)
