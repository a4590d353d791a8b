-- ===== src/Core/Idempotency.antt =====
-- backend/app/core/idempotency.py. A text is the list of its code points.
pub mod Normal
use dc_inventory.Prelude.{ℕ, ◌≡◌, refl, arith, Bool, true, false, ◌&&◌, ◌||◌, List, [], ◌∷◌, ◌++◌}
use dc_inventory.Prelude.Tests.{leb, ◌==◌, if◌then◌else◌}

abbrev pub Text : Type 0
Text = List ℕ

-- `==` on texts
unfoldable pub text_eq : Text → Text → Bool
text_eq [] [] = true
text_eq [] (d ∷ ds) = false
text_eq (c ∷ cs) [] = false
text_eq (c ∷ cs) (d ∷ ds) = c == d && text_eq cs ds

-- `str.isspace`, which decides where `str.split` cuts.
unfoldable pub is_space : ℕ → Bool
is_space c =
    (leb 9 c && leb c 13)
    || (leb 28 c && leb c 32)
    || c == 0x85
    || c == 0xA0
    || c == 0x1680
    || (leb 0x2000 c && leb c 0x200A)
    || c == 0x2028
    || c == 0x2029
    || c == 0x202F
    || c == 0x205F
    || c == 0x3000

-- The next character goes on with the word.
abbrev pub continues : Text → Bool
continues [] = false
continues (c ∷ cs) = if is_space c then false else true

abbrev pub extend : Bool → ℕ → List Text → List Text
extend true c (w ∷ ws) = (c ∷ w) ∷ ws
extend true c [] = (c ∷ []) ∷ []
extend false c ws = (c ∷ []) ∷ ws

-- `value.split()`
unfoldable pub split : Text → List Text
split [] = []
split (c ∷ cs) = if is_space c then split cs else extend (continues cs) c (split cs)

-- `" ".join(words)`
unfoldable pub join : List Text → Text
join [] = []
join (w ∷ []) = w
join (w ∷ v ∷ ws) = w ++ (32 ∷ join (v ∷ ws))

unfoldable pub normalize_idempotency_key : Text → Text
normalize_idempotency_key value = join (split value)

pub text_eq_refl : (t : Text) → text_eq t t ≡ true
unfolding text_eq
text_eq_refl [] = refl
text_eq_refl (c ∷ cs) = ground (arith, text_eq_refl cs)

pub text_eq_sound : (s t : Text) → text_eq s t ≡ true → s ≡ t
unfolding text_eq
text_eq_sound [] [] h = refl
text_eq_sound [] (d ∷ ds) h = cc
text_eq_sound (c ∷ cs) [] h = cc
text_eq_sound (c ∷ cs) (d ∷ ds) h = ground (arith, text_eq_sound cs ds)
