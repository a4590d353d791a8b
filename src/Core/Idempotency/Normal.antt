-- ===== src/Core/Idempotency/Normal.antt =====
-- core/idempotency.py: what `normalize_idempotency_key` makes of a text.
use dc_inventory.Prelude.{
  ℕ, ◌≡◌, refl, sym, ap, ◌∙◌, ◌↔◌, inl, inr, Bool, true, false, List, [], ◌∷◌, ◌++◌,
}
use mathlib.Core.List.{append-nil}
use dc_inventory.Prelude.Tests.{Bool-cases}
use dc_inventory.Core.Idempotency.{
  Text, is_space, continues, extend, split, join, normalize_idempotency_key,
}

-- A word has a character, and none of its characters is a space.
abbrev NoSpace : Text → Type 0
NoSpace [] = Unit
NoSpace (c ∷ cs) = (is_space c ≡ false) × NoSpace cs

abbrev IsWord : Text → Type 0
IsWord [] = ⊥
IsWord (c ∷ cs) = (is_space c ≡ false) × NoSpace cs

abbrev AreWords : List Text → Type 0
AreWords [] = Unit
AreWords (w ∷ ws) = IsWord w × AreWords ws

IsWord-NoSpace : (w : Text) → IsWord w → NoSpace w
IsWord-NoSpace [] h = absurd h
IsWord-NoSpace (c ∷ cs) h = h

extend-AreWords :
    (b : Bool) (c : ℕ) (ws : List Text)
    → is_space c ≡ false
    → AreWords ws
    → AreWords (extend b c ws)
extend-AreWords true c [] h a = ((h, tt), tt)
extend-AreWords true c (w ∷ ws) h a = ((h, IsWord-NoSpace w a.0), a.1)
extend-AreWords false c ws h a = ((h, tt), a)

split-AreWords : (t : Text) → AreWords (split t)
unfolding split
split-AreWords [] = tt
split-AreWords (c ∷ cs) = elim (Bool-cases (is_space c)) [
  | inl e ↦ rw e (split-AreWords cs)
  | inr e ↦ rw e (extend-AreWords (continues cs) c (split cs) e (split-AreWords cs))
]

-- A word that a space or the end follows is cut off whole.
split-word :
    (w rest : Text) → IsWord w → continues rest ≡ false → split (w ++ rest) ≡ w ∷ split rest
unfolding split
split-word [] rest h e = absurd h
split-word (c ∷ []) rest h e = rw (h.0, e)
split-word (c ∷ d ∷ ds) rest h e =
    rw (h.0, h.1.0) (ap (extend true c) (rw h.1.0 at (split-word (d ∷ ds) rest h.1 e)))

split-join : (ws : List Text) → AreWords ws → split (join ws) ≡ ws
unfolding join
split-join [] h = unfold split in refl
split-join (w ∷ []) h =
    rw (← append-nil w)
      (split-word w [] h.0 refl ∙ unfold split in ap (λ t. t ∷ []) (sym (append-nil w)))
split-join (w ∷ v ∷ ws) h =
    split-word w (32 ∷ join (v ∷ ws)) h.0 (unfold is_space in refl)
    ∙ ap (λ t. w ∷ t) (skip (join (v ∷ ws)) ∙ split-join (v ∷ ws) h.1)
  where
    skip : (t : Text) → split (32 ∷ t) ≡ split t
    skip t = unfold split is_space in refl

-- Normalising keeps the words of a text, a normal text is its own normal form, and two texts have
-- the same normal form exactly when they have the same words.
pub normalize_keeps_words :
    (a b : Text)
    → (split (normalize_idempotency_key a) ≡ split a)
      × (normalize_idempotency_key (normalize_idempotency_key a) ≡ normalize_idempotency_key a)
      × ((normalize_idempotency_key a ≡ normalize_idempotency_key b) ↔ (split a ≡ split b))
unfolding normalize_idempotency_key
normalize_keeps_words a b =
    (kept a, ap join (kept a), ((λ e. sym (kept a) ∙ ap split e ∙ kept b), (λ e. ap join e)))
  where
    kept : (t : Text) → split (join (split t)) ≡ split t
    kept t = split-join (split t) (split-AreWords t)
