-- ===== src/Routes/Quote/Scalar.antt =====
-- Quoted values as their consumer reads them.
use moat_operator.Base.{
  ℕ, zero, suc, ◌/◌, ◌%◌, ◌<◌, Bool, true, false, Option, none, some, [], ◌∷◌, ◌++◌, ◌≡◌, refl,
  arith, ◌∙◌, append_assoc, Text, eqb, if◌then◌else◌,
}
use moat_operator.Routes.Quote.{hex_digit, hex, prints, long_escape, quote_char, quote_body, quote}

-- A reader of a double-quoted scalar, behind the opening quote: what follows the closing one.
-- The flag says that the character before was a backslash that escapes.
unfoldable pub closing : Bool → Text → Option Text
closing escaped [] = none
closing true (c ∷ s) = closing false s
closing false (c ∷ s) = let rest = closing (eqb c b'\\') s in if eqb c b'"' then some s else rest

-- A reader of a double-quoted scalar.
unfoldable pub scalar_rest : Text → Option Text
unfolding closing
scalar_rest [] = none
scalar_rest (c ∷ s) = if eqb c b'"' then closing false s else none

closing-hex_digit : (d : ℕ) (t : Text) → d < 16 → closing false (hex_digit d ∷ t) ≡ closing false t
unfolding closing
closing-hex_digit d t h = ground arith

closing-hex : (w n : ℕ) (t : Text) → closing false (hex w n ++ t) ≡ closing false t
unfolding closing hex
closing-hex zero n t = refl
closing-hex (suc w) n t =
    rw (append_assoc (hex w (n / 16)) (hex_digit (n % 16) ∷ []) t)
      (closing-hex w (n / 16) (hex_digit (n % 16) ∷ t) ∙ closing-hex_digit (n % 16) t (omega arith))

module _ (is_print : ℕ → Bool) where
  closing-long_escape :
      (c : ℕ) (t : Text) → closing true (long_escape is_print c ++ t) ≡ closing false t
  unfolding long_escape closing
  closing-long_escape c t = ground (arith, closing-hex 2 c t, closing-hex 4 c t, closing-hex 8 c t)

  closing-quote_char :
      (c : ℕ) (t : Text) → closing false (quote_char is_print c ++ t) ≡ closing false t
  unfolding quote_char closing prints
  closing-quote_char c t = ground (arith, closing-long_escape c t)

  closing-quote_body : (s t : Text) → closing false (quote_body is_print s ++ b'"' ∷ t) ≡ some t
  unfolding quote_body
  closing-quote_body [] t = unfold closing in refl
  closing-quote_body (c ∷ s) t =
      rw (append_assoc (quote_char is_print c) (quote_body is_print s) (b'"' ∷ t))
        (closing-quote_char c (quote_body is_print s ++ b'"' ∷ t) ∙ closing-quote_body s t)

  -- Whatever a text holds, a reader of its quoted form stops behind the closing quote that
  -- `quote` has put there, and what follows is read on from there.
  pub closing-quote : (s t : Text) → scalar_rest (quote is_print s ++ t) ≡ some t
  unfolding quote scalar_rest
  closing-quote s t =
      rw (append_assoc (quote_body is_print s) (b'"' ∷ []) t) (closing-quote_body s t)
