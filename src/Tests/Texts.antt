-- ===== src/Tests/Texts.antt =====
-- Annotation values and quoted texts.
use moat_operator.Base.{
  true, none, some, [], ◌∷◌, ◌++◌, ◌*◌, ◌^◌, Text, codes, Map, lookup, insert, is_some, ltb,
  if◌then◌else◌, option_or, ◌≡◌, refl, trim_space, ◌==◌,
}
use moat_operator.Routes.{nginx_prefix}
use moat_operator.Routes.Parse.{parse_size, size_unit, last_char}
use moat_operator.Routes.Parse.Size.{IsScaled, size_digits, parse_size_sound}
use moat_operator.Routes.Quote.{quote, decimal}
use moat_operator.Routes.Quote.Decimal.{parse_size-decimal}
use moat_operator.Routes.Quote.Scalar.{scalar_rest, closing-quote}
use moat_operator.Routes.Annotations.{get, parse_annotations}
use moat_operator.Routes.Annotations.Precedence.{parse_annotations-precedence}
use moat_operator.Tests.{is_ascii_print}

two_mebibytes : parse_size (codes "2 m") ≡ some 2097152
unfolding parse_size trim_space
two_mebibytes = refl

parse_size_sound_example :
    IsScaled
      (size_digits (size_unit (last_char (trim_space (codes "2 m")))) (trim_space (codes "2 m")))
      (option_or (size_unit (last_char (trim_space (codes "2 m")))) 1)
      2097152
parse_size_sound_example = parse_size_sound (codes "2 m") 2097152 two_mebibytes

kibibyte : size_unit b'k' ≡ some 1024
unfolding size_unit
kibibyte = refl

parse_size-decimal_example :
    parse_size (decimal 64 ++ b'k' ∷ [])
    ≡ (if ltb (64 * 1024) (2 ^ 64) then some (64 * 1024) else none)
parse_size-decimal_example = parse_size-decimal 64 b'k' 1024 kibibyte

closing-quote_example :
    scalar_rest (quote is_ascii_print (codes "a\"b\nc") ++ codes " # next") ≡ some (codes " # next")
closing-quote_example = closing-quote is_ascii_print (codes "a\"b\nc") (codes " # next")

abbrev annotations : Map Text
annotations =
    (codes "synapse.gen0sec.com/permanent-redirect", codes "https://new.example/")
    ∷ (codes "synapse.gen0sec.com/temporal-redirect", codes "https://other.example/")
    ∷ []

redirect-is_some : is_some (get annotations (codes "permanent-redirect")) ≡ true
unfolding lookup ◌==◌
redirect-is_some = refl

parse_annotations-precedence_example :
    parse_annotations (
      insert
        (nginx_prefix ++ codes "permanent-redirect")
        (codes "https://old.example/")
        annotations)
    ≡ parse_annotations annotations
parse_annotations-precedence_example =
    parse_annotations-precedence (codes "permanent-redirect") (codes "https://old.example/")
      annotations redirect-is_some
