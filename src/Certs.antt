-- ===== src/Certs.antt =====
-- controllers/certs.go: the stems under which certificates are projected.
pub mod Projection
pub mod Written
pub mod Steps
pub mod Stems
pub mod Settled
pub mod Paired
use moat_operator.Base.{
  ℕ, Bool, true, false, not, ◌&&◌, ◌||◌, [], ◌∷◌, ◌++◌, Text, codes, leb, eqb, if◌then◌else◌,
  is_nil, has_prefix,
}

-- The characters that a stem keeps.
unfoldable pub is_stem_char : ℕ → Bool
is_stem_char c =
    (leb b'a' c && leb c b'z')
    || (leb b'A' c && leb c b'Z')
    || (leb b'0' c && leb c b'9')
    || eqb c b'.'
    || eqb c b'-'
    || eqb c b'_'

unfoldable pub sanitize_stem : Text → Text
unfolding is_stem_char
sanitize_stem [] = []
sanitize_stem (c ∷ s) = (if is_stem_char c then c else b'_') ∷ sanitize_stem s

-- The stem, and whether it is bound to the host.
unfoldable pub cert_stem : Text → Text → Text → Text × Bool
unfolding sanitize_stem
cert_stem host ns secret =
    if not (is_nil host) && not (has_prefix host (codes "*."))
    then (sanitize_stem host, true)
    else (sanitize_stem (ns ++ codes "-" ++ secret), false)
