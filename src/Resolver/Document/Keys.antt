-- ===== src/Resolver/Document/Keys.antt =====
-- controllers/upstreams_resolver.go: reading a key of a parsed map after it was assigned.
use moat_operator.Base.{some, Text, ◌≡◌, refl, arith}
use moat_operator.Resolver.Document.{Value, Fields, no_fields, more_fields, field, set_field}

pub field-set_field :
    (k : Text) (v w : Value) (fs : Fields)
    → field k fs ≡ some w
    → field k (set_field k v fs) ≡ some v
unfolding field set_field
field-set_field k v w no_fields h = ground arith
field-set_field k v w (more_fields j x fs) h = ground (arith, field-set_field k v w fs)

pub set_field-same :
    (k : Text) (v : Value) (fs : Fields) → field k fs ≡ some v → set_field k v fs ≡ fs
unfolding field set_field
set_field-same k v no_fields h = refl
set_field-same k v (more_fields j x fs) h = ground (arith, set_field-same k v fs)
