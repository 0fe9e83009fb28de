-- ===== src/Routes/Annotations/Precedence.antt =====
-- controllers/routes.go: which annotation decides a setting.
use moat_operator.Base.{
  true, false, none, some, [], ◌∷◌, ◌++◌, ◌≡◌, refl, ap₂, arith, Text, ◌==◌, eq_iff, insert,
  lookup-insert, codes, Map, lookup, if◌then◌else◌, is_nil, is_some, option_or, trim_space,
}
use mathlib.Core.Path.{fun_ext}
use moat_operator.Routes.{nginx_prefix}
use moat_operator.Routes.Annotations.{
  get, either_key, redirect_code, pick_redirect, recognised, parse_annotations,
}

-- The trimmed location that an annotation names, "" where it is absent.
abbrev pub location : Map Text → Text → Text
location ann k = trim_space (option_or (either_key ann k) [])

-- `parseAnnotations` takes the permanent redirect where its location is not blank, else the
-- temporal one where its location is not blank, else none; the status is the code annotation of
-- that redirect where it is a uint64, else 301 or 302.
pub parse_annotations-redirect :
    (ann : Map Text)
    → let s = parse_annotations ann in
      let permanent = location ann (codes "permanent-redirect") in
      let temporal = location ann (codes "temporal-redirect") in
      (s.redirect_location ≡ (if is_nil permanent then temporal else permanent))
      × (s.redirect_status ≡ (
          if is_nil permanent
          then (if is_nil temporal
              then none
              else some
                  (redirect_code (get ann) (either_key ann) (codes "temporal-redirect-code") 302))
          else some
              (redirect_code (get ann) (either_key ann) (codes "permanent-redirect-code") 301)))
unfolding parse_annotations
parse_annotations-redirect [] = unfold lookup redirect_code trim_space in (refl, refl)
parse_annotations-redirect (e ∷ ann) =
    unfold recognised pick_redirect in (ground arith, ground arith)

-- Where the synapse key is set, an nginx-compat annotation with the same name changes nothing.
either_key-insert :
    (k j v : Text) (ann : Map Text)
    → is_some (get ann k) ≡ true
    → either_key (insert (nginx_prefix ++ k) v ann) j ≡ either_key ann j
unfolding ◌==◌
either_key-insert k j v ann h = rw (lookup-insert, lookup-insert) (ground (arith, eq_iff k j))

get-insert : (k j v : Text) (ann : Map Text) → get (insert (nginx_prefix ++ k) v ann) j ≡ get ann j
unfolding ◌==◌
get-insert k j v ann = rw lookup-insert

insert-ne-nil : (k v : Text) (ann : Map Text) → is_nil (insert k v ann) ≡ false
unfolding insert
insert-ne-nil k v [] = refl
insert-ne-nil k v ((j, w) ∷ ann) = ground arith

present-ne-nil : (k : Text) (ann : Map Text) → is_some (get ann k) ≡ true → is_nil ann ≡ false
unfolding lookup
present-ne-nil k [] h = cc
present-ne-nil k (e ∷ ann) h = refl

-- Where a synapse annotation is set, the nginx-compat annotation of the same name has no effect
-- on the settings, whether it was there before or not and whatever its value.
pub parse_annotations-precedence :
    (k v : Text) (ann : Map Text)
    → is_some (get ann k) ≡ true
    → parse_annotations (insert (nginx_prefix ++ k) v ann) ≡ parse_annotations ann
unfolding parse_annotations
parse_annotations-precedence k v ann h =
    rw (insert-ne-nil _ v ann, present-ne-nil k ann h)
      (ap₂ recognised (fun_ext λ j. get-insert k j v ann)
        (fun_ext λ j. either_key-insert k j v ann h))
