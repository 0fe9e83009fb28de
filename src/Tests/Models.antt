-- ===== src/Tests/Models.antt =====
-- Render models.
use moat_operator.Base.{
  has_prefix, split, contains_char, sort, trim_space, ◌⊎◌, Bool, true, false, not, ◌&&◌, some, List,
  [], ◌∷◌, Text, codes, lookup, has_key, Bool-cases, is_some, ◌==◌, if◌then◌else◌, ◌≡◌, refl, Permᴰ,
  ap, inl, inr, ◌∙◌, sym, arith, Map, eq_iff, keys, option_or, subst,
}
use moat_operator.Kube.{NamespacedName, Ingress, IngressRule, HttpIngressPath, prefix}
use mathlib.Core.List.Perm
use moat_operator.Routes.{Backend, Paths, RenderModel}
use moat_operator.Routes.Annotations.{no_settings, parse_annotations}
use moat_operator.Routes.Model.{new_render_model, add_route, route_key, route_cfg}
use moat_operator.Routes.Model.Wins.{route_at, add_route-first_wins}
use moat_operator.Routes.Model.Invariant.{IsWellFormed}
use moat_operator.Routes.Model.Growth.{IsGrowth}
use moat_operator.Routes.Render.{render_upstreams}
use moat_operator.Routes.Render.V2.{render_upstreams_v2}
use moat_operator.Routes.Render.Order.{SameMap, SameModel, render-order}
use moat_operator.Endpoints.{backend_servers}
use moat_operator.Routes.Quote.{decimal}
use moat_operator.Routes.Parse.{csv}
use moat_operator.Ingress.{
  ingress_key, path_or_root, is_ours, default_class_is_ours, new_pass, render_ingresses,
  ingress_pass,
}
use moat_operator.Ingress.Growth.{render_ingresses-grows}
use moat_operator.Ingress.Accounted.{ingress_pass-IsAccounted}
use moat_operator.Ingress.Claims.{IsRouted, IsAccounted}
use moat_operator.Ingress.Order.{IsIdentified, ingress_pass-order}
use moat_operator.Gateways.Program.{render_gateways}
use moat_operator.Gateways.Program.Growth.{render_gateways-grows}
use moat_operator.Rendering.{rendered_model, rendered_model_sound}
use moat_operator.Tests.{
  resolution, web_backend, find_service, is_ascii_print, api, options, gateways, shop,
}

abbrev servers : List Backend
servers = record { addr = codes "10.1.0.5:8080"; weight = 0 } ∷ []

rendered_model_sound_example :
    IsWellFormed (rendered_model is_ascii_print api gateways options true (shop (codes "a") ∷ []))
    × IsGrowth
        (ingress_pass is_ascii_print api options (shop (codes "a") ∷ [])).model
        (rendered_model is_ascii_print api gateways options true (shop (codes "a") ∷ []))
rendered_model_sound_example =
    rendered_model_sound is_ascii_print api gateways options true (shop (codes "a") ∷ [])

render_ingresses-grows_example :
    IsGrowth new_render_model
      (render_ingresses is_ascii_print api options false
        (shop (codes "a") ∷ shop (codes "b") ∷ [])
        new_pass).model
render_ingresses-grows_example =
    render_ingresses-grows is_ascii_print api options false
      (shop (codes "a") ∷ shop (codes "b") ∷ []) new_pass

abbrev added : RenderModel × Bool
added = add_route (codes "shop.example") (codes "/cart/") servers no_settings [] [] new_render_model

add_route-first_wins_example :
    (added.1 ≡ (
      not (has_key (codes "shop.example") new_render_model.passthrough_hosts)
      && not (
          is_some (route_at (codes "shop.example") (route_key (codes "/cart/")) new_render_model))))
    × ((h k : Text)
        → route_at h k added.0 ≡ (
            if added.1 && (codes "shop.example" == h) && (route_key (codes "/cart/") == k)
            then some (route_cfg servers no_settings [] [] [])
            else route_at h k new_render_model))
    × ((added.1 ≡ true) ⊎ (added.0 ≡ new_render_model))
add_route-first_wins_example =
    add_route-first_wins servers no_settings [] [] (codes "shop.example") (codes "/cart/")
      new_render_model

abbrev source : NamespacedName
source = record { namespace = codes "shop"; name = codes "a" }

render_gateways-grows_example :
    IsGrowth new_render_model (render_gateways is_ascii_print [] gateways new_render_model).model
render_gateways-grows_example = render_gateways-grows is_ascii_print [] gateways new_render_model

-- An Ingress of the same name in another namespace, with an alias.
abbrev aliased : Map Text
aliased = (codes "synapse.gen0sec.com/server-alias", codes "market.example") ∷ []

abbrev other_shop : Ingress
other_shop = record (shop (codes "a")) { namespace = codes "market"; annotations = aliased }

apart : codes "shop" ≡ codes "market" → ⊥
apart h = ground (arith, h)

shops-IsIdentified : IsIdentified (shop (codes "a") ∷ other_shop ∷ [])
shops-IsIdentified x y (inl e) (inl f) h k = e ∙ sym f
shops-IsIdentified x y (inl e) (inr (inl f)) h k =
    absurd (apart (sym (ap (λ i. i.namespace) e) ∙ h ∙ ap (λ i. i.namespace) f))
shops-IsIdentified x y (inr (inl e)) (inl f) h k =
    absurd (apart (sym (ap (λ i. i.namespace) f) ∙ sym h ∙ ap (λ i. i.namespace) e))
shops-IsIdentified x y (inr (inl e)) (inr (inl f)) h k = e ∙ sym f
shops-IsIdentified x y (inl e) (inr (inr g)) h k = elim g [ ]
shops-IsIdentified x y (inr (inl e)) (inr (inr g)) h k = elim g [ ]
shops-IsIdentified x y (inr (inr g)) _ h k = elim g [ ]

ingress_pass-order_example :
    ingress_pass is_ascii_print api options (shop (codes "a") ∷ other_shop ∷ [])
    ≡ ingress_pass is_ascii_print api options (other_shop ∷ shop (codes "a") ∷ [])
ingress_pass-order_example =
    ingress_pass-order is_ascii_print api options (Permᴰ.swap refl refl) shops-IsIdentified

abbrev web_path : HttpIngressPath
web_path = record { path = codes "/"; path_type = some prefix; backend = web_backend }

abbrev web_rule : IngressRule
web_rule = record { host = codes "shop.example"; http = some (web_path ∷ []) }

other_shop-is_ours :
    is_ours options.ingress_class_name other_shop (default_class_is_ours api) ≡ true
unfolding is_ours ◌==◌
other_shop-is_ours = refl

web_path-servers : backend_servers api resolution (codes "market") web_backend ≡ some servers
unfolding backend_servers find_service ◌==◌ sort contains_char decimal
web_path-servers = refl

other_shop-aliases : (parse_annotations aliased).server_aliases ≡ codes "market.example" ∷ []
unfolding parse_annotations ◌==◌ lookup csv trim_space split
other_shop-aliases = refl

other_shop-terminated : (parse_annotations aliased).passthrough ≡ false
unfolding parse_annotations ◌==◌ lookup trim_space
other_shop-terminated = refl

root-IsRouted : IsRouted (parse_annotations aliased) (path_or_root (codes "/"))
unfolding has_prefix
root-IsRouted = inr refl

-- The alias of the second Ingress is accounted for.
ingress_pass-IsAccounted_example :
    IsAccounted is_ascii_print
      (ingress_key other_shop)
      (parse_annotations aliased)
      servers
      (codes "market.example")
      (path_or_root (codes "/"))
      (ingress_pass is_ascii_print api options (shop (codes "a") ∷ other_shop ∷ []))
ingress_pass-IsAccounted_example =
    ingress_pass-IsAccounted is_ascii_print api options (shop (codes "a") ∷ other_shop ∷ [])
      other_shop web_rule (web_path ∷ []) web_path servers (codes "market.example") (inr (inl refl))
      other_shop-is_ours (inl refl) refl (inl refl) refl other_shop-terminated root-IsRouted
      web_path-servers (inr (rw other_shop-aliases (inl refl))) refl

abbrev shop_paths : Paths
shop_paths = (codes "/", route_cfg servers no_settings [] [] []) ∷ []

abbrev hosts_ab : Map Paths
hosts_ab = (codes "a", shop_paths) ∷ (codes "b", []) ∷ []

abbrev hosts_ba : Map Paths
hosts_ba = (codes "b", []) ∷ (codes "a", shop_paths) ∷ []

SameMap-refl : {V : Type 0} (m : Map V) → SameMap m m
SameMap-refl m = record { ranges = Perm.refl (keys m); reads = λ k. refl }

a-lookup : lookup (codes "a") hosts_ab ≡ lookup (codes "a") hosts_ba
unfolding lookup ◌==◌
a-lookup = refl

hosts-lookup : (h : Text) → lookup h hosts_ab ≡ lookup h hosts_ba
unfolding lookup
hosts-lookup h = elim (Bool-cases (codes "a" == h)) [
  | inl e ↦ subst (λ t. lookup t hosts_ab ≡ lookup t hosts_ba) ((eq_iff (codes "a") h).0 e) a-lookup
  | inr n ↦ rw n refl
]

with_hosts : Map Paths → RenderModel
with_hosts hosts = record new_render_model { hosts = hosts }

hosts-SameModel : SameModel (with_hosts hosts_ab) (with_hosts hosts_ba)
unfolding with_hosts
hosts-SameModel = record {
  hosts = ∣ Permᴰ.swap refl refl ∣₁;
  paths = λ h.
      subst (λ o. SameMap (option_or (lookup h hosts_ab) []) (option_or o [])) (hosts-lookup h)
        (SameMap-refl (option_or (lookup h hosts_ab) []));
  acme = refl;
  host_cert = λ h. refl;
  passthrough = SameMap-refl [];
  sticky = refl;
}

render-order_example :
    (render_upstreams is_ascii_print (with_hosts hosts_ab)
      ≡ render_upstreams is_ascii_print (with_hosts hosts_ba))
    × (render_upstreams_v2 is_ascii_print (with_hosts hosts_ab)
        ≡ render_upstreams_v2 is_ascii_print (with_hosts hosts_ba))
render-order_example =
    render-order is_ascii_print (with_hosts hosts_ab) (with_hosts hosts_ba) hosts-SameModel
