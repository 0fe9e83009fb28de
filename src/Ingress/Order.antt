-- ===== src/Ingress/Order.antt =====
-- controllers/ingress_controller.go: the order in which the API server lists the Ingresses.
use moat_operator.Base.{
  ℕ, Bool, true, false, List, ◌≡◌, arith, ap, Permᴰ, sort_by-perm, Has, IsOrder, text_leb_total,
  text_leb_trans, text_leb_antisym, eq_iff,
}
use moat_operator.Kube.{NamespacedName, Ingress, Api}
use moat_operator.Ingress.{
  Options, source_leb, ingress_leb, ingress_key, render_ingresses, new_pass, ingress_pass,
  default_class_is_ours,
}

source_leb_total : (a b : NamespacedName) → source_leb a b ≡ false → source_leb b a ≡ true
unfolding source_leb
source_leb_total a b h = ground (
  arith,
  eq_iff a.namespace b.namespace,
  eq_iff b.namespace a.namespace,
  text_leb_total a.namespace b.namespace,
  text_leb_total a.name b.name,
)

source_leb_trans :
    (a b c : NamespacedName) → source_leb a b ≡ true → source_leb b c ≡ true → source_leb a c ≡ true
unfolding source_leb
source_leb_trans a b c h k = ground (
  arith,
  eq_iff a.namespace b.namespace,
  eq_iff b.namespace c.namespace,
  eq_iff a.namespace c.namespace,
  text_leb_trans a.namespace b.namespace c.namespace,
  text_leb_trans a.name b.name c.name,
  text_leb_antisym a.namespace b.namespace,
)

ingress_leb-IsOrder : IsOrder ingress_leb
ingress_leb-IsOrder = record {
  total = λ a b. source_leb_total (ingress_key a) (ingress_key b);
  trans = λ a b c. source_leb_trans (ingress_key a) (ingress_key b) (ingress_key c);
}

source_leb_antisym :
    (a b : NamespacedName)
    → source_leb a b ≡ true
    → source_leb b a ≡ true
    → (a.namespace ≡ b.namespace) × (a.name ≡ b.name)
unfolding source_leb
source_leb_antisym a b h k = (
  ground (
    arith,
    eq_iff a.namespace b.namespace,
    eq_iff b.namespace a.namespace,
    text_leb_antisym a.namespace b.namespace,
  ),
  ground (
    arith,
    eq_iff a.namespace b.namespace,
    eq_iff b.namespace a.namespace,
    text_leb_antisym a.namespace b.namespace,
    text_leb_antisym a.name b.name,
  ),
)

-- The API server holds one Ingress for a namespace and a name.
abbrev pub IsIdentified : List Ingress → Type 0
IsIdentified items =
    (a b : Ingress)
    → Has a items
    → Has b items
    → a.namespace ≡ b.namespace
    → a.name ≡ b.name
    → a ≡ b

-- Where no two of the listed Ingresses share both namespace and name, a list of the same
-- Ingresses in another order gives the same model and the same notices.
pub ingress_pass-order :
    (is_print : ℕ → Bool) (api : Api) (o : Options) {items others : List Ingress}
    → Permᴰ items others
    → IsIdentified items
    → ingress_pass is_print api o items ≡ ingress_pass is_print api o others
unfolding ingress_pass
ingress_pass-order is_print api o p one =
    ap (λ ings. render_ingresses is_print api o (default_class_is_ours api) ings new_pass)
      (sort_by-perm ingress_leb ingress_leb-IsOrder p (λ a b m n h k.
        let (same, named) = source_leb_antisym (ingress_key a) (ingress_key b) h k in
        one a b m n same named))
