-- ===== src/Endpoints/Order.antt =====
-- controllers/endpoints.go: the order in which the slices are listed.
use mathlib.Core.Logic.{∥∥₁_elim}
use mathlib.Core.HLevel.{hedberg}
use mathlib.Core.List.{perm_append_comm}
use mathlib.Core.List.Perm
use moat_operator.Base.{
  ℕ, false, List, [], ◌∷◌, ◌++◌, ◌≡◌, refl, subst, append_assoc, arith, Perm, Permᴰ, Text, sort,
  insert_sorted, sort-perm, texts_discrete, if◌then◌else◌, is_nil,
}
use moat_operator.Kube.{AddressType, ipv4, ipv6, EndpointSlice}
use moat_operator.Endpoints.{
  is_family, addrs_at_port, slice_port, family_addrs, slice_endpoint_addrs,
}

is_nil-insert_sorted : (k : Text) (xs : List Text) → is_nil (insert_sorted k xs) ≡ false
unfolding insert_sorted
is_nil-insert_sorted k [] = refl
is_nil-insert_sorted k (x ∷ xs) = ground arith

is_nil-sort : (xs : List Text) → is_nil (sort xs) ≡ is_nil xs
unfolding sort
is_nil-sort [] = refl
is_nil-sort (x ∷ xs) = is_nil-insert_sorted x (sort xs)

swap_blocks {ℓ} : {A : Type ℓ} (xs ys zs : List A) → Perm (xs ++ (ys ++ zs)) (ys ++ (xs ++ zs))
swap_blocks xs ys zs =
    subst (λ l. Perm l (ys ++ (xs ++ zs))) (append_assoc xs ys zs)
      (subst (λ l. Perm ((xs ++ ys) ++ zs) l) (append_assoc ys xs zs)
        (Perm.append (perm_append_comm xs ys) (Perm.refl zs)))

module _ (port_name : Text) (svc_port : ℕ) where
  abbrev block : AddressType → EndpointSlice → List Text
  block family slice =
      if is_family family slice.address_type
      then addrs_at_port (slice_port slice port_name svc_port) slice.endpoints
      else []

  family_addrs-permᴰ :
      (family : AddressType) {ss ts : List EndpointSlice}
      → Permᴰ ss ts
      → Perm (family_addrs family ss port_name svc_port) (family_addrs family ts port_name svc_port)
  unfolding family_addrs
  family_addrs-permᴰ family Permᴰ.nil = Perm.refl []
  family_addrs-permᴰ family (Permᴰ.cons {a = a} e p) =
      Perm.append
        (subst (λ b. Perm (block family a) (block family b)) e (Perm.refl (block family a)))
        (family_addrs-permᴰ family p)
  family_addrs-permᴰ family (Permᴰ.swap {a = a} {b = b} {l = l} e f) =
      rw (← e, ← f)
        (swap_blocks (block family a) (block family b) (family_addrs family l port_name svc_port))
  family_addrs-permᴰ family (Permᴰ.trans p q) =
      Perm.trans (family_addrs-permᴰ family p) (family_addrs-permᴰ family q)

  slice_endpoint_addrs-permᴰ :
      {ss ts : List EndpointSlice}
      → Permᴰ ss ts
      → slice_endpoint_addrs ss port_name svc_port ≡ slice_endpoint_addrs ts port_name svc_port
  unfolding slice_endpoint_addrs
  slice_endpoint_addrs-permᴰ {ss} {ts} p =
      let v4 = sort-perm (family_addrs-permᴰ ipv4 p) in
      let v6 = sort-perm (family_addrs-permᴰ ipv6 p) in
      ground (
        arith,
        v4,
        v6,
        is_nil-sort (family_addrs ipv4 ss port_name svc_port),
        is_nil-sort (family_addrs ipv4 ts port_name svc_port),
      )

  -- However the API server lists the slices of a Service, the server addresses are the same list.
  pub slice_endpoint_addrs-order :
      {ss ts : List EndpointSlice}
      → Perm ss ts
      → slice_endpoint_addrs ss port_name svc_port ≡ slice_endpoint_addrs ts port_name svc_port
  slice_endpoint_addrs-order {ss} {ts} p =
      ∥∥₁_elim p (hedberg texts_discrete _ _) slice_endpoint_addrs-permᴰ
