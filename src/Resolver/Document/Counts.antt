-- ===== src/Resolver/Document/Counts.antt =====
-- controllers/upstreams_resolver.go: a whole document, and the summary of its servers.
use moat_operator.Base.{
  not, map, length, Option, none, some, Text, codes, ◌≡◌, refl, arith, ap, ap₂, ◌∙◌, sym,
}
use moat_operator.Kube.{NamespacedName, Service}
use moat_operator.Resolver.{rewrite_server}
use moat_operator.Resolver.Rewrite.{HasLiteralIp, rewrite_server-idempotent}
use moat_operator.Resolver.Document.Keys.{field-set_field, set_field-same}
use moat_operator.Resolver.Document.Servers.{
  servers_in, as_rewritten, is_resolved, count_if, resolve_hosts-IsPassed,
}
use moat_operator.Resolver.Document.{
  Value, scalar, str, seq, table, Values, no_values, more_values, Fields, no_fields, more_fields,
  Summary, field, set_field, counted, resolve_servers, resolve_path_servers, resolve_path,
  resolve_paths, resolve_host_paths, resolve_host, resolve_hosts, no_summary,
}

module _ (get : NamespacedName → Option Service) (domain ns : Text) (lit : HasLiteralIp get) where
  -- A second pass over what the first one gave returns it, and resolves nothing.
  abbrev IsFixed {ℓ} : {A : Type ℓ} → (A → Summary → A × Summary) → A → Summary → Summary → Type ℓ
  IsFixed pass a s t =
      let r = pass (pass a s).0 t in (r.0 ≡ (pass a s).0) × (r.1.resolved ≡ t.resolved)

  resolve_servers-IsFixed :
      (vs : Values) (s t : Summary) → IsFixed (resolve_servers get domain ns) vs s t
  unfolding resolve_servers
  resolve_servers-IsFixed no_values s t = (refl, refl)
  resolve_servers-IsFixed (more_values (str addr) vs) s t =
      let r = rewrite_server get domain ns addr in
      let again = rewrite_server-idempotent get domain ns lit addr in
      let q = rewrite_server get domain ns r.0 in
      let (e, n) = resolve_servers-IsFixed vs (counted r s) (counted q t) in
      (
        ap₂ (λ a b. more_values (str a) b) (ap (λ x. x.0) again) e,
        n ∙ ap (λ x. (counted x t).resolved) again,
      )
  resolve_servers-IsFixed (more_values (scalar x) vs) s t =
      let (e, n) = resolve_servers-IsFixed vs s t in (ap (more_values (scalar x)) e, n)
  resolve_servers-IsFixed (more_values (seq x) vs) s t =
      let (e, n) = resolve_servers-IsFixed vs s t in (ap (more_values (seq x)) e, n)
  resolve_servers-IsFixed (more_values (table x) vs) s t =
      let (e, n) = resolve_servers-IsFixed vs s t in (ap (more_values (table x)) e, n)

  -- One path, or one host, where its list or map is replaced by what a pass gives.
  replaced-IsFixed :
      {A : Type 0} (k : Text) (wrap : A → Value) (pass : A → Summary → A × Summary) (a : A)
      (fs : Fields) (s t : Summary)
      → field k fs ≡ some (wrap a)
      → IsFixed pass a s t
      → let new = set_field k (wrap (pass a s).0) fs in
        let r = pass (pass a s).0 t in
        (field k new ≡ some (wrap (pass a s).0)) × (set_field k (wrap r.0) new ≡ new)
  replaced-IsFixed k wrap pass a fs s t e (h, n) =
      let there = field-set_field k (wrap (pass a s).0) (wrap a) fs e in
      (there, set_field-same k _ _ (there ∙ ap (λ x. some (wrap x)) (sym h)))

  resolve_path_servers-IsFixed :
      (path : Fields) (o : Option Value) (s t : Summary)
      → field (codes "servers") path ≡ o
      → let r = resolve_path_servers get domain ns path o s in
        let q = resolve_path get domain ns r.0 t in (q.0 ≡ r.0) × (q.1.resolved ≡ t.resolved)
  resolve_path_servers-IsFixed path none s t e = rw e (refl, refl)
  resolve_path_servers-IsFixed path (some (scalar x)) s t e = rw e (refl, refl)
  resolve_path_servers-IsFixed path (some (str x)) s t e = rw e (refl, refl)
  resolve_path_servers-IsFixed path (some (table x)) s t e = rw e (refl, refl)
  resolve_path_servers-IsFixed path (some (seq vs)) s t e =
      let fixed = resolve_servers-IsFixed vs s t in
      let (there, same) =
        replaced-IsFixed (codes "servers") seq (resolve_servers get domain ns) vs path s t e
          fixed in
      rw there (ap table same, fixed.1)

  resolve_path-IsFixed : (v : Value) (s t : Summary) → IsFixed (resolve_path get domain ns) v s t
  resolve_path-IsFixed (scalar x) s t = (refl, refl)
  resolve_path-IsFixed (str x) s t = (refl, refl)
  resolve_path-IsFixed (seq x) s t = (refl, refl)
  resolve_path-IsFixed (table path) s t =
      resolve_path_servers-IsFixed path (field (codes "servers") path) s t refl

  resolve_paths-IsFixed :
      (fs : Fields) (s t : Summary) → IsFixed (resolve_paths get domain ns) fs s t
  unfolding resolve_paths
  resolve_paths-IsFixed no_fields s t = (refl, refl)
  resolve_paths-IsFixed (more_fields k v fs) s t =
      let one = resolve_path get domain ns v s in
      let (e, n) = resolve_path-IsFixed v s t in
      let (f, m) = resolve_paths-IsFixed fs one.1 (resolve_path get domain ns one.0 t).1 in
      (ap₂ (more_fields k) e f, m ∙ n)

  resolve_host_paths-IsFixed :
      (host : Fields) (o : Option Value) (s t : Summary)
      → field (codes "paths") host ≡ o
      → let r = resolve_host_paths get domain ns host o s in
        let q = resolve_host get domain ns r.0 t in (q.0 ≡ r.0) × (q.1.resolved ≡ t.resolved)
  resolve_host_paths-IsFixed host none s t e = rw e (refl, refl)
  resolve_host_paths-IsFixed host (some (scalar x)) s t e = rw e (refl, refl)
  resolve_host_paths-IsFixed host (some (str x)) s t e = rw e (refl, refl)
  resolve_host_paths-IsFixed host (some (seq x)) s t e = rw e (refl, refl)
  resolve_host_paths-IsFixed host (some (table ps)) s t e =
      let fixed = resolve_paths-IsFixed ps s t in
      let (there, same) =
        replaced-IsFixed (codes "paths") table (resolve_paths get domain ns) ps host s t e fixed in
      rw there (ap table same, fixed.1)

  resolve_host-IsFixed : (v : Value) (s t : Summary) → IsFixed (resolve_host get domain ns) v s t
  resolve_host-IsFixed (scalar x) s t = (refl, refl)
  resolve_host-IsFixed (str x) s t = (refl, refl)
  resolve_host-IsFixed (seq x) s t = (refl, refl)
  resolve_host-IsFixed (table host) s t =
      resolve_host_paths-IsFixed host (field (codes "paths") host) s t refl

  resolve_hosts-IsFixed :
      (fs : Fields) (s t : Summary) → IsFixed (resolve_hosts get domain ns) fs s t
  unfolding resolve_hosts
  resolve_hosts-IsFixed no_fields s t = (refl, refl)
  resolve_hosts-IsFixed (more_fields k v fs) s t =
      let one = resolve_host get domain ns v s in
      let (e, n) = resolve_host-IsFixed v s t in
      let (f, m) = resolve_hosts-IsFixed fs one.1 (resolve_host get domain ns one.0 t).1 in
      (ap₂ (more_fields k) e f, m ∙ n)

  -- Where the ClusterIPs are addresses: over the hosts of a document, the servers of the result
  -- are those of the document, in their order, each as `rewriteServer` gives it; the summary
  -- counts each of them once, the total being their number, and each is counted as resolved where
  -- `rewriteServer` says so and as passed through elsewhere; and resolving the resolved hosts
  -- again returns them as they are and resolves nothing.
  pub resolve_hosts-settles :
      (fs : Fields)
      → let ts = servers_in fs in
        let r = resolve_hosts get domain ns fs no_summary in
        let q = resolve_hosts get domain ns r.0 no_summary in
        (servers_in r.0 ≡ map (as_rewritten get domain ns) ts)
        × (r.1.total ≡ length ts)
        × (r.1.resolved ≡ count_if (λ t. is_resolved get domain ns t) ts)
        × (r.1.passthrough ≡ count_if (λ t. not (is_resolved get domain ns t)) ts)
        × (q.0 ≡ r.0)
        × (q.1.resolved ≡ 0)
  resolve_hosts-settles fs =
      let (e, n) = resolve_hosts-IsFixed fs no_summary no_summary in
      let (texts, (total, resolved, passed)) = resolve_hosts-IsPassed get domain ns fs no_summary in
      (texts, omega (arith, total), omega (arith, resolved), omega (arith, passed), e, n)
