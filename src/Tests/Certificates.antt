-- ===== src/Tests/Certificates.antt =====
-- A certificate that is projected into a directory with stale files.
use moat_operator.Base.{
  true, false, some, [], ◌∷◌, Text, codes, Map, lookup, insert, ◌≡◌, refl, arith, ◌==◌, Option,
  sort,
}
use moat_operator.Kube.{NamespacedName}
use moat_operator.Routes.{RenderModel}
use moat_operator.Routes.Model.{new_render_model}
use moat_operator.ConfigSync.{done, partial, is_content}
use moat_operator.Certs.Projection.{Dir, DirFaults, project_certs, project_stems, start_projecting}
use moat_operator.Certs.Settled.{meant, project_certs-settles}
use moat_operator.Certs.Paired.{IsPaired, project_stems-IsPaired}

abbrev get : NamespacedName → Option (Map Text)
get key = some ((codes "tls.crt", codes "C") ∷ (codes "tls.key", codes "K") ∷ [])

abbrev no_faults : DirFaults
no_faults = record {
  mkdir_fails = false;
  read_dir_fails = false;
  write = λ name. done;
  remove_fails = λ name. false;
}

abbrev model : RenderModel
model = record new_render_model {
  cert_projections =
      (codes "a.com", record { stem = codes "a.com"; ns = codes "shop"; name = codes "tls" }) ∷ [];
}

abbrev dir : Dir
dir = (codes "old.crt", codes "x") ∷ (codes "old.key", codes "y") ∷ []

certs-ok : (project_certs get no_faults model true dir).failed ≡ false
unfolding project_certs sort lookup insert is_content ◌==◌
certs-ok = refl

project_certs-settles_example :
    lookup (codes "old.key") (project_certs get no_faults model true dir).dir
    ≡ meant get no_faults model dir refl (λ n. refl) certs-ok (codes "old.key")
project_certs-settles_example =
    project_certs-settles get no_faults model dir refl (λ n. refl) certs-ok (codes "old.key")

abbrev torn : DirFaults
torn = record no_faults { write = λ name. partial (codes "h") }

no_files-IsPaired : IsPaired []
unfolding lookup
no_files-IsPaired t h = ground (arith, h)

project_stems-IsPaired_example :
    IsPaired (project_stems get torn model (codes "a.com" ∷ []) (start_projecting [])).dir
project_stems-IsPaired_example =
    project_stems-IsPaired get torn model (codes "a.com" ∷ []) (start_projecting [])
      no_files-IsPaired
