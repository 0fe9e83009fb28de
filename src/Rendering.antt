-- ===== src/Rendering.antt =====
-- `render` of controllers/ingress_controller.go as a whole: the Ingresses, then the Gateway API
-- where it is enabled, then the document.
use moat_operator.Base.{ℕ, Bool, List, Text, if◌then◌else◌, is_nil}
use moat_operator.Kube.{Ingress, Api}
use moat_operator.Kube.GatewayApi.{GatewayApi}
use moat_operator.Routes.{RenderModel}
use moat_operator.Routes.Model.Invariant.{IsWellFormed}
use moat_operator.Routes.Model.Growth.{IsGrowth, IsGrowth-refl}
use moat_operator.Routes.Render.{render_upstreams}
use moat_operator.Routes.Render.V2.{render_upstreams_v2}
use moat_operator.Ingress.{Options, ingress_pass}
use moat_operator.Ingress.Growth.{ingress_pass-IsWellFormed, if-grows}
use moat_operator.Gateways.Program.{render_gateways}
use moat_operator.Gateways.Program.Growth.{render_gateways-grows}

module _ (is_print : ℕ → Bool) (api : Api) (gateways : GatewayApi) (o : Options)
    (gateway_api : Bool) where
  unfoldable pub rendered_model : List Ingress → RenderModel
  unfolding ingress_pass render_gateways
  rendered_model items =
      let m = (ingress_pass is_print api o items).model in
      if gateway_api
      then (render_gateways is_print o.resolution.cluster_domain gateways m).model
      else m

  -- The document that is written: any passthrough host asks for the v2 schema.
  unfoldable pub rendered_document : List Ingress → Text
  unfolding rendered_model
  rendered_document items =
      let m = rendered_model items in
      if is_nil m.passthrough_hosts
      then render_upstreams is_print m
      else render_upstreams_v2 is_print m

  -- The model that a pass renders is well formed, whatever the API server returns, and holds
  -- all that the Ingresses have put in it, with the same values: no object of the Gateway API
  -- takes a route, a passthrough host, a certificate, the ACME address or the sticky flag from
  -- an Ingress.
  pub rendered_model_sound :
      (items : List Ingress)
      → IsWellFormed (rendered_model items)
        × IsGrowth (ingress_pass is_print api o items).model (rendered_model items)
  rendered_model_sound items =
      let m = (ingress_pass is_print api o items).model in
      let grown : IsGrowth m (rendered_model items) =
        unfold rendered_model in
        if-grows gateway_api m _ m
          (render_gateways-grows is_print o.resolution.cluster_domain gateways m)
          (IsGrowth-refl m) in
      (grown.valid (ingress_pass-IsWellFormed is_print api o items), grown)
