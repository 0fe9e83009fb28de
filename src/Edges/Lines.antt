-- ===== src/Edges/Lines.antt =====
-- controllers/edge_producer.go: the lines of the allow-list, and its document.
use moat_operator.Base.{
  ℕ, zero, suc, Option, List, [], ◌∷◌, ◌++◌, Text, codes, map, length, sort, join, add_once,
  add_all,
}
use moat_operator.Kube.Pods.{Pod}
use moat_operator.Kube.Policies.{LabelSelector, NetworkPolicy, Namespace}
use moat_operator.Edges.{Selector}
use moat_operator.Edges.Walk.{walk_policy_edges}

-- The sets that the callbacks fill.
pub record EdgeSets : Type 0 where
  pub edges : List Text
  pub governed_dst : List Text
  pub governed_src : List Text

abbrev pub edge_line : Text → Text → Text → Text
edge_line src dst port = codes "E " ++ src ++ codes " > " ++ dst ++ codes " : " ++ port

abbrev pub emit_edges : Text → Text → List Text → EdgeSets → EdgeSets
emit_edges src dst ports s = record s { edges = add_all (map (edge_line src dst) ports) s.edges }

abbrev pub mark_dst : Text → EdgeSets → EdgeSets
mark_dst ref s = record s { governed_dst = add_once ref s.governed_dst }

abbrev pub mark_src : Text → EdgeSets → EdgeSets
mark_src ref s = record s { governed_src = add_once ref s.governed_src }

abbrev pub with_newlines : List Text → Text
with_newlines [] = []
with_newlines (l ∷ ls) = l ++ b'\n' ∷ with_newlines ls

abbrev pub first_chars : ℕ → Text → Text
first_chars zero s = []
first_chars (suc n) [] = []
first_chars (suc n) (c ∷ s) = c ∷ first_chars n s

module _ (as_selector : LabelSelector → Option Selector) where
  unfoldable pub edge_sets : List NetworkPolicy → List Pod → List Namespace → EdgeSets
  unfolding walk_policy_edges add_all add_once
  edge_sets nps pods namespaces =
      walk_policy_edges as_selector emit_edges mark_dst mark_src nps pods namespaces
        (record { edges = []; governed_dst = []; governed_src = [] })

  -- The sorted lines, and the number of edges.
  unfoldable pub compute_edge_lines : List NetworkPolicy → List Pod → List Namespace → List Text × ℕ
  unfolding edge_sets
  compute_edge_lines nps pods namespaces =
      let s = edge_sets nps pods namespaces in
      (
        sort (
            s.edges
            ++ map (λ g. codes "G " ++ g) s.governed_dst
            ++ map (λ g. codes "S " ++ g) s.governed_src),
        length s.edges,
      )

  -- The document, its version and the number of edges, with the hex digest of SHA-256.
  unfoldable pub build_edge_doc :
      (Text → Text) → List NetworkPolicy → List Pod → List Namespace → Text × Text × ℕ
  unfolding compute_edge_lines
  build_edge_doc sha256_hex nps pods namespaces =
      let (lines, count) = compute_edge_lines nps pods namespaces in
      (
        codes "# NetworkPolicy-derived declared-edge allow-list\n" ++ with_newlines lines,
        codes "edges-" ++ first_chars 16 (sha256_hex (join (codes "\n") lines)),
        count,
      )
