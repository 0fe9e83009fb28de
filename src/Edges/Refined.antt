-- ===== src/Edges/Refined.antt =====
-- controllers/edge_producer.go: a consumer of the deltas that the server took, and what the
-- producer believes that it holds.
use moat_operator.Base.{
  Bool, true, false, not, ◌&&◌, ◌||◌, Option, none, some, List, [], ◌∷◌, Text, codes, is_nil,
  is_some, ◌≡◌, refl, sym, ap, eq_iff, ◌∙◌, ◌⊎◌, inl, inr, arith, seen_in, seen_in_iff, add_all_iff,
  Bool-cases, ◌==◌,
}
use moat_operator.Kube.Policies.{LabelSelector}
use moat_operator.Edges.{Selector}
use moat_operator.Relay.{Request, HttpClient, post_delta, is_success, delta_request}
use moat_operator.Edges.Stream.{
  EdgeDelta, EdgeInputs, Producer, line_set, missing_from, next_seq, delta_to, lines_of,
  flush_delta,
}

-- The lines that a consumer holds.
abbrev pub Held : Type 0
Held = Text → Bool

-- What a consumer does with a delta.
abbrev pub apply_delta : EdgeDelta → Held → Held
apply_delta d held l = seen_in l d.upserts || (held l && not (seen_in l d.removes))

Bool-eq : (a b : Bool) → (a ≡ true → b ≡ true) → (b ≡ true → a ≡ true) → a ≡ b
Bool-eq true b f g = sym (f refl)
Bool-eq false true f g = g refl
Bool-eq false false f g = refl

pub seen_in-line_set : (l : Text) (lines : List Text) → seen_in l (line_set lines) ≡ seen_in l lines
unfolding line_set
seen_in-line_set l lines =
    let (f, g) = add_all_iff lines l [] in
    Bool-eq _ _
      (λ h.
        (seen_in_iff l lines).1
          (elim (f ((seen_in_iff l (line_set lines)).0 h)) [ inl k ↦ k | inr z ↦ elim z [ ] ]))
      (λ h. (seen_in_iff l (line_set lines)).1 (g (inl ((seen_in_iff l lines).0 h))))

seen_in-missing_from :
    (l : Text) (other lines : List Text)
    → seen_in l (missing_from other lines) ≡ seen_in l lines && not (seen_in l other)
unfolding missing_from seen_in
seen_in-missing_from l other [] = refl
seen_in-missing_from l other (m ∷ lines) =
    let behind = seen_in-missing_from l other lines in
    elim (Bool-cases (m == l)) [
      | inl e ↦
          let same : seen_in m other ≡ seen_in l other =
            ap (λ x. seen_in x other) ((eq_iff m l).0 e) in
          elim (Bool-cases (seen_in m other)) [
            | inl q ↦ rw (q, e) (ground (arith, behind, same, q))
            | inr q ↦ rw q (ground (arith, behind, same, q, e))
          ]
      | inr e ↦ elim (Bool-cases (seen_in m other)) [
        | inl q ↦ rw (q, e) (ground (arith, behind))
        | inr q ↦ rw q (ground (arith, behind, e))
      ]
    ]

-- The consumer holds what the producer believes.
abbrev pub Agrees : Producer → Held → Type 0
Agrees r held = (l : Text) → held l ≡ seen_in l r.index

apply_delta-seen :
    (l : Text) (index new_set : List Text)
    → seen_in l (missing_from index new_set)
        || (seen_in l index && not (seen_in l (missing_from new_set index)))
      ≡ seen_in l new_set
apply_delta-seen l index new_set =
    rw (seen_in-missing_from l index new_set, seen_in-missing_from l new_set index)
      (at (seen_in l index) (seen_in l new_set))
  where
    at : (a b : Bool) → (b && not a) || (a && not (a && not b)) ≡ b
    at true true = refl
    at true false = refl
    at false true = refl
    at false false = refl

nil_seen : (l : Text) (xs : List Text) → is_nil xs ≡ true → seen_in l xs ≡ false
unfolding seen_in
nil_seen l [] h = refl
nil_seen l (x ∷ xs) h = ground (arith, h)

-- Where nothing is missing on either side, the sets have the same members.
missing_from-nil :
    (l : Text) (index new_set : List Text)
    → is_nil (missing_from index new_set) && is_nil (missing_from new_set index) ≡ true
    → seen_in l index ≡ seen_in l new_set
missing_from-nil l index new_set h =
    let here = apply_delta-seen l index new_set in
    let a = nil_seen l (missing_from index new_set) in
    let b = nil_seen l (missing_from new_set index) in ground (arith, here, a, b)

module _ (as_selector : LabelSelector → Option Selector) (encode : EdgeDelta → Option Text)
    (sha256_hex : Text → Text) where
  abbrev pub new_set_of : EdgeInputs → List Text
  new_set_of i = line_set (lines_of as_selector encode sha256_hex i)

  abbrev pub unchanged : EdgeInputs → Producer → Bool
  unchanged i r =
      is_nil (missing_from r.index (new_set_of i)) && is_nil (missing_from (new_set_of i) r.index)

  abbrev pub posted : HttpClient → EdgeInputs → Producer → Bool
  posted client i r =
      post_delta client r.target (codes "/policy-edges/delta") (encode (delta_to r (new_set_of i)))

  -- The three ends of a flush over inputs.
  abbrev pub Outcome : HttpClient → EdgeInputs → Producer → Producer × Option EdgeDelta → Type 0
  Outcome client i r out =
      ((out ≡ (r, none)) × (unchanged i r ≡ true))
      ⊎ (((out ≡ (r, none)) × (unchanged i r ≡ false) × (posted client i r ≡ false))
          ⊎ ((out ≡ (
            record r { seq = next_seq r.seq; index = new_set_of i },
            some (delta_to r (new_set_of i)),
          ))
              × (posted client i r ≡ true)))

  pub flush_delta-Outcome :
      (client : HttpClient) (i : EdgeInputs) (r : Producer)
      → Outcome client i r (flush_delta as_selector encode sha256_hex client (some i) r)
  unfolding flush_delta
  flush_delta-Outcome client i r = elim (Bool-cases (unchanged i r)) [
    | inl e ↦ inl (rw e refl, e)
    | inr e ↦ elim (Bool-cases (posted client i r)) [
      | inl q ↦ inr (inr (rw (e, q) refl, q))
      | inr q ↦ inr (inl (rw (e, q) refl, e, q))
    ]
  ]

  pub flush_delta-unread :
      (client : HttpClient) (r : Producer)
      → flush_delta as_selector encode sha256_hex client none r ≡ (r, none)
  unfolding flush_delta
  flush_delta-unread client r = refl

  -- What the consumer holds after a flush.
  abbrev pub after_delta : Option EdgeDelta → Held → Held
  after_delta none held = held
  after_delta (some d) held = apply_delta d held

  abbrev pub IsSynced : Producer × Option EdgeDelta → Held → Type 0
  IsSynced out held = Agrees out.0 (after_delta out.1 held)

  delta-Agrees :
      (r : Producer) (held : Held) (new_set : List Text)
      → Agrees r held
      → (l : Text) → apply_delta (delta_to r new_set) held l ≡ seen_in l new_set
  delta-Agrees r held new_set h l = rw (h l) (apply_delta-seen l r.index new_set)

  pub flush_delta-Agrees :
      (client : HttpClient) (inputs : Option EdgeInputs) (r : Producer) (held : Held)
      → Agrees r held
      → IsSynced (flush_delta as_selector encode sha256_hex client inputs r) held
  flush_delta-Agrees client none r held h = rw (flush_delta-unread client r) h
  flush_delta-Agrees client (some i) r held h = elim (flush_delta-Outcome client i r) [
    | inl (e, _) ↦ rw e h
    | inr (inl (e, _, _)) ↦ rw e h
    | inr (inr (e, _)) ↦ rw e (delta-Agrees r held (new_set_of i) h)
  ]

  -- If the consumer holds what the producer believes, the lists can be read, deltas can be encoded
  -- and the server takes every request, then after a flush the consumer holds exactly the lines
  -- that the policies, pods and namespaces declare, and the producer believes so.
  pub flush_delta-converges :
      (client : HttpClient) (i : EdgeInputs) (r : Producer) (held : Held)
      → ((q : Request) → is_success (client q) ≡ true)
      → ((d : EdgeDelta) → is_some (encode d) ≡ true)
      → Agrees r held
      → (l : Text)
      → let out = flush_delta as_selector encode sha256_hex client (some i) r in
        (after_delta out.1 held l ≡ seen_in l (lines_of as_selector encode sha256_hex i))
        × (seen_in l out.0.index ≡ seen_in l (lines_of as_selector encode sha256_hex i))
  unfolding post_delta
  flush_delta-converges client i r held ok encodes h l =
      let lines = lines_of as_selector encode sha256_hex i in
      let whole = seen_in-line_set l lines in
      elim (flush_delta-Outcome client i r) [
        | inl (e, u) ↦
            let same = missing_from-nil l r.index (new_set_of i) u ∙ whole in
            rw e (h l ∙ same, same)
        | inr (inl (e, u, q)) ↦
            absurd (ground (arith, q, taken (encode (delta_to r (new_set_of i))) (encodes _)))
        | inr (inr (e, q)) ↦ rw e (delta-Agrees r held (new_set_of i) h l ∙ whole, whole)
      ]
    where
      taken :
          (o : Option Text)
          → is_some o ≡ true
          → post_delta client r.target (codes "/policy-edges/delta") o ≡ true
      taken none k = absurd (ground (arith, k))
      taken (some body) k = ok (delta_request r.target (codes "/policy-edges/delta") body)
