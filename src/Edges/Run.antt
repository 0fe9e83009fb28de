-- ===== src/Edges/Run.antt =====
-- controllers/edge_producer.go: the producer over any sequence of flushes and baselines, as `Start`
-- calls them.
use moat_operator.Base.{
  ℕ, true, Option, none, some, List, [], ◌∷◌, Text, codes, is_some, ◌≡◌, refl, sym, ◌⊎◌, inl, inr,
  arith, seen_in, Bool-cases, ◌==◌,
}
use moat_operator.Kube.Policies.{LabelSelector}
use moat_operator.Edges.{Selector}
use moat_operator.Relay.{HttpClient, upload}
use moat_operator.Edges.Stream.{
  EdgeDelta, EdgeInputs, Producer, line_set, next_seq, lines_of, doc_of, flush_delta,
  build_and_upload,
}
use moat_operator.Edges.Refined.{
  Held, apply_delta, Agrees, seen_in-line_set, flush_delta-Agrees, flush_delta-Outcome,
  flush_delta-unread, after_delta,
}

-- What the server took.
pub data Message : Type 0 where
  delta : (changes : EdgeDelta) → Message
  baseline : (lines : List Text) → Message

unfoldable pub consume : List Message → Held → Held
consume [] held = held
consume (delta d ∷ ms) held = consume ms (apply_delta d held)
consume (baseline lines ∷ ms) held = consume ms (λ l. seen_in l lines)

-- What the producer is woken for, with the answers of the server and of the lists.
pub data Event : Type 0 where
  flushed : (client : HttpClient) (inputs : Option EdgeInputs) → Event
  based : (client : HttpClient) (inputs : Option EdgeInputs) → Event

abbrev pub with_delta : Option EdgeDelta → List Message → List Message
with_delta none ms = ms
with_delta (some d) ms = delta d ∷ ms

abbrev pub with_baseline : Option (List Text) → List Message → List Message
with_baseline none ms = ms
with_baseline (some lines) ms = baseline lines ∷ ms

module _ (as_selector : LabelSelector → Option Selector) (encode : EdgeDelta → Option Text)
    (sha256_hex : Text → Text) where
  abbrev pub flush : HttpClient → Option EdgeInputs → Producer → Producer × Option EdgeDelta
  flush client inputs r = flush_delta as_selector encode sha256_hex client inputs r

  abbrev pub rebase : HttpClient → Option EdgeInputs → Producer → Producer × Option (List Text)
  rebase client inputs r = build_and_upload as_selector encode sha256_hex client inputs r

  -- The producer after the events, and what the server took of it.
  unfoldable pub run : List Event → Producer → Producer × List Message
  unfolding flush_delta build_and_upload
  run [] r = (r, [])
  run (flushed client inputs ∷ es) r =
      let out = flush client inputs r in let (q, ms) = run es out.0 in (q, with_delta out.1 ms)
  run (based client inputs ∷ es) r =
      let out = rebase client inputs r in let (q, ms) = run es out.0 in (q, with_baseline out.1 ms)

  -- Every baseline of the run is taken by the server, or made no attempt for want of inputs.
  abbrev pub IsServed : List Event → Producer → Type 0
  IsServed [] r = Unit
  IsServed (flushed client inputs ∷ es) r = IsServed es (flush client inputs r).0
  IsServed (based client inputs ∷ es) r =
      ((inputs ≡ none) ⊎ (is_some (rebase client inputs r).1 ≡ true))
      × IsServed es (rebase client inputs r).0

  consume-with_delta :
      (o : Option EdgeDelta) (ms : List Message) (held : Held)
      → consume (with_delta o ms) held
        ≡ consume ms (after_delta as_selector encode sha256_hex o held)
  unfolding consume
  consume-with_delta none ms held = refl
  consume-with_delta (some d) ms held = refl

  rebase-unread : (client : HttpClient) (r : Producer) → rebase client none r ≡ (r, none)
  unfolding build_and_upload
  rebase-unread client r = refl

  -- The producer after a baseline that leaves its version, and after one that is taken.
  abbrev RebaseOutcome : HttpClient → EdgeInputs → Producer → Producer × Option (List Text) → Type 0
  RebaseOutcome client i r out =
      (out ≡ (record r { index = line_set (lines_of as_selector encode sha256_hex i) }, none))
      ⊎ (out ≡ (
        record r {
          index = line_set (lines_of as_selector encode sha256_hex i);
          last_version = (doc_of as_selector encode sha256_hex i).1;
        },
        some (lines_of as_selector encode sha256_hex i),
      ))

  rebase-RebaseOutcome :
      (client : HttpClient) (i : EdgeInputs) (r : Producer)
      → RebaseOutcome client i r (rebase client (some i) r)
  unfolding build_and_upload
  rebase-RebaseOutcome client i r =
      let (doc, version, edges) = doc_of as_selector encode sha256_hex i in
      elim (Bool-cases (version == r.last_version)) [
        | inl e ↦ inl (rw e refl)
        | inr e ↦
            elim (Bool-cases (
              upload client r.target (codes "/policy-edges/upload") (codes "text/plain") version
                doc)) [ inl q ↦ inr (rw (e, q) refl) | inr q ↦ inl (rw (e, q) refl) ]
      ]

  rebased-Agrees :
      (client : HttpClient) (inputs : Option EdgeInputs) (r : Producer) (ms : List Message)
      (held : Held) (Goal : Held → Type 0)
      → Agrees r held
      → (inputs ≡ none) ⊎ (is_some (rebase client inputs r).1 ≡ true)
      → ((h : Held) → Agrees (rebase client inputs r).0 h → Goal (consume ms h))
      → Goal (consume (with_baseline (rebase client inputs r).1 ms) held)
  unfolding consume
  rebased-Agrees client none r ms held Goal h served go =
      let same = rebase-unread client r in rw same (go held (rw same h))
  rebased-Agrees client (some i) r ms held Goal h served go =
      let lines = lines_of as_selector encode sha256_hex i in
      elim (rebase-RebaseOutcome client i r) [
        | inl e ↦ elim served [
          | inl q ↦ absurd (ground (arith, q))
          | inr q ↦ let u = (rw e at q) in absurd (ground (arith, u))
        ]
        | inr e ↦ rw e (go (λ l. seen_in l lines) (rw e (λ l. sym (seen_in-line_set l lines))))
      ]

  -- If the consumer holds what the producer believes, then after any sequence of flushes and
  -- baselines, whatever the lists and the server answer to the flushes, the consumer that has
  -- followed what the server took holds what the producer believes, provided that the server took
  -- every baseline whose inputs could be read.
  pub run-Agrees :
      (es : List Event) (r : Producer) (held : Held)
      → IsServed es r
      → Agrees r held
      → Agrees (run es r).0 (consume (run es r).1 held)
  unfolding run consume
  run-Agrees [] r held served h = h
  run-Agrees (flushed client inputs ∷ es) r held served h =
      let out = flush client inputs r in
      let next = flush_delta-Agrees as_selector encode sha256_hex client inputs r held h in
      rw (consume-with_delta out.1 (run es out.0).1 held) (run-Agrees es out.0 _ served next)
  run-Agrees (based client inputs ∷ es) r held served h =
      let out = rebase client inputs r in
      rebased-Agrees client inputs r (run es out.0).1 held (Agrees (run es out.0).0) h served.0
        (λ g agrees. run-Agrees es out.0 g served.1 agrees)

  -- Between two sequence numbers the deltas count up by one and carry the epoch.
  abbrev pub IsNumbered : ℕ → ℕ → List Message → ℕ → Type 0
  IsNumbered epoch n [] m = n ≡ m
  IsNumbered epoch n (baseline lines ∷ ms) m = IsNumbered epoch n ms m
  IsNumbered epoch n (delta d ∷ ms) m =
      (d.epoch ≡ epoch) × (d.seq ≡ next_seq n) × IsNumbered epoch d.seq ms m

  flushed-IsNumbered :
      (client : HttpClient) (inputs : Option EdgeInputs) (r : Producer) (ms : List Message) (m : ℕ)
      → IsNumbered (flush client inputs r).0.epoch (flush client inputs r).0.seq ms m
      → IsNumbered r.epoch r.seq (with_delta (flush client inputs r).1 ms) m
  flushed-IsNumbered client none r ms m h =
      let same = flush_delta-unread as_selector encode sha256_hex client r in rw same (rw same at h)
  flushed-IsNumbered client (some i) r ms m h =
      elim (flush_delta-Outcome as_selector encode sha256_hex client i r) [
        | inl (e, _) ↦ rw e (rw e at h)
        | inr (inl (e, _, _)) ↦ rw e (rw e at h)
        | inr (inr (e, _)) ↦ rw e (refl, refl, (rw e at h))
      ]

  rebased-IsNumbered :
      (client : HttpClient) (inputs : Option EdgeInputs) (r : Producer) (ms : List Message) (m : ℕ)
      → IsNumbered (rebase client inputs r).0.epoch (rebase client inputs r).0.seq ms m
      → IsNumbered r.epoch r.seq (with_baseline (rebase client inputs r).1 ms) m
  rebased-IsNumbered client none r ms m h =
      let same = rebase-unread client r in rw same (rw same at h)
  rebased-IsNumbered client (some i) r ms m h = elim (rebase-RebaseOutcome client i r) [
    | inl e ↦ rw e (rw e at h)
    | inr e ↦ rw e (rw e at h)
  ]

  -- Over any sequence of flushes and baselines, whichever fail, the deltas that the server takes
  -- carry the producer's epoch and sequence numbers without a gap, from the one behind the
  -- producer's number before to its number afterwards, modulo 2^64.
  pub run-IsNumbered :
      (es : List Event) (r : Producer) → IsNumbered r.epoch r.seq (run es r).1 (run es r).0.seq
  unfolding run
  run-IsNumbered [] r = refl
  run-IsNumbered (flushed client inputs ∷ es) r =
      flushed-IsNumbered client inputs r _ _ (run-IsNumbered es (flush client inputs r).0)
  run-IsNumbered (based client inputs ∷ es) r =
      rebased-IsNumbered client inputs r _ _ (run-IsNumbered es (rebase client inputs r).0)
