-- ===== src/Identity/Applied.antt =====
-- controllers/identity_producer.go: a table of identities that follows the deltas.
use moat_operator.Base.{
  true, false, not, ◌&&◌, Option, none, some, List, [], ◌∷◌, Text, codes, Map, lookup, insert,
  lookup-insert, has_key, is_some, ◌==◌, eq_iff, if◌then◌else◌, is_nil, ◌≡◌, refl, sym, ap, subst,
  ◌∙◌, inl, inr, arith, Bool-cases, first_some, seen_in, eq-false_of_ne,
}
use moat_operator.Kube.Pods.{Pod}
use moat_operator.Edges.Stream.{next_seq}
use moat_operator.Relay.{HttpClient, post_delta}
use moat_operator.Identity.{Entry, resolve_identity_entries}
use moat_operator.Identity.Stream.{
  WireEntry, IdentityDelta, IdentityProducer, equal_to, index_entries, wire, is_same,
  changed_entries, removed_ips, delta_to, table_of, flush_delta,
}

-- The table of a consumer.
abbrev pub Table : Type 0
Table = Text → Option WireEntry

unfoldable pub find_entry : Text → List WireEntry → Option WireEntry
find_entry ip [] = none
find_entry ip (e ∷ es) = if e.ip == ip then some e else find_entry ip es

-- A delta puts in its rows and takes out its addresses.
abbrev pub apply_delta : IdentityDelta → Table → Table
apply_delta d held ip =
    first_some (find_entry ip d.upserts) (if seen_in ip d.removes then none else held ip)

-- Each key is there once and is the address of its entry.
abbrev pub IsIndex : Map Entry → Type 0
IsIndex [] = Unit
IsIndex ((ip, e) ∷ m) = (e.ip ≡ ip) × (has_key ip m ≡ false) × IsIndex m

insert-IsIndex : (e : Entry) (m : Map Entry) → IsIndex m → IsIndex (insert e.ip e m)
unfolding insert lookup
insert-IsIndex e [] h = (refl, refl, tt)
insert-IsIndex e ((k, v) ∷ m) (a, b, c) = elim (Bool-cases (k == e.ip)) [
  | inl q ↦ rw q (refl, subst (λ x. has_key x m ≡ false) ((eq_iff k e.ip).0 q) b, c)
  | inr q ↦
      let other : (e.ip == k) ≡ false =
        eq-false_of_ne _ _ (λ x. ground (arith, eq_iff k e.ip, q, sym x)) in
      let read = ap is_some (lookup-insert e.ip k e m) in
      rw q (a, read ∙ (rw other b), insert-IsIndex e m c)
]

index_entries-IsIndex : (es : List Entry) (m : Map Entry) → IsIndex m → IsIndex (index_entries es m)
unfolding index_entries
index_entries-IsIndex [] m h = h
index_entries-IsIndex (e ∷ es) m h = index_entries-IsIndex es _ (insert-IsIndex e m h)

-- The row that a delta sends for an entry of the new table.
abbrev pub sent : Option Entry → Option Entry → Option WireEntry
sent before none = none
sent before (some e) = if is_same before e then none else some (wire e)

find_entry-missing :
    (ip : Text) (index m : Map Entry)
    → IsIndex m
    → has_key ip m ≡ false
    → find_entry ip (changed_entries index m) ≡ none
unfolding find_entry changed_entries lookup
find_entry-missing ip index [] h k = refl
find_entry-missing ip index ((j, e) ∷ m) (a, b, c) k =
    let behind = find_entry-missing ip index m c in
    let other : (j == ip) ≡ false = (ground (arith, k)) in
    let apart : (e.ip == ip) ≡ false = subst (λ x. (x == ip) ≡ false) (sym a) other in
    let rest = behind (ground (arith, k, other)) in
    elim (Bool-cases (is_same (lookup j index) e)) [
      | inl s ↦ rw (s, rest) refl
      | inr s ↦ rw (s, apart, rest) refl
    ]

find_entry-changed :
    (ip : Text) (index m : Map Entry)
    → IsIndex m
    → find_entry ip (changed_entries index m) ≡ sent (lookup ip index) (lookup ip m)
unfolding find_entry changed_entries lookup
find_entry-changed ip index [] h = refl
find_entry-changed ip index ((j, e) ∷ m) (a, b, c) = elim (Bool-cases (j == ip)) [
  | inl q ↦
      let same : j ≡ ip = (eq_iff j ip).0 q in
      let mine : (e.ip == ip) ≡ true = subst (λ x. (x == ip) ≡ true) (sym a) q in
      let gone = find_entry-missing ip index m c (subst (λ x. has_key x m ≡ false) same b) in
      let read : lookup j index ≡ lookup ip index = ap (λ x. lookup x index) same in
      elim (Bool-cases (is_same (lookup ip index) e)) [
        | inl s ↦ rw (read, q, s) gone
        | inr s ↦ rw (read, q, s, mine) refl
      ]
  | inr q ↦
      let behind = find_entry-changed ip index m c in
      let apart : (e.ip == ip) ≡ false = subst (λ x. (x == ip) ≡ false) (sym a) q in
      elim (Bool-cases (is_same (lookup j index) e)) [
        | inl s ↦ rw (s, q) behind
        | inr s ↦ rw (s, q, apart) behind
      ]
]

seen_in-removed :
    (ip : Text) (new_index m : Map Entry)
    → seen_in ip (removed_ips new_index m) ≡ has_key ip m && not (has_key ip new_index)
unfolding seen_in removed_ips lookup
seen_in-removed ip new_index [] = refl
seen_in-removed ip new_index ((j, e) ∷ m) =
    let behind = seen_in-removed ip new_index m in
    let read : (j == ip) ≡ true → has_key j new_index ≡ has_key ip new_index =
      λ q. ap (λ x. has_key x new_index) ((eq_iff j ip).0 q) in
    elim (Bool-cases (j == ip)) [
      | inl q ↦ elim (Bool-cases (has_key j new_index)) [
        | inl k ↦ let there = sym (read q) ∙ k in rw (k, behind, there, q) (ground arith)
        | inr k ↦ let there = sym (read q) ∙ k in rw (k, q, there) (ground arith)
      ]
      | inr q ↦ elim (Bool-cases (has_key j new_index)) [
        | inl k ↦ rw (k, behind, q) refl
        | inr k ↦ rw (k, q, behind) refl
      ]
    ]

abbrev pub row_of : Option Entry → Option WireEntry
row_of none = none
row_of (some e) = some (wire e)

-- The row of an address after a delta: the old row, where the new entry counts as equal.
abbrev pub told : Option Entry → Option Entry → Option WireEntry
told before none = none
told before (some e) = if is_same before e then row_of before else some (wire e)

told-sent :
    (before now : Option Entry)
    → first_some
        (sent before now)
        (if is_some before && not (is_some now) then none else row_of before)
      ≡ told before now
told-sent none none = refl
told-sent (some p) none = refl
told-sent none (some e) = refl
told-sent (some p) (some e) = elim (Bool-cases (equal_to p e)) [
  | inl q ↦ rw q refl
  | inr q ↦ rw q refl
]

module _ (encode : IdentityDelta → Option Text) (sha256_hex : Text → Text)
    (build_identity_mmdb : List Entry → Option Text) where
  abbrev flushed :
      HttpClient → List Pod → IdentityProducer → IdentityProducer × Option IdentityDelta
  flushed client pods r = flush_delta encode sha256_hex build_identity_mmdb client (some pods) r

  abbrev new_table : List Pod → Map Entry
  new_table pods = table_of encode sha256_hex build_identity_mmdb pods

  taken :
      (client : HttpClient) (pods : List Pod) (r : IdentityProducer) (d : IdentityDelta)
      → (flushed client pods r).1 ≡ some d
      → (d ≡ delta_to r (new_table pods))
        × ((flushed client pods r).0 ≡ record r { seq = next_seq r.seq; index = new_table pods })
  unfolding flush_delta
  taken client pods r d h =
      let delta = delta_to r (new_table pods) in
      elim (Bool-cases (is_nil delta.upserts && is_nil delta.removes)) [
        | inl e ↦ let bad = (rw e at h) in absurd (ground (arith, bad))
        | inr e ↦
            elim (Bool-cases
              (post_delta client r.target (codes "/identity/delta") (encode delta))) [
                | inl q ↦ let got = (rw (e, q) at h) in (ground (arith, got), rw (e, q) refl)
                | inr q ↦ let bad = (rw (e, q) at h) in absurd (ground (arith, bad))
              ]
      ]

  table-IsIndex : (pods : List Pod) → IsIndex (new_table pods)
  table-IsIndex pods = index_entries-IsIndex (resolve_identity_entries pods) [] tt

  -- If a consumer holds the rows of the producer's index and the server takes a delta, then the
  -- consumer that applies it has no row for an address that no serving pod holds any more, and for
  -- any other address the row of its new entry, unless that counts as equal to the old one, whose
  -- row then stays; and the producer goes on from the new table and the next sequence number.
  pub flush_delta-applied :
      (client : HttpClient) (pods : List Pod) (r : IdentityProducer) (d : IdentityDelta)
      (held : Table)
      → ((ip : Text) → held ip ≡ row_of (lookup ip r.index))
      → (flush_delta encode sha256_hex build_identity_mmdb client (some pods) r).1 ≡ some d
      → (ip : Text)
      → let new = table_of encode sha256_hex build_identity_mmdb pods in
        let after = (flush_delta encode sha256_hex build_identity_mmdb client (some pods) r).0 in
        (apply_delta d held ip ≡ told (lookup ip r.index) (lookup ip new))
        × (after.index ≡ new)
        × (after.seq ≡ next_seq r.seq)
  flush_delta-applied client pods r d held h e ip =
      let (sent_delta, after) = taken client pods r d e in
      let rows = find_entry-changed ip r.index (new_table pods) (table-IsIndex pods) in
      let gone = seen_in-removed ip (new_table pods) r.index in
      (
        rw (sent_delta, rows, gone, h ip)
            (told-sent (lookup ip r.index) (lookup ip (new_table pods))),
        ap (λ x. x.index) after,
        ap (λ x. x.seq) after,
      )
