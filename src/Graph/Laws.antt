-- ===== src/Graph/Laws.antt =====
-- The choice of the next node.
use mergecrew.Base.{
  String, Option, none, some, List, [], ◌∷◌, Bool, false, ◌≡◌, ◌≢◌, refl, ap, ◌⊎◌, inl, inr, arith,
  eq_iff, str_eq, Any, here, there, find, Bool-cases, Option-cases, find-Any, find_total, Any-map,
  keep-Any, Any-keep, opt_is_iff,
}
use mergecrew.Graph.{
  GraphDefinition, GraphEdge, choose, target, candidates, from_candidates, find_next_graph_node,
  label_is, unlabelled, signal_match, or_first,
}

-- The edge leaves the node `k` for the node `t`.
abbrev pub Leads : String → String → GraphEdge → Type 0
Leads k t e = (e.from ≡ k) × (e.to ≡ t)

or_first-eq-some :
    (o p : Option GraphEdge) {e : GraphEdge} → or_first o p ≡ some e → (o ≡ some e) ⊎ (p ≡ some e)
or_first-eq-some none p h = inr h
or_first-eq-some (some f) p h = inl h

found-Any :
    (p : GraphEdge → Bool) (es : List GraphEdge) {e : GraphEdge}
    → find p es ≡ some e
    → Any (λ f. f ≡ e) es
found-Any p es h = Any-map (λ f q. q.0) (find-Any p es h)

signal_match-Any :
    (signal : Option String) (es : List GraphEdge) {e : GraphEdge}
    → signal_match signal es ≡ some e
    → Any (λ f. f ≡ e) es
signal_match-Any none es h = ground arith
signal_match-Any (some s) es h = elim (Bool-cases (str_eq s "")) [
  | inl q ↦ ground arith
  | inr q ↦ found-Any (label_is s) es (ground arith)
]

choose-Any :
    (signal : Option String) (es : List GraphEdge) {e : GraphEdge}
    → choose signal es ≡ some e
    → Any (λ f. f ≡ e) es
choose-Any signal es h = elim (or_first-eq-some _ _ h) [
  | inl m ↦ signal_match-Any signal es m
  | inr m ↦ elim (or_first-eq-some _ _ m) [
    | inl d ↦ found-Any unlabelled es d
    | inr a ↦ found-Any (label_is "approve") es a
  ]
]

from_candidates-Any :
    (signal : Option String) (es : List GraphEdge) {t : String}
    → from_candidates signal es ≡ some t
    → Any (λ e. e.to ≡ t) es
from_candidates-Any signal [] h = ground arith
from_candidates-Any signal (e ∷ []) h = here (ground arith)
from_candidates-Any signal (e ∷ f ∷ es) h = elim (Option-cases (choose signal (e ∷ f ∷ es))) [
  | inl q ↦ ground arith
  | inr (g, q) ↦ Any-map (λ x (s : x ≡ g). ground arith) (choose-Any signal (e ∷ f ∷ es) q)
]

pub find_next-Any :
    (def : GraphDefinition) (k : String) (signal : Option String) {t : String}
    → find_next_graph_node def k signal ≡ some t
    → Any (Leads k t) def.edges
unfolding find_next_graph_node
find_next-Any def k signal h =
    Any-map (λ e q. ((eq_iff e.from k).0 q.1, q.0))
      (keep-Any (λ e. str_eq e.from k) def.edges (from_candidates-Any signal _ h))

-- The edge leaves `k` and carries the label `s`.
abbrev pub Labelled : String → String → GraphEdge → Type 0
Labelled k s e = (e.from ≡ k) × (e.when ≡ some s)

choose-signal :
    (s : String) (es : List GraphEdge)
    → s ≢ ""
    → Any (λ e. e.when ≡ some s) es
    → (e : GraphEdge) × (choose (some s) es ≡ some e) × Any (λ f. (f ≡ e) × (f.when ≡ some s)) es
choose-signal s es ne a =
    let (e, found) = find_total (label_is s) es (Any-map (λ f q. (opt_is_iff s f.when).1 q) a) in
    let no_empty : str_eq s "" ≡ false = ground (arith, eq_iff s "") in
    (
      e,
      rw (no_empty, found) refl,
      Any-map (λ f q. (q.0, (opt_is_iff s f.when).0 q.1)) (find-Any (label_is s) es found),
    )

only_edge :
    (s : String) (e : GraphEdge)
    → Any (λ f. f.when ≡ some s) (e ∷ [])
    → Any (λ f. (f.to ≡ e.to) × (f.when ≡ some s)) (e ∷ [])
only_edge s e (here q) = here (refl, q)
only_edge s e (there a) = elim a [ ]

from_candidates-signal :
    (s : String) (es : List GraphEdge)
    → s ≢ ""
    → Any (λ e. e.when ≡ some s) es
    → (t : String) × (from_candidates (some s) es ≡ some t)
      × Any (λ e. (e.to ≡ t) × (e.when ≡ some s)) es
from_candidates-signal s [] ne a = elim a [ ]
from_candidates-signal s (e ∷ []) ne a = (e.to, refl, only_edge s e a)
from_candidates-signal s (e ∷ f ∷ es) ne a =
    let (g, chosen, there_is) = choose-signal s (e ∷ f ∷ es) ne a in
    (
      g.to,
      ap target chosen,
      Any-map (λ x (q : (x ≡ g) × (x.when ≡ some s)). (ground arith, q.1)) there_is,
    )

-- An edge that leaves the node with the signal for its label is followed: the result is the target
-- of such an edge.
pub find_next-signal :
    (def : GraphDefinition) (k s : String)
    → s ≢ ""
    → Any (Labelled k s) def.edges
    → (t : String) × (find_next_graph_node def k (some s) ≡ some t)
      × Any (λ e. Leads k t e × (e.when ≡ some s)) def.edges
unfolding find_next_graph_node
find_next-signal def k s ne a =
    let leaving =
      Any-keep _ def.edges (Any-map (λ e (q : Labelled k s e). (q.1, (eq_iff e.from k).1 q.0)) a) in
    let (t, found, carried) = from_candidates-signal s (candidates def k) ne leaving in
    (
      t,
      found,
      Any-map (λ e q. (((eq_iff e.from k).0 q.1, q.0.0), q.0.1)) (keep-Any _ def.edges carried),
    )
