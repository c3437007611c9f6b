-- ===== src/Integrity/Reached.antt =====
-- `check_chain`, `check_authority` and `check_truth_invariants` of ledger/integrity.py, on the ledgers
-- that write sessions of ledger/store.py reach. `KeepsFields` is what they need of `json`.
use lean_evolve.Prelude.{
  String, ◌≡◌, refl, ap, subst, ◌∙◌, true, false, Option, none, some, List, [], map, select,
  reverse, Member-reverse, Member-map, Member-select, All-Member, arith, eq_iff,
}
use lean_evolve.Value.{
  Value, null, bool, int, float, str, array, dict, other, get, shape, Host, KeepsFields,
}
use lean_evolve.Vocabulary.Accepted.{IsAccepted}
use lean_evolve.Vocabulary.Refutation.{IsAccepted-refutes}
use lean_evolve.Events.{Event}
use lean_evolve.Store.Tables.{
  Ledger, ConnectionRow, in_edges, connections, connection_from_row, events_of,
}
use lean_evolve.Store.Growth.{IsLawful, history}
use lean_evolve.Store.Soundness.{Reachable, Reachable-IsSound}
use lean_evolve.Store.Edges.Rows.{IsEdge}
use lean_evolve.Store.Edges.Reached.{Reachable-AreEdges}
use lean_evolve.Integrity.{
  Finding, gather, event_findings, truth_findings, trust_findings, check_chain, check_authority,
  check_truth_invariants,
}
use lean_evolve.Integrity.History.{events_of-all, check_chain-IsChain}
use lean_evolve.Integrity.Accepts.{gather_none, event_findings-IsLawful, truth_findings-IsLawful}

shape-text : (o : Option Value) (s : String) → shape o ≡ some (some s) → o ≡ some (str s)
shape-text none s h = absurd (ground arith)
shape-text (some (str t)) s h = ap some (ground arith)
shape-text (some null) s h = absurd (ground arith)
shape-text (some (bool b)) s h = absurd (ground arith)
shape-text (some (int b n)) s h = absurd (ground arith)
shape-text (some (float n)) s h = absurd (ground arith)
shape-text (some (array xs)) s h = absurd (ground arith)
shape-text (some (dict d)) s h = absurd (ground arith)
shape-text (some (other t)) s h = absurd (ground arith)

in_edges-relation :
    (c : ConnectionRow)
    → in_edges none none (some "refutes") false c ≡ true
    → c.relation ≡ "refutes"
in_edges-relation c h = ground (arith, eq_iff c.relation "refutes")

module _ (host : Host) (keeps : KeepsFields host) where
  -- The trust level of a stored refutation reads back.
  trust_findings-IsEdge :
      (l : Ledger) (c : ConnectionRow)
      → IsEdge host l c
      → c.relation ≡ "refutes"
      → trust_findings (connection_from_row host c) ≡ []
  unfolding trust_findings connection_from_row
  trust_findings-IsEdge l c edge refutes =
      let accepted =
        subst (λ r. IsAccepted r edge.from.kind edge.to.kind edge.supplied) refutes edge.accepted in
      let trusted = (IsAccepted-refutes edge.from.kind edge.to.kind edge.supplied accepted).2 in
      let (d, back, same) = keeps edge.supplied c.properties_json edge.stored in
      let read =
        shape-text (get "trust_level" d) "kernel" (same "trust_level" ∙ ap shape trusted) in
      rw (back, read) refl

  -- Where `json` keeps the fields of a payload, the checks of the chain, of the authority and of the
  -- truth invariants report nothing on a ledger that write sessions have reached: the chain verifies,
  -- no event exceeds the authority of its actor, breaks the contract of its action or names missing
  -- evidence, nothing but the evaluator has certified, and every active refutation carries kernel
  -- trust.
  pub check_authority-Reachable :
      (l : Ledger)
      → Reachable host l
      → (check_chain host l ≡ some [])
        × (check_authority host l ≡ [])
        × (check_truth_invariants host l ≡ [])
  unfolding check_authority check_truth_invariants connections
  check_authority-Reachable l r = (
    (check_chain-IsChain host l).1 (Reachable-IsSound host r).chain,
    clean (event_findings host l) (event_findings-IsLawful host keeps l),
    rw (clean truth_findings (truth_findings-IsLawful host keeps l)) trusted,
  )
    where
      clean :
          (f : Event → List Finding)
          → ((e : Event) → IsLawful host l e → f e ≡ [])
          → gather f (events_of host l none none) ≡ []
      clean f passes = rw (events_of-all host l) (
          gather_none f (reverse (history host l)) (λ e m. passes e (
            All-Member (IsLawful host l) e (history host l) (Reachable-IsSound host r).lawful
              (Member-reverse e (history host l) m))))

      trusted :
          gather trust_findings (
            map
              (connection_from_row host)
              (select (in_edges none none (some "refutes") false) l.connections))
          ≡ []
      trusted = gather_none trust_findings _ (λ c m.
          let rows = select (in_edges none none (some "refutes") false) l.connections in
          let (row, n, q) = Member-map (connection_from_row host) c rows m in
          let (k, t) =
            Member-select row (in_edges none none (some "refutes") false) l.connections n in
          ap trust_findings q
          ∙ trust_findings-IsEdge l row
              (All-Member (IsEdge host l) row l.connections (Reachable-AreEdges host r).all k)
              (in_edges-relation row t))
