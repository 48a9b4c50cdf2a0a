-- ===== src/Raft/Replicate/Matching.antt =====
-- Log matching over a request from the leader: `sendAppendEntries` and `AppendEntries`.
use goraft.Prelude.{
  ℕ, suc, ◌+◌, ◌≤◌, ◌<◌, ◌≡◌, refl, sym, ap, ap₂, subst, ◌∙◌, ◌⊎◌, inl, inr, List, [], ◌∷◌, none,
  true, false, arith, ok, length, dec_lt,
}
use goraft.Log.{LogEntry, Log, get_entry, last_index}
use goraft.Log.Index.{IsLog, Numbered, TermAt, get_entry_out_of_range}
use goraft.Log.Links.{
  IsLinked, LinkedFrom, term_at, term_at_entry, term_at_same, Holds-links, log_matching,
}
use goraft.Requests.{AppendEntriesRequest, AppendEntriesResponse}
use goraft.Raft.{Raft, is_shutdown}
use goraft.Raft.Append.{append_entries_handler}
use goraft.Raft.Append.Merge.{CanFallBack, AgreesTo-before}
use goraft.Raft.Append.Outcomes.{IsStored, IsRequest, Accepted}
use goraft.Raft.Append.Handler.{Accepted-of}
use goraft.Raft.Replicate.{build_request}
use goraft.Raft.Replicate.Sends.{Built, Copies, replicated}
use goraft.Raft.Replicate.Reaches.{Built-of, Built-IsRequest}

-- The snapshot's last term is the one that the log has there.
abbrev pub IsBased : Raft → Type 0
IsBased r = r.last_included_term ≡ term_at r.log r.last_included_index

-- The node's log is linked, and agrees with its snapshot.
pub record IsLinkedNode (ledger : ℕ → ℕ → ℕ) (r : Raft) : Type 0 where
  pub stored : IsStored r
  pub linked : IsLinked ledger r.log
  pub based : IsBased r

previous_at :
    (r : Raft) (prev t : ℕ)
    → IsStored r
    → IsBased r
    → r.last_included_index ≤ prev
    → ((prev ≡ r.last_included_index) × (t ≡ r.last_included_term))
      ⊎ ((r.last_included_index < prev) × TermAt r.log prev t)
    → term_at r.log prev ≡ t
previous_at r prev t st based le (inl (at, same)) =
    subst (λ k. term_at r.log k ≡ t) (sym at) (sym (same ∙ based))
previous_at r prev t st based le (inr (above, held)) =
    term_at_entry r.log prev t st.is_log (omega (arith, st.base)) held

-- What a follower accepts keeps its log linked.
Accepted-IsLinked :
    (ledger : ℕ → ℕ → ℕ) (q : AppendEntriesRequest) (r s : Raft)
    → IsLinkedNode ledger r
    → IsRequest q
    → LinkedFrom ledger q.prev_log_term q.entries
    → Accepted q r s
    → IsLinked ledger s.log × (term_at s.log q.prev_log_index ≡ q.prev_log_term)
Accepted-IsLinked ledger q r s n rq link a = (linked, at_prev)
  where
    prev : ℕ
    prev = q.prev_log_index

    above : r.last_included_index ≤ prev
    above = a.previous.0

    starts : s.log.placeholder.index ≡ r.log.placeholder.index
    starts = ap LogEntry.index a.start

    kept : (i : ℕ) → i ≤ prev → term_at s.log i ≡ term_at r.log i
    kept i le = term_at_same r.log s.log i a.start (
        a.keeps prev (a.previous.1)
          (AgreesTo-before prev r.log prev q.entries rq.consecutive (omega arith)) i le)

    at_prev : term_at s.log prev ≡ q.prev_log_term
    at_prev =
        kept prev (omega arith)
        ∙ previous_at r prev q.prev_log_term n.stored n.based above (a.previous.2)

    base : s.log.placeholder.index ≤ prev
    base = omega (arith, starts, n.stored.base, above)

    linked : IsLinked ledger s.log
    linked i lo hi = elim (dec_lt i prev) [
      | yes below ↦
          ap₂ ledger refl (kept (suc i) (omega arith))
          ∙ (n.linked i (omega (arith, starts, lo)) (omega (arith, a.previous.1, below))
              ∙ sym (kept i (omega arith)))
      | no not_below ↦ elim (dec_lt i (prev + length q.entries)) [
        | yes inside ↦
            Holds-links ledger s.log prev q.entries a.valid base rq.consecutive
              (subst (λ t. LinkedFrom ledger t q.entries) (sym at_prev) link) a.holds i
              (omega arith) inside
        | no outside ↦ elim a.ends [
          | inl same ↦ subst (IsLinked ledger) (sym same) n.linked i lo hi
          | inr ends ↦ absurd (omega arith)
        ]
      ]
    ]

Copies-LinkedFrom :
    (ledger : ℕ → ℕ → ℕ) (l : Log) (p : ℕ) (es : List LogEntry)
    → IsLog l
    → IsLinked ledger l
    → l.placeholder.index ≤ p
    → p + length es ≤ last_index l
    → Numbered p es
    → Copies l (suc p) es
    → LinkedFrom ledger (term_at l p) es
Copies-LinkedFrom ledger l p [] w h base within n c = tt
Copies-LinkedFrom ledger l p (e ∷ es) w h base within (at, n) (found, c) =
    let here : term_at l (suc p) ≡ e.term =
      term_at_entry l (suc p) e.term w (omega arith) (e, found, refl) in
    (
      ap₂ ledger at (sym here) ∙ h p base (omega arith),
      subst (λ t. LinkedFrom ledger t es) here
          (Copies-LinkedFrom ledger l (suc p) es w h (omega arith) (omega arith) n c),
    )

Built-previous :
    (ledger : ℕ → ℕ → ℕ) (l : Raft) (next : ℕ) (q : AppendEntriesRequest)
    → IsLinkedNode ledger l
    → l.last_included_index < next
    → Built l next q
    → term_at l.log q.prev_log_index ≡ q.prev_log_term
Built-previous ledger l next q n above b = elim b.previous [
  | inl (at, same) ↦ subst (λ k. term_at l.log k ≡ q.prev_log_term) (sym at) (sym (same ∙ n.based))
  | inr held ↦ elim (dec_lt l.log.placeholder.index q.prev_log_index) [
    | yes behind ↦ term_at_entry l.log q.prev_log_index q.prev_log_term n.stored.is_log behind held
    | no start ↦
        let out : get_entry l.log q.prev_log_index ≡ none =
          get_entry_out_of_range n.stored.is_log q.prev_log_index
            (omega (arith, b.all_of_it, n.stored.room)) (inl (omega arith)) in
        absurd (cc (out, held.1))
  ]
]

Built-LinkedFrom :
    (ledger : ℕ → ℕ → ℕ) (l : Raft) (next : ℕ) (q : AppendEntriesRequest)
    → IsLinkedNode ledger l
    → l.last_included_index < next
    → Built l next q
    → LinkedFrom ledger q.prev_log_term q.entries
Built-LinkedFrom ledger l next q n above b =
    subst (λ t. LinkedFrom ledger t q.entries) (Built-previous ledger l next q n above b)
      (Copies-LinkedFrom ledger l.log q.prev_log_index q.entries n.stored.is_log n.linked
        (omega (arith, b.behind, n.stored.base)) (omega (arith, b.all_of_it)) b.consecutive
        (subst (λ k. Copies l.log k q.entries) (sym b.behind) b.copies))

-- The last index of the leader, where it is behind the previous one of the request or the same.
matches_at_end :
    (l f s : Raft) (next : ℕ) (q : AppendEntriesRequest)
    → Built l next q
    → IsStored l
    → l.last_included_index < next
    → s.log.placeholder.index ≤ q.prev_log_index
    → Accepted q f s
    → term_at l.log q.prev_log_index ≡ q.prev_log_term
    → term_at s.log q.prev_log_index ≡ q.prev_log_term
    → term_at s.log (last_index l.log) ≡ term_at l.log (last_index l.log)
matches_at_end l f s next q b st above base acc at_leader at_follower =
    elim (dec_lt q.prev_log_index (last_index l.log)) [
      | yes more ↦
          let (e, found, held) =
            replicated l f s next q b acc (last_index l.log) (omega (arith, b.behind))
              (omega arith) in
          term_at_entry s.log (last_index l.log) e.term acc.valid (omega arith) held
          ∙ sym (
              term_at_entry l.log (last_index l.log) e.term st.is_log
                (omega (arith, b.behind, st.base)) (e, found, refl))
      | no end ↦
          let same : q.prev_log_index ≡ last_index l.log = omega (arith, b.all_of_it) in
          subst (λ k. term_at s.log k ≡ term_at l.log k) same (at_follower ∙ sym at_leader)
    ]

-- Where a request that a leader builds for a follower's next index is answered with success, the
-- follower's log has the term of the leader's at every index, up to the end of the leader's log,
-- that neither has compacted. Some function of index and term gives, before, the term of the entry
-- in front of each entry of both logs, and afterwards that of the follower's new log too. Both
-- logs are well formed and have room, and the term of the snapshot at its last index; the next
-- index lies behind the leader's snapshot and at most one behind its log; the follower runs, is in
-- no later term, and has a configuration to fall back to.
pub replication_matches :
    (ledger : ℕ → ℕ → ℕ) (now next : ℕ) (q : AppendEntriesRequest) (l f s : Raft)
    (a : AppendEntriesResponse)
    → IsLinkedNode ledger l
    → IsLinkedNode ledger f
    → l.last_included_index ≤ last_index l.log
    → l.last_included_index < next
    → next ≤ last_index l.log + 1
    → build_request l next ≡ ok q
    → is_shutdown f.state ≡ false
    → f.current_term ≤ l.current_term
    → CanFallBack q.prev_log_index f
    → append_entries_handler now q f ≡ ok (s, a)
    → a.success ≡ true
    → IsLinked ledger s.log
      × ((i : ℕ)
          → l.log.placeholder.index ≤ i
          → f.log.placeholder.index ≤ i
          → i ≤ last_index l.log
          → term_at s.log i ≡ term_at l.log i)
replication_matches ledger now next q l f s a nl nf included above within built up term fb run
      success =
    let b = Built-of l next q nl.stored included above within built in
    let rq = Built-IsRequest l next q nl.stored b in
    let acc = Accepted-of now q f s a up (omega (arith, b.same_term)) nf.stored rq fb run success in
    let at_leader = Built-previous ledger l next q nl above b in
    let links = Built-LinkedFrom ledger l next q nl above b in
    let (linked, at_prev) = Accepted-IsLinked ledger q f s nf rq links acc in
    let starts : s.log.placeholder.index ≡ f.log.placeholder.index = ap LogEntry.index acc.start in
    let top =
      matches_at_end l f s next q b nl.stored above
        (omega (arith, starts, nf.stored.base, acc.previous.0)) acc at_leader at_prev in
    (
      linked,
      λ i in_leader in_follower lo.
          log_matching ledger s.log l.log i (last_index l.log) linked nl.linked
            (omega (arith, starts, in_follower)) in_leader lo
            (omega (arith, acc.reaches, b.all_of_it)) (omega arith) top,
    )
