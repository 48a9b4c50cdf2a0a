-- ===== src/Cluster/Counts.antt =====
-- What the answer to a vote request, the requests of a leader, and other work do to a node.
use goraft.Prelude.{
  ℕ, ◌+◌, ◌≤◌, ◌<◌, ◌≡◌, refl, ◌⊎◌, inl, inr, String, some, true, false, arith, ok, ◌∙◌, subst, ap,
  Bool-cases,
}
use goraft.Requests.{
  AppendEntriesRequest, AppendEntriesResponse, RequestVoteRequest, RequestVoteResponse,
  InstallSnapshotRequest, InstallSnapshotResponse,
}
use goraft.Raft.{Raft, is_leader, is_candidate, is_pre_candidate}
use goraft.Raft.Roles.{become_follower, become_leader}
use goraft.Raft.Roles.Terms.{send_append_entries_to_peers-Frame}
use goraft.Raft.Roles.Stored.{IsAs, IsAs-refl, replicate_request-IsAs}
use goraft.Raft.Roles.Kept.{receive_snapshot-IsAs}
use goraft.Raft.Roles.Works.{Work, Work-Lasts}
use goraft.Raft.Snapshot.{Installing, install_snapshot_handler, recognise_sender, receiving_file}
use goraft.Raft.Snapshot.Install.{state_of}
use goraft.Raft.Append.{append_entries_handler, replicate_request, recognise_leader}
use goraft.Raft.Election.{handle_vote_response, promote, count_vote}
use goraft.Raft.Election.Leads.{become_leader_lem, Elected, handle_vote_response-Elected}
use goraft.Cluster.Moves.{KeepsVote, MakesNoLeader}

become_follower_frame :
    (now : ℕ) (id : String) (term : ℕ) (r : Raft)
    → let s = become_follower now id term r in
      (s.id ≡ r.id)
      × (s.configuration ≡ r.configuration)
      × (is_leader s.state ≡ false)
      × (s.current_term ≡ term)
unfolding become_follower
become_follower_frame now id term r = (refl, refl, refl, refl)

become_leader_id : (now : ℕ) (r : Raft) → (become_leader now r).id ≡ r.id
unfolding become_leader
become_leader_id now r = (send_append_entries_to_peers-Frame now _).0.same_id

-- The node keeps its term, or is a follower in a later one.
handle_vote_response_frame :
    (now : ℕ) (id : String) (q : RequestVoteRequest) (a : RequestVoteResponse) (n : ℕ) (r : Raft)
    → let s = (handle_vote_response now id q (some a) n r).0 in
      (s.id ≡ r.id)
      × (s.configuration ≡ r.configuration)
      × (((s.current_term ≡ r.current_term) × (s.voted_for ≡ r.voted_for))
          ⊎ ((r.current_term < s.current_term) × (is_leader s.state ≡ false)))
unfolding handle_vote_response
handle_vote_response_frame now id q a n r = ground (
  arith,
  become_leader_lem now (promote (count_vote n a) r),
  become_leader_id now (promote (count_vote n a) r),
  become_follower_frame now id a.term r,
)

handle_vote_response_count :
    (now : ℕ) (id : String) (q : RequestVoteRequest) (a : RequestVoteResponse) (n : ℕ) (r : Raft)
    → let v = (handle_vote_response now id q (some a) n r).1 in
      (v ≡ n) ⊎ ((a.vote_granted ≡ true) × (v ≡ n + 1))
unfolding handle_vote_response count_vote
handle_vote_response_count now id q a n r = ground arith

-- After the answer the node leads only if it has led before, or was elected.
pub handle_vote_response-KeepsVote :
    (now : ℕ) (id : String) (q : RequestVoteRequest) (a : RequestVoteResponse) (n v : ℕ)
    (r s : Raft)
    → handle_vote_response now id q (some a) n r ≡ (s, v)
    → KeepsVote r s
      × (MakesNoLeader r s ⊎ Elected q v r s)
      × ((v ≡ n) ⊎ ((a.vote_granted ≡ true) × (v ≡ n + 1)))
handle_vote_response-KeepsVote now id q a n v r s h = (
  record {
    no_earlier = ground (arith, frame);
    same_vote = λ e. inr (ground (arith, frame));
    same_id = frame.0;
    same_configuration = frame.1;
  },
  leads,
  count,
)
  where
    frame :
        (s.id ≡ r.id)
        × (s.configuration ≡ r.configuration)
        × (((s.current_term ≡ r.current_term) × (s.voted_for ≡ r.voted_for))
            ⊎ ((r.current_term < s.current_term) × (is_leader s.state ≡ false)))
    frame = ground (arith, h, handle_vote_response_frame now id q a n r)

    elected :
        is_leader r.state ≡ false
        → ((v ≡ n) ⊎ ((a.vote_granted ≡ true) × (v ≡ n + 1)))
          × ((is_leader s.state ≡ false) ⊎ Elected q v r s)
    elected e =
        subst
          (λ x.
            ((x.1 ≡ n) ⊎ ((a.vote_granted ≡ true) × (x.1 ≡ n + 1)))
            × ((is_leader (x.0).state ≡ false) ⊎ Elected q x.1 r x.0))
          h (handle_vote_response-Elected now id q a n r e)

    leads : MakesNoLeader r s ⊎ Elected q v r s
    leads = elim (Bool-cases (is_leader r.state)) [
      | inl e ↦ inl (λ k. ground (arith, frame))
      | inr e ↦ elim (elected e).1 [
        | inl lost ↦ inl (λ k. absurd (ground arith))
        | inr won ↦ inr won
      ]
    ]

    count : (v ≡ n) ⊎ ((a.vote_granted ≡ true) × (v ≡ n + 1))
    count = ground (arith, h, handle_vote_response_count now id q a n r)

recognise_leader_frame :
    (now : ℕ) (q : AppendEntriesRequest) (r : Raft)
    → r.current_term ≤ q.term
    → (r.current_term < q.term)
      ⊎ ((is_candidate r.state ≡ false) × (is_pre_candidate r.state ≡ false))
    → let s = recognise_leader now q r in
      (s.id ≡ r.id)
      × (((s.current_term ≡ r.current_term) × (s.voted_for ≡ r.voted_for) × (s.state ≡ r.state))
          ⊎ ((r.current_term < s.current_term) × (is_leader s.state ≡ false)))
unfolding recognise_leader become_follower
recognise_leader_frame now q r fresh free = ground arith

handler_runs :
    (now : ℕ) (q : AppendEntriesRequest) (r s : Raft) (a : AppendEntriesResponse)
    → append_entries_handler now q r ≡ ok (s, a)
    → (s ≡ r)
      ⊎ ((r.current_term ≤ q.term)
          × (replicate_request now q (recognise_leader now q r) ≡ ok (s, a)))
unfolding append_entries_handler
handler_runs now q r s a h = ground arith

unchanged-KeepsVote : (r s : Raft) → s ≡ r → KeepsVote r s × MakesNoLeader r s
unchanged-KeepsVote r s e = (
  record {
    no_earlier = ground arith;
    same_vote = λ t. inr (ap Raft.voted_for e);
    same_id = ap Raft.id e;
    same_configuration = ap Raft.configuration e;
  },
  λ l. ground arith,
)

-- In two parts, by way of m.
later-KeepsVote :
    (r m s : Raft)
    → (m.id ≡ r.id)
      × (((m.current_term ≡ r.current_term) × (m.voted_for ≡ r.voted_for) × (m.state ≡ r.state))
          ⊎ ((r.current_term < m.current_term) × (is_leader m.state ≡ false)))
    → IsAs m s
    → s.configuration ≡ r.configuration
    → KeepsVote r s × MakesNoLeader r s
later-KeepsVote r m s (id, first) (same_id, term, vote, _, _, _, _, state) conf = (
  record {
    no_earlier = ground arith;
    same_vote = λ t. inr (ground arith);
    same_id = same_id ∙ id;
    same_configuration = conf;
  },
  λ l. ground arith,
)

-- A node that is not campaigning in the request's term keeps its vote, and does not become leader.
pub append_entries_handler-KeepsVote :
    (now : ℕ) (q : AppendEntriesRequest) (r s : Raft) (a : AppendEntriesResponse)
    → append_entries_handler now q r ≡ ok (s, a)
    → (r.current_term < q.term)
      ⊎ ((is_candidate r.state ≡ false) × (is_pre_candidate r.state ≡ false))
    → s.configuration ≡ r.configuration
    → KeepsVote r s × MakesNoLeader r s
append_entries_handler-KeepsVote now q r s a h free conf = elim (handler_runs now q r s a h) [
  | inl e ↦ unchanged-KeepsVote r s e
  | inr (fresh, run) ↦
      later-KeepsVote r (recognise_leader now q r) s (recognise_leader_frame now q r fresh free)
        (replicate_request-IsAs now q (recognise_leader now q r) s a run) conf
]

recognise_sender_frame :
    (now : ℕ) (q : InstallSnapshotRequest) (r : Raft)
    → r.current_term ≤ q.term
    → (r.current_term < q.term)
      ⊎ ((is_candidate r.state ≡ false) × (is_pre_candidate r.state ≡ false))
    → let s = recognise_sender now q r in
      (s.id ≡ r.id)
      × (((s.current_term ≡ r.current_term) × (s.voted_for ≡ r.voted_for) × (s.state ≡ r.state))
          ⊎ ((r.current_term < s.current_term) × (is_leader s.state ≡ false)))
unfolding recognise_sender become_follower
recognise_sender_frame now q r fresh free = ground arith

install_snapshot_handler-IsAs :
    (now : ℕ) (q : InstallSnapshotRequest) (r : Raft) (i : Installing) (a : InstallSnapshotResponse)
    → install_snapshot_handler now q r ≡ ok (i, a)
    → (state_of i ≡ r) ⊎ ((r.current_term ≤ q.term) × IsAs (recognise_sender now q r) (state_of i))
unfolding install_snapshot_handler
install_snapshot_handler-IsAs now q r i a h =
    let s = recognise_sender now q r in
    ground (
      arith,
      receive_snapshot-IsAs q (receiving_file now q s.snapshot) s s (IsAs-refl s),
      IsAs-refl s,
    )

-- So does a node that gets a chunk of a snapshot.
pub install_snapshot_handler-KeepsVote :
    (now : ℕ) (q : InstallSnapshotRequest) (r : Raft) (i : Installing) (a : InstallSnapshotResponse)
    → install_snapshot_handler now q r ≡ ok (i, a)
    → (r.current_term < q.term)
      ⊎ ((is_candidate r.state ≡ false) × (is_pre_candidate r.state ≡ false))
    → (state_of i).configuration ≡ r.configuration
    → KeepsVote r (state_of i) × MakesNoLeader r (state_of i)
install_snapshot_handler-KeepsVote now q r i a h free conf =
    elim (install_snapshot_handler-IsAs now q r i a h) [
      | inl e ↦ unchanged-KeepsVote r (state_of i) e
      | inr (fresh, run) ↦
          later-KeepsVote r (recognise_sender now q r) (state_of i)
            (recognise_sender_frame now q r fresh free) run conf
    ]

-- Nor does other work take back a vote or make a leader.
pub Work-KeepsVote :
    (r s : Raft) → Work r s → s.configuration ≡ r.configuration → KeepsVote r s × MakesNoLeader r s
Work-KeepsVote r s w conf = elim (Work-Lasts r s w) [
  | inl like ↦ later-KeepsVote r r s (refl, inl (refl, refl, refl)) like conf
  | inr (id, term, quiet, _) ↦ (
    record {
      no_earlier = omega arith;
      same_vote = λ e. absurd (omega arith);
      same_id = id;
      same_configuration = conf;
    },
    λ l. absurd (ground arith),
  )
]
