-- ===== src/Cluster/Safety.antt =====
-- Election safety.
use goraft.Prelude.{ℕ, ◌≤◌, ◌≡◌, ◌≢◌, String, none, true, false, arith}
use goraft.Configuration.{Configuration}
use goraft.Configuration.Quorum.{quorum_overlap}
use goraft.Raft.{is_leader}
use goraft.Cluster.{Cluster, Run, begin, later}
use goraft.Cluster.Ballots.{IsNode}
use goraft.Cluster.Sound.{IsMembership, IsSound, Keeps, Grows-refl, Grows-trans}
use goraft.Cluster.Steps.{Step-Keeps}

-- Nobody leads, no election is under way, and the history has no vote but those of the nodes in their
-- current terms and earlier ones.
pub record IsFresh (c : Configuration) (cl : Cluster) : Type 0 where
  pub nodes : (id : String) → IsNode c cl id
  pub no_round : (k : ℕ) → cl.rounds k ≡ none
  pub no_leader : (id : String) → is_leader (cl.nodes id).state ≡ false

IsFresh-IsSound : (c : Configuration) (cl : Cluster) → IsFresh c cl → IsSound c cl
IsFresh-IsSound c cl h = record {
  nodes = h.nodes;
  rounds = λ k rd e. absurd (ground (arith, h.no_round k));
  leaders = λ id e. absurd (ground (arith, h.no_leader id));
}

Run-Keeps :
    (c : Configuration) (cl dl : Cluster)
    → IsMembership c
    → IsSound c cl
    → Run cl dl
    → Keeps c cl dl
Run-Keeps c _ _ m h (begin cl) = (h, Grows-refl cl)
Run-Keeps c _ _ m h (later a b d run step) =
    let (sound, grown) = Run-Keeps c a b m h run in
    let (after, more) = Step-Keeps c b d m sound step in (after, Grows-trans a b d grown more)

-- In a cluster of more than one member whose nodes have one configuration that does not change,
-- which has each voter once and none without a name, and that starts with stored votes, no leader
-- and no election under way, at most one node leads in a term, whatever the order in which
-- elections begin, vote requests are built, handled and counted or lost, entries and snapshots
-- arrive, nodes do their other work, and processes restart from what they stored. A request for a
-- vote is built while its candidate is in the term of its round, a campaigning node gets no
-- entries or snapshot of its own term, and terms stay below 2^64.
pub election_safety :
    (c : Configuration) (cl dl : Cluster) (a b : String)
    → IsMembership c
    → IsFresh c cl
    → Run cl dl
    → is_leader (dl.nodes a).state ≡ true
    → is_leader (dl.nodes b).state ≡ true
    → (dl.nodes a).current_term ≡ (dl.nodes b).current_term
    → a ≡ b
election_safety c cl dl a b m fresh run leads_a leads_b same =
    let (h, _) = Run-Keeps c cl dl m (IsFresh-IsSound c cl fresh) run in
    let la = h.leaders a leads_a in
    let lb = h.leaders b leads_b in
    let (p, in_a, in_b) = quorum_overlap c la.set lb.set la.quorum lb.quorum in
    ground (arith, la.voted p in_a, lb.voted p in_b)

-- In a run of a cluster as in election_safety no node goes back to an earlier term, not by a
-- restart either, and none votes for two candidates in one term: a vote in the history stays
-- there, and as long as the node is in that term it is its current and its stored vote.
pub votes_are_final :
    (c : Configuration) (cl al dl : Cluster) (id x : String) (t : ℕ)
    → IsMembership c
    → IsFresh c cl
    → Run cl al
    → Run al dl
    → x ≢ ""
    → al.history id t ≡ x
    → ((al.nodes id).current_term ≤ (dl.nodes id).current_term)
      × (dl.history id t ≡ x)
      × ((dl.nodes id).current_term ≡ t → (dl.nodes id).voted_for ≡ x)
      × ((dl.nodes id).current_term ≡ t → (dl.nodes id).stored_vote ≡ x)
votes_are_final c cl al dl id x t m fresh run more someone h =
    let (before, _) = Run-Keeps c cl al m (IsFresh-IsSound c cl fresh) run in
    let (after, g) = Run-Keeps c al dl m before more in
    let n = after.nodes id in
    let kept = g.votes_stay id x t someone h in
    (
      g.terms_stay id,
      kept,
      (λ e. ground (arith, n.present)),
      (λ e. ground (arith, n.present, n.stored)),
    )
