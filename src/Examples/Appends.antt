-- ===== src/Examples/Appends.antt =====
-- The two ends of an AppendEntries call on concrete data.
use goraft.Prelude.{
  ◌⊎◌, zero, suc, ◌==◌, if◌then◌else◌, ℕ, ◌≤◌, ◌≡◌, inr, refl, [], ◌∷◌, true, arith, ok,
}
use goraft.Log.{Log, get_entry, last_index, append_entries, next_index}
use goraft.Requests.{AppendEntriesRequest, AppendEntriesResponse}
use goraft.Raft.{Raft, leader, follower}
use goraft.Raft.Append.{
  append_entries_handler, advance_commit, recognise_leader, replicate_request, numeric_max,
  merge_entries, check_previous, Verdict,
}
use goraft.Raft.Append.Check.{Answers, check_previous_lem}
use goraft.Raft.Append.Merge.{CanFallBack, Merged, merge_entries-Merged}
use goraft.Raft.Append.Outcomes.{IsStored, IsRequest, Handled}
use goraft.Raft.Append.Handler.{append_entries_handler-Handled}
use goraft.Raft.Append.Commits.{append_entries_handler-commit_index}
use goraft.Raft.Replicate.{build_request, previous_term, collect_entries}
use goraft.Raft.Replicate.Sends.{Built, build_request-Built}
use goraft.Log.Links.{IsLinked, term_at}
use goraft.Log.Ledger.{extend, IsFree}
use goraft.Raft.Roles.{become_leader}
use goraft.Raft.Client.{submit_replicated_operation}
use goraft.Raft.Client.Links.{leader_appends-IsLinked}
use goraft.Raft.Replicate.Matching.{replication_matches}
use goraft.Examples.{small_log, small_log-IsLog, operation_at, node, append_request_3}

ends : last_index small_log ≡ 3
unfolding last_index
ends = refl

stored : IsStored (node follower)
stored = record {
  is_log = small_log-IsLog;
  base = omega arith;
  room = omega (arith, ends);
  included_room = omega arith;
}

leading : IsStored (node leader)
leading = record {
  is_log = small_log-IsLog;
  base = omega arith;
  room = omega (arith, ends);
  included_room = omega arith;
}

requested : IsRequest append_request_3
requested = record { consecutive = (refl, (refl, tt)); fits = omega arith }

fallback : CanFallBack 2 (node follower)
fallback = inr (omega arith)

append_entries_handler-Handled_example :
    (p : Raft × AppendEntriesResponse) × (append_entries_handler 20 append_request_3 (node follower)
      ≡ ok p)
    × Handled append_request_3 (node follower) p
append_entries_handler-Handled_example =
    append_entries_handler-Handled 20 append_request_3 (node follower) refl (omega arith) stored
      requested fallback

-- A request of the earlier term 1.
abbrev old_request : AppendEntriesRequest
old_request = record append_request_3 { term = 1 }

merge_entries-Merged_example :
    (s : Raft) × (merge_entries 20 append_request_3.entries (node follower) ≡ ok s)
    × Merged 2 append_request_3.entries (node follower) s
merge_entries-Merged_example =
    merge_entries-Merged 20 2 append_request_3.entries (node follower) small_log-IsLog (omega arith)
      (omega (arith, ends)) fallback (refl, (refl, tt)) (omega arith)

check_previous_lem_example :
    (v : Verdict) × (check_previous small_log 0 0 3 1 ≡ ok v) × Answers small_log 0 0 3 1 v
check_previous_lem_example =
    check_previous_lem small_log 0 0 3 1 small_log-IsLog (omega arith) (omega (arith, ends))
      (omega arith)

build_request-Built_example :
    (q : AppendEntriesRequest) × (build_request (node leader) 3 ≡ ok q) × Built (node leader) 3 q
build_request-Built_example =
    build_request-Built (node leader) 3 leading (omega arith) (omega arith) (omega (arith, ends))

-- The request that the leader of term 2 builds from index 3 on, and the follower that has the entry
-- and learns of the commit.
abbrev last_entry_request : AppendEntriesRequest
last_entry_request = record {
  leader_id = "n1";
  term = 2;
  leader_commit = 1;
  prev_log_index = 2;
  prev_log_term = 1;
  entries = operation_at 3 2 ∷ [];
}

-- The follower lacks the last entry.
abbrev lagging : Raft
lagging = record (node follower) {
  log = record small_log { rest = operation_at 1 1 ∷ operation_at 2 1 ∷ [] };
}

lagging-IsStored : IsStored lagging
unfolding last_index
lagging-IsStored = record {
  is_log = record { numbered = (refl, (refl, tt)); fits = omega arith };
  base = omega arith;
  room = omega arith;
  included_room = omega arith;
}

abbrev caught_up : Raft
caught_up = advance_commit 1 (record (recognise_leader 20 last_entry_request lagging) {
  log = append_entries lagging.log (operation_at 3 2 ∷ []);
})

builds : build_request (node leader) 3 ≡ ok last_entry_request
unfolding build_request previous_term numeric_max next_index get_entry collect_entries
builds = refl

answers :
    append_entries_handler 20 last_entry_request lagging
    ≡ ok (caught_up, record { term = 2; success = true; index = 0 })
unfolding append_entries_handler replicate_request next_index get_entry last_index
answers = refl

-- Entries of term 1 behind the placeholder, and the first entry of term 2 behind one of term 1.
abbrev before_it : ℕ → ℕ → ℕ
before_it i t = if i == 1 then 0 else 1

small_log-IsLinked : IsLinked before_it small_log
unfolding get_entry last_index
small_log-IsLinked zero lo hi = refl
small_log-IsLinked (suc zero) lo hi = refl
small_log-IsLinked (suc (suc zero)) lo hi = refl
small_log-IsLinked (suc (suc (suc i))) lo hi = absurd (omega arith)

lagging-IsLinked : IsLinked before_it lagging.log
unfolding get_entry last_index
lagging-IsLinked zero lo hi = refl
lagging-IsLinked (suc zero) lo hi = refl
lagging-IsLinked (suc (suc i)) lo hi = absurd (omega arith)

replication_matches_example :
    IsLinked before_it caught_up.log
    × ((i : ℕ)
        → 0 ≤ i
        → 0 ≤ i
        → i ≤ last_index small_log
        → term_at caught_up.log i ≡ term_at small_log i)
replication_matches_example =
    replication_matches before_it 20 3 last_entry_request (node leader) lagging caught_up
      (record { term = 2; success = true; index = 0 })
      (record { stored = leading; linked = small_log-IsLinked; based = refl })
      (record { stored = lagging-IsStored; linked = lagging-IsLinked; based = refl }) (omega arith)
      (omega arith) (omega (arith, ends)) builds refl (omega arith) (inr (omega arith)) answers refl

lagging-within : 1 ≤ last_index lagging.log
unfolding last_index
lagging-within = omega arith

append_entries_handler-commit_index_example :
    ((j : ℕ) → j ≤ 1 → get_entry caught_up.log j ≡ get_entry lagging.log j)
    × (1 ≤ caught_up.commit_index)
    × (caught_up.commit_index ≤ last_index caught_up.log)
    × ((caught_up.commit_index ≡ 1) ⊎ (caught_up.commit_index ≤ 1))
append_entries_handler-commit_index_example =
    append_entries_handler-commit_index 20 last_entry_request lagging caught_up
      (record { term = 2; success = true; index = 0 }) refl (omega arith) lagging-IsStored
      (record { consecutive = (refl, tt); fits = omega arith }) (inr (omega arith)) lagging-within
      ((λ h. absurd (omega arith)), tt) answers

leader_appends-IsLinked_example :
    let extended =
      extend before_it (suc (last_index small_log)) 2 (term_at small_log (last_index small_log)) in
    IsLinked extended (become_leader 20 (node leader)).log
    × (true ≡ true
        → IsLinked extended (submit_replicated_operation 20 8 (5 ∷ []) (node leader)).log)
    × ((m : Log)
        → IsLinked before_it m
        → IsFree m (suc (last_index small_log)) 2
        → IsLinked extended m)
leader_appends-IsLinked_example =
    leader_appends-IsLinked before_it 20 8 (5 ∷ []) (node leader) small_log-IsLog
      (omega (arith, ends)) small_log-IsLinked
