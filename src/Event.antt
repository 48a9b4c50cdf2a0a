-- ===== src/Event.antt =====
-- What a node of raft.go does besides changing its own state: it wakes its loops (`sync.Cond`),
-- starts calls to peers (`go r.sendAppendEntries(…)`), answers response channels (`respond`), and
-- hands operations to the state machine. A channel goes by a number.
use goraft.Prelude.{ℕ, String, Bool, Option}
use goraft.Future.{Failure}
use goraft.Operation.{Operation}

pub data Cond : Type 0 where
  apply_cond commit_cond read_only_cond election_cond snapshot_cond : Cond

pub data Event : Type 0 where
  wake : Cond → Event
  send_append : String → Event
  send_vote : String → Bool → Event
  -- Channel, and the error or nil.
  answer : ℕ → Option Failure → Event
  -- Nil channel: the configuration response that nobody receives.
  answer_nobody : Event
  apply_operation : Operation → Event
