-- ===== src/Options.antt =====
-- options.go: the options of `NewRaft`, and their defaults (raft.go). The stores and the transport
-- that a caller may provide are parameters; a duration is a number of nanoseconds, not below 0.
use goraft.Prelude.{
  ℕ, Option, none, some, Bool, true, false, ◌==◌, if◌then◌else◌, List, [], ◌∷◌, Outcome, ok, err,
  ◌>>=◌,
}
use goraft.Logging.{info_level}

abbrev pub default_election_timeout : ℕ
default_election_timeout = 300000000

abbrev pub default_heartbeat : ℕ
default_heartbeat = 50000000

abbrev pub default_lease_duration : ℕ
default_lease_duration = 100000000

pub data OptionError : Type 0 where
  nil_log nil_state_storage nil_snapshot_storage nil_transport : OptionError

unfoldable pub provided_or : {A : Type 0} → A → Option A → A
provided_or default none = default
provided_or default (some a) = a

pub record Options (L S P T : Type 0) : Type 0 where
  pub election_timeout : ℕ
  pub heartbeat_interval : ℕ
  pub lease_duration : ℕ
  pub log_level : ℕ
  pub level_set : Bool
  pub log : Option L
  pub state_storage : Option S
  pub snapshot_storage : Option P
  pub transport : Option T

module _ {L S P T : Type 0} where
  unfoldable pub no_options : Options L S P T
  no_options = record {
    election_timeout = 0;
    heartbeat_interval = 0;
    lease_duration = 0;
    log_level = 0;
    level_set = false;
    log = none;
    state_storage = none;
    snapshot_storage = none;
    transport = none;
  }

  unfoldable pub with_election_timeout : ℕ → Options L S P T → Outcome OptionError (Options L S P T)
  with_election_timeout time o = ok (record o { election_timeout = time })

  unfoldable pub with_heartbeat_interval :
      ℕ → Options L S P T → Outcome OptionError (Options L S P T)
  with_heartbeat_interval time o = ok (record o { heartbeat_interval = time })

  unfoldable pub with_lease_duration : ℕ → Options L S P T → Outcome OptionError (Options L S P T)
  with_lease_duration time o = ok (record o { lease_duration = time })

  unfoldable pub with_log_level : ℕ → Options L S P T → Outcome OptionError (Options L S P T)
  with_log_level level o = ok (record o { log_level = level; level_set = true })

  -- `none` is nil.
  unfoldable pub with_log : Option L → Options L S P T → Outcome OptionError (Options L S P T)
  with_log none o = err nil_log
  with_log (some l) o = ok (record o { log = some l })

  unfoldable pub with_state_storage :
      Option S → Options L S P T → Outcome OptionError (Options L S P T)
  with_state_storage none o = err nil_state_storage
  with_state_storage (some s) o = ok (record o { state_storage = some s })

  unfoldable pub with_snapshot_storage :
      Option P → Options L S P T → Outcome OptionError (Options L S P T)
  with_snapshot_storage none o = err nil_snapshot_storage
  with_snapshot_storage (some p) o = ok (record o { snapshot_storage = some p })

  unfoldable pub with_transport : Option T → Options L S P T → Outcome OptionError (Options L S P T)
  with_transport none o = err nil_transport
  with_transport (some t) o = ok (record o { transport = some t })

  -- The options in their order: the first error ends it.
  unfoldable pub apply_options :
      List (Options L S P T → Outcome OptionError (Options L S P T))
      → Options L S P T
      → Outcome OptionError (Options L S P T)
  apply_options [] o = ok o
  apply_options (opt ∷ opts) o = do o1 ← opt o; apply_options opts o1

  -- What is not set gets its default. The last four are what `NewLog`, `NewStateStorage`,
  -- `NewSnapshotStorage` and `NewTransport` return.
  unfoldable pub set_defaults : L → S → P → T → Options L S P T → Options L S P T
  unfolding provided_or
  set_defaults l s p t o = record o {
    log_level = if o.level_set then o.log_level else info_level;
    heartbeat_interval =
        if o.heartbeat_interval == 0 then default_heartbeat else o.heartbeat_interval;
    election_timeout =
        if o.election_timeout == 0 then default_election_timeout else o.election_timeout;
    lease_duration = if o.lease_duration == 0 then default_lease_duration else o.lease_duration;
    log = some (provided_or l o.log);
    state_storage = some (provided_or s o.state_storage);
    snapshot_storage = some (provided_or p o.snapshot_storage);
    transport = some (provided_or t o.transport);
  }
