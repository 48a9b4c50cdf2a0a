-- ===== src/Transport/Serving.antt =====
-- transport.go: `transport` itself, from NewTransport over Run to Shutdown, and the sending of a
-- request to an address. The resolver, the listener and what gRPC makes for an address are
-- parameters; the server is there while the transport runs.
use goraft.Prelude.{
  ◌≡◌, refl, String, Option, none, some, Bool, true, false, if◌then◌else◌, Bool-cases, inl, inr,
  Outcome, ok, fatal,
}
use goraft.Raft.{RpcError}
use goraft.Prelude.Assoc.{has_key}
use goraft.Requests.{
  AppendEntriesRequest, AppendEntriesResponse, RequestVoteRequest, RequestVoteResponse,
  InstallSnapshotRequest, InstallSnapshotResponse,
}
use goraft.Requests.Proto.{
  ProtoAppendEntriesRequest, ProtoAppendEntriesResponse, ProtoRequestVoteRequest,
  ProtoRequestVoteResponse, ProtoInstallSnapshotRequest, ProtoInstallSnapshotResponse,
}
use goraft.Transport.{
  send_append_entries, send_request_vote, send_install_snapshot, append_entries, request_vote,
  install_snapshot,
}
use goraft.Transport.Connections.{
  ConnectionManager, new_connection_manager, get_client, close_all, IsPaired, close_all_lem,
  get_client-IsPaired,
}

-- The functions that a node registers, nil at first.
pub record Handlers : Type 0 where
  pub append_entries_handler : Option (AppendEntriesRequest → Option AppendEntriesResponse)
  pub request_vote_handler : Option (RequestVoteRequest → Option RequestVoteResponse)
  pub install_snapshot_handler : Option (InstallSnapshotRequest → Option InstallSnapshotResponse)

-- `pb.RaftClient`: the calls of one peer, `none` for an error.
pub record Client : Type 0 where
  pub call_append_entries : ProtoAppendEntriesRequest → Option ProtoAppendEntriesResponse
  pub call_request_vote : ProtoRequestVoteRequest → Option ProtoRequestVoteResponse
  pub call_install_snapshot : ProtoInstallSnapshotRequest → Option ProtoInstallSnapshotResponse

pub record Transport (N : Type 0) : Type 0 where
  pub running : Bool
  pub address : String
  pub handlers : Handlers
  pub conn_manager : ConnectionManager N Client

module _ {N : Type 0} where
  -- `resolve` is `net.ResolveTCPAddr`.
  unfoldable pub new_transport : (String → Option String) → String → Option (Transport N)
  unfolding new_connection_manager
  new_transport resolve address = elim (resolve address) [
    | none ↦ none
    | some resolved ↦ some (record {
      running = false;
      address = resolved;
      handlers = record {
        append_entries_handler = none;
        request_vote_handler = none;
        install_snapshot_handler = none;
      };
      conn_manager = new_connection_manager;
    })
  ]

  unfoldable pub register_append_entries_handler :
      (AppendEntriesRequest → Option AppendEntriesResponse) → Transport N → Transport N
  register_append_entries_handler f t = record t {
    handlers = record (t.handlers) { append_entries_handler = some f };
  }

  unfoldable pub register_request_vote_handler :
      (RequestVoteRequest → Option RequestVoteResponse) → Transport N → Transport N
  register_request_vote_handler f t = record t {
    handlers = record (t.handlers) { request_vote_handler = some f };
  }

  unfoldable pub register_install_snapshot_handler :
      (InstallSnapshotRequest → Option InstallSnapshotResponse) → Transport N → Transport N
  register_install_snapshot_handler f t = record t {
    handlers = record (t.handlers) { install_snapshot_handler = some f };
  }

  -- `listen` says whether the address can be listened on; the first component is the error.
  unfoldable pub run : (String → Bool) → Transport N → Bool × Transport N
  run listen t =
      if t.running
      then (false, t)
      else if listen t.address
      then (false, record t { running = true })
      else (true, t)

  -- The server has stopped, by itself or after the grace period, when the connections are closed.
  unfoldable pub shutdown_transport : Transport N → Transport N
  unfolding close_all
  shutdown_transport t =
      if t.running then record t { running = false; conn_manager = close_all t.conn_manager } else t

  module _ (connect : String → Option N) (client_of : N → Client) (peer : String) where
    -- The client for the address of a peer, if the transport runs.
    unfoldable pub reach : Transport N → Option Client × Transport N
    reach t =
        if t.running
        then (let (o, m) = get_client connect client_of peer t.conn_manager in
            (o, record t { conn_manager = m }))
        else (none, t)

    unfoldable pub call_append_entries_of :
        AppendEntriesRequest → Transport N → Option AppendEntriesResponse × Transport N
    unfolding reach
    call_append_entries_of request t =
        let (o, t1) = reach t in
        (
          elim o [
            | none ↦ none
            | some c ↦ send_append_entries t.running c.call_append_entries request
          ],
          t1,
        )

    unfoldable pub call_request_vote_of :
        RequestVoteRequest → Transport N → Option RequestVoteResponse × Transport N
    unfolding reach
    call_request_vote_of request t =
        let (o, t1) = reach t in
        (
          elim o [ none ↦ none | some c ↦ send_request_vote t.running c.call_request_vote request ],
          t1,
        )

    unfoldable pub call_install_snapshot_of :
        InstallSnapshotRequest → Transport N → Option InstallSnapshotResponse × Transport N
    unfolding reach
    call_install_snapshot_of request t =
        let (o, t1) = reach t in
        (
          elim o [
            | none ↦ none
            | some c ↦ send_install_snapshot t.running c.call_install_snapshot request
          ],
          t1,
        )

    pub reach-IsPaired :
        (t : Transport N) → IsPaired t.conn_manager → IsPaired (reach t).1.conn_manager
    unfolding reach
    reach-IsPaired t h = elim (Bool-cases t.running) [
      | inl e ↦ rw e (get_client-IsPaired connect client_of peer t.conn_manager h)
      | inr e ↦ rw e h
    ]

    -- A transport that does not run makes no call and no connection.
    closed_makes_no_call :
        (t : Transport N) (a : AppendEntriesRequest) (v : RequestVoteRequest)
        (i : InstallSnapshotRequest)
        → t.running ≡ false
        → (call_append_entries_of a t ≡ (none, t))
          × (call_request_vote_of v t ≡ (none, t))
          × (call_install_snapshot_of i t ≡ (none, t))
    unfolding call_append_entries_of call_request_vote_of call_install_snapshot_of
    closed_makes_no_call t a v i h = (rw h refl, rw h refl, rw h refl)

    -- After a shutdown the transport has no client left and refuses every call, without a new
    -- connection; a second shutdown does nothing; and it runs again, with its handlers and address,
    -- where the address can be listened on. Before, it runs, and each client has its connection.
    pub shutdown_closes :
        (listen : String → Bool) (t : Transport N) (a : AppendEntriesRequest)
        (v : RequestVoteRequest) (i : InstallSnapshotRequest)
        → t.running ≡ true
        → IsPaired t.conn_manager
        → let s = shutdown_transport t in
          (has_key peer s.conn_manager.clients ≡ false)
          × (call_append_entries_of a s ≡ (none, s))
          × (call_request_vote_of v s ≡ (none, s))
          × (call_install_snapshot_of i s ≡ (none, s))
          × (shutdown_transport s ≡ s)
          × (run listen s
              ≡ (if listen t.address then (false, record s { running = true }) else (true, s)))
    unfolding shutdown_transport run
    shutdown_closes listen t a v i up paired =
        let s : Transport N = record t {
          running = false;
          conn_manager = close_all t.conn_manager;
        } in
        let (x, y, z) = closed_makes_no_call s a v i refl in
        rw up (close_all_lem t.conn_manager peer paired, x, y, z, refl, refl)

  -- The serving side: a handler that is not registered is a nil function, whose call panics.
  unfoldable pub serve_append_entries :
      ProtoAppendEntriesRequest → Transport N → Outcome RpcError (Option ProtoAppendEntriesResponse)
  serve_append_entries request t = elim t.handlers.append_entries_handler [
    | none ↦ fatal
    | some f ↦ ok (append_entries f request)
  ]

  unfoldable pub serve_request_vote :
      ProtoRequestVoteRequest → Transport N → Outcome RpcError (Option ProtoRequestVoteResponse)
  serve_request_vote request t = elim t.handlers.request_vote_handler [
    | none ↦ fatal
    | some f ↦ ok (request_vote f request)
  ]

  unfoldable pub serve_install_snapshot :
      ProtoInstallSnapshotRequest
      → Transport N
      → Outcome RpcError (Option ProtoInstallSnapshotResponse)
  serve_install_snapshot request t = elim t.handlers.install_snapshot_handler [
    | none ↦ fatal
    | some f ↦ ok (install_snapshot f request)
  ]
