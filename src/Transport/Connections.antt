-- ===== src/Transport/Connections.antt =====
-- transport.go: the connection manager, and the running flag of the transport. What gRPC makes for an
-- address, and the client on a connection, are parameters. The listener's errors are left out.
use goraft.Prelude.{
  ◌≡◌, refl, String, [], ◌∷◌, Option, none, some, true, false, str_eq, if◌then◌else◌, arith,
}
use goraft.Prelude.Assoc.{Entries, lookup, insert, remove, has_key, lookup-insert, lookup-remove}

pub record ConnectionManager (N C : Type 0) : Type 0 where
  pub connections : Entries N
  pub clients : Entries C

unfoldable pub new_connection_manager : {N C : Type 0} → ConnectionManager N C
new_connection_manager = record { connections = []; clients = [] }

has_key-insert :
    {V : Type 0} (key asked : String) (v : V) (es : Entries V)
    → has_key asked (insert key v es) ≡ (if str_eq key asked then true else has_key asked es)
unfolding has_key
has_key-insert key asked v es = ground (arith, lookup-insert key asked v es)

has_key-remove :
    {V : Type 0} (key asked : String) (es : Entries V)
    → has_key asked (remove key es) ≡ (if str_eq key asked then false else has_key asked es)
unfolding has_key
has_key-remove key asked es = ground (arith, lookup-remove key asked es)

module _ {N C : Type 0} where
  -- `none` is the error of `grpc.NewClient`.
  unfoldable pub get_client :
      (String → Option N)
      → (N → C)
      → String
      → ConnectionManager N C
      → Option C × ConnectionManager N C
  get_client connect client_of address m = elim (lookup address m.clients) [
    | some c ↦ (some c, m)
    | none ↦ elim (connect address) [
      | none ↦ (none, m)
      | some n ↦ (
        some (client_of n),
        record {
          connections = insert address n m.connections;
          clients = insert address (client_of n) m.clients;
        },
      )
    ]
  ]

  unfoldable pub forget_all : Entries N → Entries C → Entries C
  forget_all [] clients = clients
  forget_all ((address, n) ∷ rest) clients = forget_all rest (remove address clients)

  unfoldable pub close_all : ConnectionManager N C → ConnectionManager N C
  unfolding forget_all
  close_all m = record { connections = []; clients = forget_all m.connections m.clients }

  -- Every client has its connection.
  abbrev pub IsPaired : ConnectionManager N C → Type 0
  IsPaired m = (a : String) → has_key a m.clients ≡ has_key a m.connections

  forget_all_lem :
      (a : String) (connections : Entries N) (clients : Entries C)
      → has_key a (forget_all connections clients)
        ≡ (if has_key a connections then false else has_key a clients)
  unfolding forget_all has_key lookup
  forget_all_lem a [] clients = refl
  forget_all_lem a ((address, n) ∷ rest) clients =
      ground
        (arith, forget_all_lem a rest (remove address clients), has_key-remove address a clients)

  pub get_client-IsPaired :
      (connect : String → Option N) (client_of : N → C) (address : String)
      (m : ConnectionManager N C)
      → IsPaired m
      → IsPaired (get_client connect client_of address m).1
  unfolding get_client
  get_client-IsPaired connect client_of address m h a =
      go (lookup address m.clients) (connect address) refl refl
    where
      go :
          (o : Option C) (opened : Option N)
          → lookup address m.clients ≡ o
          → connect address ≡ opened
          → has_key a (get_client connect client_of address m).1.clients
            ≡ has_key a (get_client connect client_of address m).1.connections
      go (some c) opened k q = rw (get_client, k) (h a)
      go none none k q = rw (get_client, k, q) (h a)
      go none (some n) k q =
          rw
            (
              get_client,
              k,
              q,
              has_key-insert address a (client_of n) m.clients,
              has_key-insert address a n m.connections,
              h a,
            )
            refl

  -- Closing leaves no client that could be used again.
  pub close_all_lem :
      (m : ConnectionManager N C) (a : String)
      → IsPaired m
      → has_key a (close_all m).clients ≡ false
  unfolding close_all
  close_all_lem m a h = ground (arith, forget_all_lem a m.connections m.clients, h a)
