-- ===== src/Raft/Apply/Steps.antt =====
-- What a step of the apply loop does.
use goraft.Prelude.{
  ℕ, ◌+◌, ◌≤◌, ◌<◌, ◌≡◌, ◌≢◌, refl, ◌⊎◌, inl, inr, List, Option, none, some, Bool, false, ◌∙◌, [],
  ◌∷◌, dec_le, le→leb, leb, arith, u64_mod, add64, ok, lt→ltb,
}
use goraft.Log.{LogEntry, get_entry, last_index, no_op_entry, operation_entry, configuration_entry}
use goraft.Log.Index.{IsLog, get_entry_in_range, last_index-eq}
use goraft.Configuration.{Configuration}
use goraft.Operation.{Operation}
use goraft.Event.{answer_nobody}
use goraft.Raft.{Raft, is_shutdown, emit}
use goraft.Raft.Roles.{next_configuration}
use goraft.Raft.Roles.Terms.{Frame, Frame-refl, next_configuration-Frame}
use goraft.Raft.Apply.{
  Applying, waits, applied, applies, apply_configuration, pending_channel, drop_pending,
  count_applied, begin_operation, apply_entry, begin_apply, end_apply,
}

same_index :
    (o : Option Configuration) (c d : Configuration) → o ≡ some c → o ≡ some d → c.index ≡ d.index
same_index o c d h k = ground arith

pub not_le→leb : (a b : ℕ) → b < a → leb a b ≡ false
not_le→leb a b h = ground arith

apply_cases :
    (now : ℕ) (c : Configuration) (r : Raft)
    → let s = apply_configuration now c r in
      ((old : Configuration) × (r.committed_configuration ≡ some old)
        × (c.index ≤ old.index)
        × (s ≡ r))
      ⊎ (((old : Configuration) → r.committed_configuration ≡ some old → old.index < c.index)
          × (s ≡ record (next_configuration now c r) { committed_configuration = some c }))
unfolding apply_configuration
apply_cases now c r = go r.committed_configuration refl
  where
    go :
        (o : Option Configuration)
        → r.committed_configuration ≡ o
        → let s = apply_configuration now c r in
          ((old : Configuration) × (r.committed_configuration ≡ some old)
            × (c.index ≤ old.index)
            × (s ≡ r))
          ⊎ (((old : Configuration) → r.committed_configuration ≡ some old → old.index < c.index)
              × (s ≡ record (next_configuration now c r) { committed_configuration = some c }))
    go none eq = inr ((λ old h. absurd (cc (eq, h))), rw eq refl)
    go (some old) eq = elim (dec_le c.index old.index) [
      | yes h ↦ inl (old, eq, h, rw (eq, le→leb _ _ h) refl)
      | no h ↦ inr (
        (λ o f. omega (arith, same_index r.committed_configuration o old f eq)),
        rw (eq, not_le→leb c.index old.index (omega arith)) refl,
      )
    ]

committed-Frame :
    (r s : Raft) (c : Configuration)
    → Frame r s
    → Frame r (record s { committed_configuration = some c })
committed-Frame r s c f = ground (arith, f)

-- Applying a configuration leaves a committed one that is no older than before, and no older than
-- the applied one; terms, votes, indices and the log are untouched.
pub apply_configuration_monotone :
    (now : ℕ) (c : Configuration) (r : Raft)
    → let s = apply_configuration now c r in
      (d : Configuration) × (s.committed_configuration ≡ some d)
      × (c.index ≤ d.index)
      × ((old : Configuration) → r.committed_configuration ≡ some old → old.index ≤ d.index)
      × Frame r s
      × (s.log ≡ r.log)
apply_configuration_monotone now c r = elim (apply_cases now c r) [
  | inl (old, eq, newer, same) ↦ rw same (
    old,
    eq,
    newer,
    (λ o f. omega (arith, same_index r.committed_configuration o old f eq)),
    Frame-refl r,
    refl,
  )
  | inr (older, same) ↦
      let (f, log, _) = next_configuration-Frame now c r in
      rw same (
        c,
        refl,
        omega arith,
        (λ o h. omega (arith, older o h)),
        committed-Frame r (next_configuration now c r) c f,
        log,
      )
]

-- What a step finds at the entry e, in the state r.
abbrev pub Step : LogEntry → Raft → Applying → Type 0
Step e r (waits s) = ⊥
Step e r (applied s) =
    (e.entry_type ≢ operation_entry)
    × (s.last_applied ≡ r.last_applied + 1)
    × (s.commit_index ≡ r.commit_index)
    × (s.log ≡ r.log)
Step e r (applies o channel n s) =
    (e.entry_type ≡ operation_entry)
    × (o.bytes ≡ e.data_bytes)
    × (o.log_index ≡ r.last_applied + 1)
    × (o.log_term ≡ e.term)
    × (n ≡ r.last_applied)
    × (channel ≡ pending_channel e.index r.operation_manager.pending_replicated)
    × (pending_channel e.index s.operation_manager.pending_replicated ≡ none)
    × (s.last_applied ≡ r.last_applied)
    × (s.commit_index ≡ r.commit_index)
    × (s.log ≡ r.log)

pending_channel-drop_pending :
    (i : ℕ) (ps : List (ℕ × ℕ)) → pending_channel i (drop_pending i ps) ≡ none
unfolding pending_channel drop_pending
pending_channel-drop_pending i [] = refl
pending_channel-drop_pending i ((j, c) ∷ ps) = ground (arith, pending_channel-drop_pending i ps)

count_applied_lem :
    (need : ℕ → Bool) (r : Raft)
    → ((count_applied need r).last_applied ≡ add64 r.last_applied 1)
      × ((count_applied need r).commit_index ≡ r.commit_index)
      × ((count_applied need r).log ≡ r.log)
unfolding count_applied
count_applied_lem need r = ground arith

apply_configuration_keeps :
    (now : ℕ) (c : Configuration) (r : Raft)
    → let s = apply_configuration now c r in
      (s.last_applied ≡ r.last_applied) × (s.commit_index ≡ r.commit_index) × (s.log ≡ r.log)
apply_configuration_keeps now c r =
    let (_, _, _, _, f, log) = apply_configuration_monotone now c r in
    (f.same_last_applied, f.same_commit_index, log)

-- An entry of a type that the loop knows, with a configuration that can be decoded.
abbrev pub IsKnown : (List ℕ → Option Configuration) → LogEntry → Type 0
IsKnown decode e =
    (e.entry_type ≡ no_op_entry)
    ⊎ ((e.entry_type ≡ operation_entry)
        ⊎ ((e.entry_type ≡ configuration_entry)
            × ((c : Configuration) × (decode e.data_bytes ≡ some c))))

begin_operation-Step :
    (e : LogEntry) (r : Raft)
    → e.entry_type ≡ operation_entry
    → e.index ≡ r.last_applied + 1
    → (o : Operation) × (c : Option ℕ) × (n : ℕ) × (s : Raft) × (begin_operation e r
        ≡ applies o c n s)
      × Step e r (applies o c n s)
unfolding begin_operation
begin_operation-Step e r h index = (
  _,
  _,
  _,
  _,
  refl,
  (
    h,
    refl,
    index,
    refl,
    refl,
    refl,
    pending_channel-drop_pending e.index r.operation_manager.pending_replicated,
    refl,
    refl,
    refl,
  ),
)

apply_entry-Step :
    (decode : List ℕ → Option Configuration) (need : ℕ → Bool) (now : ℕ) (e : LogEntry) (r : Raft)
    → IsKnown decode e
    → e.index ≡ r.last_applied + 1
    → r.last_applied + 1 < u64_mod
    → (a : Applying) × (apply_entry decode need now e r ≡ ok a) × Step e r a
unfolding apply_entry
apply_entry-Step decode need now e r (inl h) index room =
    let (n, c, l) = count_applied_lem need r in
    (applied (count_applied need r), rw h refl, ((λ k. absurd (cc (h, k))), omega (arith, n), c, l))
apply_entry-Step decode need now e r (inr (inl h)) index room =
    let (o, c, n, s, eq, step) = begin_operation-Step e r h index in
    (applies o c n s, rw (h, eq) refl, step)
apply_entry-Step decode need now e r (inr (inr (h, (c, d)))) index room =
    let t = emit (answer_nobody ∷ []) (apply_configuration now c r) in
    let (n, k, l) = count_applied_lem need t in
    let (n1, k1, l1) = apply_configuration_keeps now c r in
    (
      applied (count_applied need t),
      rw h (rw d refl),
      ((λ x. absurd (cc (h, x))), omega (arith, n, n1), k ∙ k1, l ∙ l1),
    )

-- While there are committed entries left, a step of the apply loop neither waits nor fails: it
-- takes up exactly the next entry. A no-op or a configuration is counted as applied; an operation
-- goes to the state machine with the entry's bytes, index and term, and with its channel, which no
-- later step finds. The log is well formed, starts at or before the last applied entry, and
-- contains the commit index; the entry is of a known type.
pub begin_apply-Step :
    (decode : List ℕ → Option Configuration) (need : ℕ → Bool) (now : ℕ) (r : Raft)
    → IsLog r.log
    → is_shutdown r.state ≡ false
    → r.log.placeholder.index ≤ r.last_applied
    → r.last_applied < r.commit_index
    → r.commit_index ≤ last_index r.log
    → ((e : LogEntry) → get_entry r.log (r.last_applied + 1) ≡ some e → IsKnown decode e)
    → (e : LogEntry) × (get_entry r.log (r.last_applied + 1) ≡ some e)
      × ((a : Applying) × (begin_apply decode need now r ≡ ok a) × Step e r a)
unfolding begin_apply
begin_apply-Step decode need now r w up base left within known =
    let (e, found, index) = get_entry_in_range w (r.last_applied + 1) (omega arith) (omega arith) in
    let room : r.last_applied + 1 < u64_mod = omega (arith, last_index-eq w, w.fits) in
    let next : add64 r.last_applied 1 ≡ r.last_applied + 1 = omega arith in
    let (a, eq, step) = apply_entry-Step decode need now e r (known e found) index room in
    (e, found, (a, rw (up, lt→ltb r.last_applied r.commit_index left, next, found) eq, step))

-- When the state machine has applied an operation, the last applied index goes up by one if it is
-- still the one that the step saw, and is left alone if a snapshot has moved it.
pub end_apply_lem :
    (need : ℕ → Bool) (o : Operation) (channel : Option ℕ) (n : ℕ) (r : Raft)
    → r.last_applied + 1 < u64_mod
    → let s = end_apply need o channel n r in
      (r.last_applied ≡ n → s.last_applied ≡ r.last_applied + 1)
      × (r.last_applied ≢ n → s.last_applied ≡ r.last_applied)
      × (s.commit_index ≡ r.commit_index)
      × (s.log ≡ r.log)
unfolding end_apply count_applied
end_apply_lem need o channel n r room = ground arith
