-- ===== src/Future.antt =====
-- future.go: a channel that buffers one result, and the future that reads it. A blocking `Await`
-- ends by the channel or by the timer; the argument `timer_first` is the runtime's choice.
use goraft.Prelude.{
  ℕ, ◌≡◌, refl, List, [], ◌∷◌, Option, none, some, Bool, false, if◌then◌else◌, arith,
}

pub data Failure : Type 0 where
  timeout not_leader invalid_lease pending_configuration no_commit_this_term
        invalid_operation_type :
      Failure

-- `err` is nil where the operation succeeded.
pub record Result (A : Type 0) : Type 0 where
  pub success : A
  pub error : Option Failure

-- A channel made with capacity 1: its buffered result.
abbrev pub Channel : Type 0 → Type 0
Channel A = Option (Result A)

pub record Future (A : Type 0) : Type 0 where
  pub response_ch : Channel A
  pub timeout_after : ℕ
  pub response : Option (Result A)

module _ {A : Type 0} where
  unfoldable pub new_future : ℕ → Future A
  new_future timeout_after = record {
    response_ch = none;
    timeout_after = timeout_after;
    response = none;
  }

  -- A send that does not block: it is dropped where the buffer is full.
  unfoldable pub respond : Channel A → A → Option Failure → Channel A
  respond none response error = some (record { success = response; error = error })
  respond (some r) response error = some r

  timed_out : A → Result A
  timed_out zero_value = record { success = zero_value; error = some timeout }

  -- `zero_value` is Go's zero value of the response type.
  unfoldable pub await : A → Bool → Future A → Future A × Result A
  unfolding timed_out
  await zero_value timer_first f = elim f.response [
    | some r ↦ (f, r)
    | none ↦ elim f.response_ch [
      | none ↦ (record f { response = some (timed_out zero_value) }, timed_out zero_value)
      | some r ↦
          if timer_first
          then (record f { response = some (timed_out zero_value) }, timed_out zero_value)
          else (record f { response_ch = none; response = some r }, r)
    ]
  ]

  -- All further results that a node sends: the first that was sent counts.
  unfoldable pub respond_all : Channel A → List (A × Option Failure) → Channel A
  unfolding respond
  respond_all c [] = c
  respond_all c ((a, e) ∷ rs) = respond_all (respond c a e) rs

  respond_all_full :
      (r : Result A) (rs : List (A × Option Failure)) → respond_all (some r) rs ≡ some r
  unfolding respond_all
  respond_all_full r [] = refl
  respond_all_full r ((a, e) ∷ rs) = respond_all_full r rs

  -- A future that is awaited before its timer fires yields the first result that was sent, however
  -- many follow, and every later wait yields it again, whichever way the runtime would choose.
  pub await-respond_all :
      (z a : A) (e : Option Failure) (timeout_after : ℕ) (rs : List (A × Option Failure))
      (choice : Bool)
      → let f = record (new_future timeout_after) {
        response_ch = respond_all none ((a, e) ∷ rs);
      } in
        let (g, r) = await z false f in
        (r ≡ record { success = a; error = e }) × (await z choice g ≡ (g, r))
  unfolding await new_future respond_all
  await-respond_all z a e timeout_after rs choice =
      ground (arith, respond_all_full (record { success = a; error = e }) rs)
