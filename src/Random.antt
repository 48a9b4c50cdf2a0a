-- ===== src/Random.antt =====
-- internal/random/random.go, and what `electionTicker` of raft.go makes of it. `int63n` stands for
-- math/rand: a number below its bound, which it panics without. Durations are in nanoseconds.
use goraft.Prelude.{
  ℕ, ◌+◌, ◌-◌, ◌*◌, ◌/◌, ◌≤◌, ◌<◌, ◌≡◌, Option, none, some, ltb, if◌then◌else◌, refl, arith,
}

abbrev pub millisecond : ℕ
millisecond = 1000000

-- `d.Milliseconds()`
abbrev pub milliseconds : ℕ → ℕ
milliseconds d = d / 1000000

-- A number of milliseconds, but the type says nanoseconds. `none` is the panic of `rand.Int63n`.
unfoldable pub random_timeout : (ℕ → ℕ) → ℕ → ℕ → Option ℕ
random_timeout int63n low high =
    if ltb (milliseconds low) (milliseconds high)
    then some (int63n (milliseconds high - milliseconds low) + milliseconds low)
    else none

-- `none` is the panic of `rand.Intn`.
unfoldable pub random_int : (ℕ → ℕ) → ℕ → ℕ → Option ℕ
random_int intn low high = if ltb low high then some (low + intn (high - low)) else none

-- How long `electionTicker` sleeps.
unfoldable pub ticker_sleep : (ℕ → ℕ) → ℕ → Option ℕ
unfolding random_timeout
ticker_sleep int63n timeout = elim (random_timeout int63n timeout (2 * timeout)) [
  | none ↦ none
  | some n ↦ some (n * 1000000)
]

-- math/rand: the result lies below the bound.
abbrev pub IsBelow : (ℕ → ℕ) → Type 0
IsBelow int63n = (n : ℕ) → 0 < n → int63n n < n

random_timeout_lem :
    (int63n : ℕ → ℕ) (low high : ℕ)
    → IsBelow int63n
    → milliseconds low < milliseconds high
    → (n : ℕ) × (random_timeout int63n low high ≡ some n)
      × (milliseconds low ≤ n)
      × (n < milliseconds high)
unfolding random_timeout
random_timeout_lem int63n low high below h =
    let small = below (milliseconds high - milliseconds low) (omega arith) in
    (
      int63n (milliseconds high - milliseconds low) + milliseconds low,
      ground arith,
      omega arith,
      omega (arith, small),
    )

-- With random numbers below their bound, an election timeout of a millisecond or more makes the
-- ticker sleep for less than twice the timeout, and for more than the timeout less a millisecond;
-- a timeout of less than half a millisecond panics.
pub ticker_sleep_bounds :
    (int63n : ℕ → ℕ) (timeout : ℕ)
    → IsBelow int63n
    → (millisecond ≤ timeout
        → (d : ℕ) × (ticker_sleep int63n timeout ≡ some d)
          × (d < 2 * timeout)
          × (timeout < d + millisecond))
      × (2 * timeout < millisecond → ticker_sleep int63n timeout ≡ none)
unfolding ticker_sleep random_timeout
ticker_sleep_bounds int63n timeout below = (
  λ long.
      let (n, e, low, high) = random_timeout_lem int63n timeout (2 * timeout) below (omega arith) in
      (n * 1000000, rw (ticker_sleep, e) refl, omega arith, omega arith),
  λ short. ground arith,
)
