-- ===== src/UpdateMetadata/Chrono.antt =====
-- The `chrono` crate: UTC times and the spans between them.
use bottlerocket_core_kit.Prelude.{
  ℕ, ◌+◌, ◌-◌, ◌*◌, ◌/◌, ◌≤◌, ◌<◌, ◌≡◌, refl, Bool, false, Option, none, some, arith, ltb, leb,
  le→leb, if◌then◌else◌,
}

-- A time is placed by its distance `at` from the earliest one, in nanoseconds. `/` rounds the
-- seconds and the rest of a span down one by one, so that it may fall short by less than two. `+`
-- panics, here none, where it leaves the range of times, whose last has the distance `latest`; the
-- laws say nothing of it for a span that goes back. A span is divided and multiplied by numbers up
-- to 2048, where no `i64` overflows.
pub record Chrono : Type 1 where
  pub Time : Type 0
  pub Span : Type 0
  pub at : Time → ℕ
  pub nanos : Span → ℕ
  pub IsForward : Span → Type 0
  pub le : Time → Time → Bool
  pub lt : Time → Time → Bool
  pub minus : Time → Time → Span
  pub div : Span → ℕ → Span
  pub mul : Span → ℕ → Span
  pub latest : ℕ
  pub plus : Time → Span → Option Time
  pub le_at : (t u : Time) → le t u ≡ leb (at t) (at u)
  pub lt_at : (t u : Time) → lt t u ≡ ltb (at t) (at u)
  pub minus_at :
      (t u : Time) → at u ≤ at t → IsForward (minus t u) × (nanos (minus t u) ≡ at t - at u)
  pub div_nanos :
      (d : Span) (k : ℕ)
      → 0 < k
      → k ≤ 2048
      → IsForward d
      → IsForward (div d k)
        × (nanos (div d k) * k ≤ nanos d)
        × (nanos d < (nanos (div d k) + 2) * k)
  pub mul_nanos :
      (d : Span) (k : ℕ)
      → k ≤ 2048
      → IsForward d
      → nanos d ≤ latest
      → IsForward (mul d k) × (nanos (mul d k) ≡ nanos d * k)
  pub plus_within :
      (t : Time) (d : Span)
      → IsForward d
      → at t + nanos d ≤ latest
      → (u : Time) × (plus t d ≡ some u) × (at u ≡ at t + nanos d)
  pub plus_beyond : (t : Time) (d : Span) → IsForward d → latest < at t + nanos d → plus t d ≡ none

pub div_number :
    (d k : ℕ) → 0 < k → k ≤ 2048 → Unit {0} → Unit {0} × (d / k * k ≤ d) × (d < (d / k + 2) * k)
div_number d k h _ _ = (tt, grind arith, grind arith)

-- Times as plain numbers up to a last one.
abbrev pub last_number : ℕ
last_number = 1000000000000

abbrev pub plus_number : ℕ → ℕ → Option ℕ
plus_number t d = if leb (t + d) last_number then some (t + d) else none

pub number_beyond : (n : ℕ) → last_number < n → leb n last_number ≡ false
number_beyond n h = ground arith

instance abbrev pub number_times : Chrono
number_times = record {
  Time = ℕ;
  Span = ℕ;
  at = λ t. t;
  nanos = λ d. d;
  IsForward = λ _. Unit;
  le = leb;
  lt = ltb;
  minus = λ t u. t - u;
  div = λ d k. d / k;
  mul = λ d k. d * k;
  latest = last_number;
  plus = plus_number;
  le_at = λ t u. refl;
  lt_at = λ t u. refl;
  minus_at = λ t u h. (tt, refl);
  div_nanos = div_number;
  mul_nanos = λ d k h f b. (tt, refl);
  plus_within = λ t d f h. let fits = le→leb (t + d) last_number h in (t + d, rw fits refl, refl);
  plus_beyond = λ t d f h. rw (number_beyond (t + d) h) refl;
}
