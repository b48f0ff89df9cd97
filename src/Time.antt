-- ===== src/Time.antt =====
-- Times: timeops.h and timeops.cpp. A time is not negative, and sums stay
-- within a signed word of 64 bits. `max` is MAX_SUBSECS: a million for a
-- timeval, a thousand million for a timespec.
mod Tests
use native.Mathlib.Nat.{add-mul, one-mul, mul-le-mul_right}
use libcmm.Prelude.{
  ℕ, ◌+◌, ◌-◌, ◌*◌, ◌/◌, ◌%◌, ◌^◌, ◌≤◌, ◌<◌, ◌≡◌, ◌⊎◌, ap, ==_iff, Bool, true, false, ◌||◌, ◌&&◌,
  not, Option, none, some, ltb, leb, ◌==◌, if◌then◌else◌, arith, Bool-cases, inl, inr,
}

pub record Time : Type 0 where
  pub tv_sec : ℕ
  pub subseconds : ℕ

abbrev pub max_usecs : ℕ
max_usecs = 1000000

abbrev pub timerclear : Time
timerclear = record { tv_sec = 0; subseconds = 0 }

unfoldable pub timeradd : ℕ → Time → Time → Time
timeradd max t u =
    let sub = t.subseconds + u.subseconds in
    if leb max sub
    then record { tv_sec = t.tv_sec + u.tv_sec + 1; subseconds = sub - max }
    else record { tv_sec = t.tv_sec + u.tv_sec; subseconds = sub }

-- TIMEDIFF, `none` if the assertion that the end is no earlier fails.
unfoldable pub timediff : ℕ → Time → Time → Option Time
timediff max b e =
    if ltb b.tv_sec e.tv_sec || ((e.tv_sec == b.tv_sec) && leb b.subseconds e.subseconds)
    then some (
        if ltb e.subseconds b.subseconds
        then record {
          tv_sec = e.tv_sec - b.tv_sec - 1;
          subseconds = max + e.subseconds - b.subseconds;
        }
        else record { tv_sec = e.tv_sec - b.tv_sec; subseconds = e.subseconds - b.subseconds })
    else none

-- `abs_time`; the argument `now` is the reading of the clock.
abbrev pub abs_time : Time → Time → Time
abs_time now rel = timeradd 1000000000 now rel

-- suseconds_t is a signed word of 64 bits.
unfoldable pub convert_to_useconds : Time → ℕ
convert_to_useconds tv =
    let useconds = tv.tv_sec * 1000000 % 2 ^ 64 in
    if leb (2 ^ 63) useconds || ltb useconds tv.tv_sec
    then 0
    else (useconds + tv.subseconds) % 2 ^ 64

unfoldable pub convert_to_timeval : ℕ → Time
convert_to_timeval useconds =
    let sec = useconds / 1000000 in record { tv_sec = sec; subseconds = useconds - sec * 1000000 }

-- Normal form, and the whole time in subseconds.
abbrev pub IsNormal : ℕ → Time → Type 0
IsNormal max t = t.subseconds < max

abbrev pub total : ℕ → Time → ℕ
total max t = t.tv_sec * max + t.subseconds

-- A time made of microseconds is in normal form, and converts back to them if they are fewer than
-- 2 ^ 63.
pub convert_to_useconds-convert_to_timeval :
    (useconds : ℕ)
    → useconds < 2 ^ 63
    → IsNormal max_usecs (convert_to_timeval useconds)
      × (convert_to_useconds (convert_to_timeval useconds) ≡ useconds)
unfolding convert_to_useconds convert_to_timeval
convert_to_useconds-convert_to_timeval u h = (ground arith, ground arith)

-- A time in normal form of fewer than 2 ^ 63 microseconds is what its microseconds convert to.
pub convert_to_timeval-convert_to_useconds :
    (t : Time)
    → IsNormal max_usecs t
    → total max_usecs t < 2 ^ 63
    → convert_to_timeval (convert_to_useconds t) ≡ t
unfolding convert_to_useconds convert_to_timeval
convert_to_timeval-convert_to_useconds t n h = ground arith

-- A sum of two times in normal form is in normal form, and lasts as long as both.
pub timeradd_lem :
    (max : ℕ) (t u : Time)
    → IsNormal max t
    → IsNormal max u
    → IsNormal max (timeradd max t u) × (total max (timeradd max t u) ≡ total max t + total max u)
unfolding timeradd
timeradd_lem max t u h k = (
  ground arith,
  ground (arith, add-mul t.tv_sec u.tv_sec max, add-mul (t.tv_sec + u.tv_sec) 1 max, one-mul max),
)

total-lt :
    (max : ℕ) (e b : Time)
    → IsNormal max b
    → IsNormal max e
    → e.tv_sec < b.tv_sec
    → total max e < total max b
total-lt max e b h k lt = omega (
  arith,
  mul-le-mul_right {m = e.tv_sec + 1} {n = b.tv_sec} max (omega arith),
  add-mul e.tv_sec 1 max,
  one-mul max,
)

-- The difference of two times in normal form fails the assertion exactly when the end is earlier, and
-- else is the time in normal form that leads from the one to the other.
pub timediff_lem :
    (max : ℕ) (b e : Time)
    → IsNormal max b
    → IsNormal max e
    → ((timediff max b e ≡ none) × (total max e < total max b))
      ⊎ ((d : Time) × (timediff max b e ≡ some d) × IsNormal max d × (timeradd max b d ≡ e))
unfolding timediff timeradd
timediff_lem max b e h k = elim (Bool-cases (ltb b.tv_sec e.tv_sec)) [
  | inl later ↦
      let diff : Time =
        if ltb e.subseconds b.subseconds
        then record {
          tv_sec = e.tv_sec - b.tv_sec - 1;
          subseconds = max + e.subseconds - b.subseconds;
        }
        else record { tv_sec = e.tv_sec - b.tv_sec; subseconds = e.subseconds - b.subseconds } in
      inr (diff, ground arith, ground arith, ground arith)
  | inr no_later ↦ elim (Bool-cases (e.tv_sec == b.tv_sec)) [
    | inr differ ↦
        inl (ground arith, total-lt max e b h k (ground (arith, ==_iff e.tv_sec b.tv_sec)))
    | inl same ↦ elim (Bool-cases (leb b.subseconds e.subseconds)) [
      | inr before ↦
          inl (ground arith, ground (arith, ap (λ n. n * max) ((==_iff e.tv_sec b.tv_sec).0 same)))
      | inl after ↦ inr (
        record { tv_sec = e.tv_sec - b.tv_sec; subseconds = e.subseconds - b.subseconds },
        ground arith,
        ground arith,
        ground (arith, ==_iff e.tv_sec b.tv_sec),
      )
    ]
  ]
]
