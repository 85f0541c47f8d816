-- ===== src/Reliable/Dispatcher/Backoff.antt =====
-- How long Backoff waits.
use gline.Base.{
  ℕ, zero, suc, ◌-◌, ◌*◌, ◌^◌, ◌≤◌, min, max, ◌≡◌, ℤ, pos, negsuc, below, above, to_nat, none, some,
  arith, if◌then◌else◌,
}
use gline.Reliable.Dispatcher.{Jitter, doubled, backoff}

twice : (d p : ℕ) → d * 2 * p ≡ d * (2 * p)
twice d p = omega arith

enough : (m d p : ℕ) → m ≤ d * 2 → 1 ≤ p → m ≤ d * (2 * p)
enough m d p h one = grind (arith, twice d p)

one_le_pow : (n : ℕ) → 1 ≤ 2 ^ n
one_le_pow zero = ground arith
one_le_pow (suc n) = ground (arith, one_le_pow n)

doubled_lem : (n d m : ℕ) → d ≤ m → min (doubled n d m) m ≡ min m (d * 2 ^ n)
unfolding doubled
doubled_lem zero d m h = ground arith
doubled_lem (suc n) d m h =
    ground (arith, twice d (2 ^ n), enough m d (2 ^ n), one_le_pow n, doubled_lem n (d * 2) m)

-- Without jitter, and with a base delay up to the maximum, the wait is the base delay, doubled for
-- every attempt after the first, up to the maximum: the early ends of the loop, which keep the
-- doubling from overflowing, change nothing.
pub backoff_doubles :
    (attempt base maximum : ℕ)
    → base ≤ maximum
    → backoff attempt base maximum none ≡ min maximum (base * 2 ^ (max 1 attempt - 1))
unfolding backoff
backoff_doubles attempt base maximum h = doubled_lem (max 1 attempt - 1) base maximum h

at_most : (i : ℤ) (m : ℕ) → (if below i 0 then 0 else if above i m then m else to_nat i) ≤ m
at_most (pos n) m = ground arith
at_most (negsuc n) m = ground arith

-- Whatever the attempt and the jitter, the wait is at most the maximum.
pub backoff-le-maximum :
    (attempt base maximum : ℕ) (jitter : Jitter) → backoff attempt base maximum jitter ≤ maximum
unfolding backoff
backoff-le-maximum attempt base maximum none = ground arith
backoff-le-maximum attempt base maximum (some scaled) =
    at_most (scaled (min (doubled (max 1 attempt - 1) base maximum) maximum)) maximum
