-- ===== src/Limits/Limiter.antt =====
-- `Limiter` of internal/ratelimit/limiter.go. A time is its nanoseconds since 1970, and a duration its
-- nanoseconds.
use platarium_gateway_go.Common.{
  ℕ, ◌+◌, Bool, true, false, Option, none, some, [], ltb, leb, if◌then◌else◌,
}
use platarium_gateway_go.Common.Int.{ℤ, pos, negsuc}
use platarium_gateway_go.Common.Text.{Text}
use platarium_gateway_go.Common.Dict.{Dict, lookup, insert}

pub record Bucket : Type 0 where
  pub count : ℕ
  pub reset_at : ℕ

pub record Limiter : Type 0 where
  pub buckets : Dict Bucket
  pub limit : ℕ
  pub window : ℕ

-- A number that is not positive is replaced.
abbrev pub positive_or : ℕ → ℤ → ℕ
positive_or d (pos n) = if ltb 0 n then n else d
positive_or d (negsuc n) = d

abbrev pub new_limiter : ℤ → ℤ → Limiter
new_limiter limit window = record {
  buckets = [];
  limit = positive_or 30 limit;
  window = positive_or 60000000000 window;
}

-- A new window, of which this call is the first.
unfoldable pub open_window : Text → ℕ → Limiter → Limiter × Bool
unfolding insert
open_window key now l = (
  record l { buckets = insert key (record { count = 1; reset_at = now + l.window }) l.buckets },
  true,
)

-- A call in the window of `b`.
unfoldable pub count_call : Text → Bucket → Limiter → Limiter × Bool
unfolding insert
count_call key b l =
    if leb l.limit b.count
    then (l, false)
    else (record l { buckets = insert key (record b { count = b.count + 1 }) l.buckets }, true)

-- From the bucket of the key, where there is one.
unfoldable pub allow_at : Option Bucket → Text → ℕ → Limiter → Limiter × Bool
unfolding open_window count_call
allow_at none key now l = open_window key now l
allow_at (some b) key now l =
    if ltb b.reset_at now then open_window key now l else count_call key b l

unfoldable pub allow : Text → ℕ → Limiter → Limiter × Bool
unfolding lookup allow_at
allow key now l = allow_at (lookup key l.buckets) key now l
