-- ===== src/Web/RateLimit.antt =====
-- apps/web/server/xcs/rate-limit.ts: fixed-window counters by bucket and client. A `Map` is the list of
-- its entries in the order of iteration; times are in milliseconds. A difference of times is compared
-- by adding on the other side, since it may be negative.
pub mod Bounds
pub mod Budget
use xcs.Common.{
  ℕ, suc, ◌+◌, ◌-◌, ◌/◌, max, Text, codes, Bool, true, false, not, List, [], ◌∷◌, ◌++◌, Option,
  none, some, ltb, leb, text_eq, if◌then◌else◌, filter, length,
}

pub data BudgetScope : Type 0 where
  shared route_scope : BudgetScope

pub record RouteRateLimit : Type 0 where
  pub max : ℕ
  pub time_window_ms : ℕ
  pub scope : BudgetScope

-- A route without a budget, or with `false`, has `none`.
pub record RouteDefinition : Type 0 where
  pub path : Text
  pub rate_limit : Option RouteRateLimit

abbrev pub is_shared : BudgetScope → Bool
is_shared shared = true
is_shared route_scope = false

abbrev pub bucket_name : RouteDefinition → Option RouteRateLimit → Text
bucket_name route none = codes "none"
bucket_name route (some limit) = if is_shared limit.scope then codes "default" else route.path

unfoldable pub rate_limit_bucket_key : RouteDefinition → Text → Text
rate_limit_bucket_key route address = bucket_name route route.rate_limit ++ (codes "|" ++ address)

pub record RateLimitDecision : Type 0 where
  pub allowed : Bool
  pub limit : ℕ
  pub remaining : ℕ
  pub retry_after_seconds : ℕ

pub record Window : Type 0 where
  pub count : ℕ
  pub window_start : ℕ

abbrev pub Windows : Type 0
Windows = List (Text × Window)

pub record Limiter : Type 0 where
  pub windows : Windows
  pub last_prune : ℕ

abbrev pub hour : ℕ
hour = 3600000

-- a window that can no longer deny anything
abbrev pub is_past : ℕ → Text × Window → Bool
is_past current (key, window) = ltb (window.window_start + hour) current

abbrev pub without_past : ℕ → Windows → Windows
without_past current windows = filter (λ w. not (is_past current w)) windows

unfoldable pub prune : ℕ → Limiter → Limiter
prune current limiter = record {
  windows = without_past current limiter.windows;
  last_prune = current;
}

-- the second loop of `makeRoom`
unfoldable pub drop_oldest : ℕ → Windows → Windows
drop_oldest max_windows [] = []
drop_oldest max_windows (w ∷ rest) =
    let dropped = drop_oldest max_windows rest in
    if ltb (length (w ∷ rest)) max_windows then w ∷ rest else dropped

unfoldable pub make_room : ℕ → ℕ → Windows → Windows
unfolding drop_oldest
make_room max_windows current windows =
    if ltb (length windows) max_windows
    then windows
    else drop_oldest max_windows (without_past current windows)

-- `windows.get(key)`
unfoldable pub get_window : Text → Windows → Option Window
unfolding text_eq
get_window key [] = none
get_window key ((k, w) ∷ rest) = if text_eq k key then some w else get_window key rest

-- `windows.set(key, window)`: a key that is there keeps its place.
unfoldable pub set_window : Text → Window → Windows → Windows
unfolding text_eq
set_window key window [] = (key, window) ∷ []
set_window key window ((k, w) ∷ rest) =
    let below = set_window key window rest in
    if text_eq k key then (k, window) ∷ rest else (k, w) ∷ below

-- the window that the hit counts in, before it is counted
unfoldable pub open_window : Option Window → ℕ → RouteRateLimit → Window
open_window none current limit = record { count = 0; window_start = current }
open_window (some window) current limit =
    if leb (window.window_start + limit.time_window_ms) current
    then record { count = 0; window_start = current }
    else window

abbrev pub counted : Window → Window
counted window = record { count = suc window.count; window_start = window.window_start }

unfoldable pub decide : RouteRateLimit → ℕ → Window → RateLimitDecision
decide limit current window = record {
  allowed = leb window.count limit.max;
  limit = limit.max;
  remaining = limit.max - window.count;
  retry_after_seconds = max 1 ((window.window_start + limit.time_window_ms - current + 999) / 1000);
}

abbrev pub room_for : Option Window → ℕ → ℕ → Windows → Windows
room_for none max_windows current windows = make_room max_windows current windows
room_for (some window) max_windows current windows = windows

-- the windows and the decision, after the limiter was pruned or not
unfoldable pub hit_window : ℕ → Text → RouteRateLimit → ℕ → Windows → RateLimitDecision × Windows
unfolding get_window make_room open_window set_window decide
hit_window max_windows key limit current windows =
    let existing = get_window key windows in
    let window = counted (open_window existing current limit) in
    (
      decide limit current window,
      set_window key window (room_for existing max_windows current windows),
    )

abbrev pub pruned : ℕ → Limiter → Limiter
pruned current limiter =
    if ltb (limiter.last_prune + hour) current then prune current limiter else limiter

unfoldable pub hit : ℕ → Text → RouteRateLimit → ℕ → Limiter → RateLimitDecision × Limiter
unfolding prune hit_window
hit max_windows key limit current limiter =
    let before = pruned current limiter in
    let (decision, windows) = hit_window max_windows key limit current before.windows in
    (decision, record { windows = windows; last_prune = before.last_prune })

abbrev pub max_windows_default : ℕ
max_windows_default = 5000

-- `createLimiter`
unfoldable pub create_limiter : ℕ → Limiter
create_limiter now = record { windows = []; last_prune = now }
