-- ===== src/Web/RateLimit/Budget.antt =====
-- apps/web/server/xcs/rate-limit.ts: how many requests of a client are allowed within a window.
use mathlib.Core.Path.{subst}
use xcs.Common.{
  ap, sym, ◌∙◌, ℕ, suc, ◌+◌, ◌≤◌, ◌<◌, ◌≡◌, refl, max, Text, Bool, true, false, ◌&&◌, List, [], ◌∷◌,
  Option, none, some, ltb, leb, text_eq, text_eq_iff, text_eq_refl, if◌then◌else◌, length, arith,
  Bool-cases, Option-cases, inl, inr, ◌⊎◌, All,
}
use xcs.Web.RateLimit.{
  RouteRateLimit, Window, Windows, Limiter, without_past, prune, make_room, decide, get_window,
  set_window, open_window, counted, hit_window, pruned, hit, hour,
}
use xcs.Web.RateLimit.Bounds.{Hit, length-pruned, length-set_present, length-set_window}

get-set_same :
    (key : Text) (w : Window) (ws : Windows) → get_window key (set_window key w ws) ≡ some w
unfolding get_window set_window
get-set_same key w [] = rw (text_eq_refl key) refl
get-set_same key w ((k, v) ∷ ws) = elim (Bool-cases (text_eq k key)) [
  | inl e ↦ rw (e, e) refl
  | inr e ↦ rw (e, e) (get-set_same key w ws)
]

not_same : (a b c : Text) → text_eq a b ≡ true → text_eq b c ≡ false → text_eq a c ≡ false
not_same a b c h k = let e : a ≡ b = (text_eq_iff a b).0 h in rw e k

get-set_other :
    (key other : Text) (w : Window) (ws : Windows)
    → text_eq other key ≡ false
    → get_window key (set_window other w ws) ≡ get_window key ws
unfolding get_window set_window
get-set_other key other w [] h = rw h refl
get-set_other key other w ((k, v) ∷ ws) h = elim (Bool-cases (text_eq k other)) [
  | inl e ↦ rw (e, not_same k other key e h) refl
  | inr e ↦ elim (Bool-cases (text_eq k key)) [
    | inl f ↦ rw (e, f) refl
    | inr f ↦ rw (e, f) (get-set_other key other w ws h)
  ]
]

-- a window that is not past survives a pruning
get-without_past :
    (key : Text) (current : ℕ) (w : Window) (ws : Windows)
    → get_window key ws ≡ some w
    → current ≤ w.window_start + hour
    → get_window key (without_past current ws) ≡ some w
unfolding get_window
get-without_past key current w [] h k = cc
get-without_past key current w ((x, v) ∷ ws) h k = elim (Bool-cases (text_eq x key)) [
  | inl e ↦
      let same : v ≡ w = first v w (rw e at h) in
      rw (same, keeps (w.window_start + hour) current k) (rw e refl)
  | inr e ↦
      let below = get-without_past key current w ws (rw e at h) k in
      elim (Bool-cases (ltb (v.window_start + hour) current)) [
        | inl past ↦ rw past below
        | inr live ↦ rw live (rw e below)
      ]
]
  where
    first : (v w : Window) → ◌≡◌ {A = Option Window} (some v) (some w) → v ≡ w
    first v w h = cc

    keeps : (a b : ℕ) → b ≤ a → ltb a b ≡ false
    keeps a b h = ground arith

get-pruned :
    (key : Text) (current : ℕ) (w : Window) (l : Limiter)
    → get_window key l.windows ≡ some w
    → current ≤ w.window_start + hour
    → get_window key (pruned current l).windows ≡ some w
unfolding prune
get-pruned key current w l h k = elim (Bool-cases (ltb (l.last_prune + hour) current)) [
  | inl e ↦ rw e (get-without_past key current w l.windows h k)
  | inr e ↦ rw e h
]

still_open :
    (w : Window) (current : ℕ) (limit : RouteRateLimit)
    → current < w.window_start + limit.time_window_ms
    → open_window (some w) current limit ≡ w
unfolding open_window
still_open w current limit h = rw (not_over _ _ h) refl
  where
    not_over : (a b : ℕ) → b < a → leb a b ≡ false
    not_over a b h = ground arith

-- What a hit leaves of a key's window, and how many windows.
record Left (key : Text) (w : Window) (size : ℕ) (l : Limiter) : Type 0 where
  window : get_window key l.windows ≡ some w
  size_max : length l.windows ≤ size

own_hit :
    (most : ℕ) (key : Text) (limit : RouteRateLimit) (current : ℕ) (l : Limiter) (w : Window)
    → get_window key l.windows ≡ some w
    → current ≤ w.window_start + hour
    → current < w.window_start + limit.time_window_ms
    → ((hit most key limit current l).0.allowed ≡ leb (suc w.count) limit.max)
      × Left key (counted w) (length l.windows) (hit most key limit current l).1
unfolding hit hit_window decide
own_hit most key limit current l w there live in_time =
    let ws = (pruned current l).windows in
    let found = get-pruned key current w l there live in
    let same = still_open w current limit in_time in
    rw (found, same)
      (
        refl,
        record {
          window = get-set_same key (counted w) ws;
          size_max =
              omega (arith, length-set_present key w (counted w) ws found, length-pruned current l);
        },
      )

own_result :
    (most : ℕ) (key : Text) (x : Hit) (l : Limiter) (w : Window)
    → text_eq x.key key ≡ true
    → get_window key l.windows ≡ some w
    → x.at ≤ w.window_start + hour
    → x.at < w.window_start + x.limit.time_window_ms
    → ((hit most x.key x.limit x.at l).0.allowed ≡ leb (suc w.count) x.limit.max)
      × Left key (counted w) (length l.windows) (hit most x.key x.limit x.at l).1
own_result most key x l w own there live in_time =
    subst
      (λ k.
        ((hit most k x.limit x.at l).0.allowed ≡ leb (suc w.count) x.limit.max)
        × Left key (counted w) (length l.windows) (hit most k x.limit x.at l).1)
      (sym ((text_eq_iff x.key key).0 own)) (own_hit most key x.limit x.at l w there live in_time)

room_kept : (a b : ℕ) → a < b → ltb a b ≡ true
room_kept a b h = ground arith

other_hit :
    (most : ℕ) (key other : Text) (limit : RouteRateLimit) (current : ℕ) (l : Limiter) (w : Window)
    → text_eq other key ≡ false
    → get_window key l.windows ≡ some w
    → current ≤ w.window_start + hour
    → length l.windows < most
    → Left key w (suc (length l.windows)) (hit most other limit current l).1
unfolding hit hit_window make_room
other_hit most key other limit current l w apart there live room =
    let ws = (pruned current l).windows in
    let found = get-pruned key current w l there live in
    let size = length-pruned current l in
    let fits = room_kept (length ws) most (omega (arith, size)) in
    elim (Option-cases (get_window other ws)) [
      | inl absent ↦
          rw (absent, fits)
            record {
              window = rw (get-set_other key other _ ws apart) found;
              size_max = omega (
                arith,
                length-set_window other (counted (open_window none current limit)) ws,
                size,
              );
            }
      | inr (v, present) ↦ rw present record {
        window = rw (get-set_other key other _ ws apart) found;
        size_max = omega (
          arith,
          length-set_window other (counted (open_window (some v) current limit)) ws,
          size,
        );
      }
    ]

-- A hit comes within an hour of the start of the window, and one of the key within the window, with
-- the key's budget.
abbrev pub InWindow : Text → ℕ → ℕ → ℕ → Hit → Type 0
InWindow key most_hits start length_ms h =
    (h.at ≤ start + hour)
    × ((text_eq h.key key ≡ false)
        ⊎ ((h.limit.max ≡ most_hits)
            × (h.limit.time_window_ms ≡ length_ms)
            × (h.at < start + length_ms)))

module _ (max_windows : ℕ) (key : Text) where
  -- how many of the key's hits are allowed
  unfoldable pub allowed_hits : List Hit → Limiter → ℕ
  unfolding hit text_eq
  allowed_hits [] limiter = 0
  allowed_hits (h ∷ hits) limiter =
      let (decision, next) = hit max_windows h.key h.limit h.at limiter in
      let rest = allowed_hits hits next in
      if text_eq h.key key && decision.allowed then suc rest else rest

counts_on :
    (rest c m : ℕ)
    → rest + suc c ≤ max m (suc c)
    → (if leb (suc c) m then suc rest else rest) + c ≤ max m c
counts_on rest c m h = ground arith

own_step :
    (own allowed : Bool) (rest c m : ℕ)
    → own ≡ true
    → allowed ≡ leb (suc c) m
    → rest + suc c ≤ max m (suc c)
    → (if own && allowed then suc rest else rest) + c ≤ max m c
own_step own allowed rest c m e f h = rw (e, f) (counts_on rest c m h)

-- Within a window of a client no more requests are allowed than the budget's `max`, those that the
-- window has counted already included: for every sequence of hits that come within the window and
-- within an hour of its start, whatever hits of other clients come between, as long as the map has room
-- for all of them.
pub allowed_hits-Bounded :
    (max_windows : ℕ) (key : Text) (most_hits length_ms : ℕ) (hits : List Hit) (l : Limiter)
    (w : Window)
    → get_window key l.windows ≡ some w
    → All (InWindow key most_hits w.window_start length_ms) hits
    → length l.windows + length hits ≤ max_windows
    → allowed_hits max_windows key hits l + w.count ≤ max most_hits w.count
unfolding allowed_hits
allowed_hits-Bounded cap key m t [] l w there within room = omega arith
allowed_hits-Bounded cap key m t (h ∷ hits) l w there ((live, inl other), within) room =
    let left = other_hit cap key h.key h.limit h.at l w other there live (omega arith) in
    rw other (
      allowed_hits-Bounded cap key m t hits (hit cap h.key h.limit h.at l).1 w left.window within
        (omega (arith, left.size_max)))
allowed_hits-Bounded cap key m t (h ∷ hits) l w there ((live, inr (budget, span, in_time)), within)
      room =
    elim (Bool-cases (text_eq h.key key)) [
      | inr apart ↦
          let left = other_hit cap key h.key h.limit h.at l w apart there live (omega arith) in
          rw apart (
            allowed_hits-Bounded cap key m t hits (hit cap h.key h.limit h.at l).1 w left.window
              within (omega (arith, left.size_max)))
      | inl own ↦
          let (decision, left) = own_result cap key h l w own there live (rw span in_time) in
          own_step (text_eq h.key key) _ _ w.count m own
            (decision ∙ ap (λ n. leb (suc w.count) n) budget)
            (allowed_hits-Bounded cap key m t hits (hit cap h.key h.limit h.at l).1 (counted w)
              left.window within (omega (arith, left.size_max)))
    ]
