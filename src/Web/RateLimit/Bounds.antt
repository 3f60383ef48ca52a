-- ===== src/Web/RateLimit/Bounds.antt =====
-- apps/web/server/xcs/rate-limit.ts: how many windows are kept, and in which order.
use xcs.Common.{
  ap, ℕ, suc, ◌+◌, ◌≤◌, ◌<◌, ◌≡◌, refl, Text, Bool, true, false, not, List, [], ◌∷◌, map, none,
  some, ltb, text_eq, filter, length, arith, Bool-cases, Option-cases, inl, inr,
}
use xcs.Web.RateLimit.{
  RouteRateLimit, Window, Windows, Limiter, is_past, without_past, prune, drop_oldest, make_room,
  get_window, set_window, open_window, counted, hit_window, pruned, hit, create_limiter, hour,
}

pub record Hit : Type 0 where
  pub key : Text
  pub limit : RouteRateLimit
  pub at : ℕ

module _ (max_windows : ℕ) where
  -- the limiter after hits, in their order
  unfoldable pub run_hits : List Hit → Limiter → Limiter
  unfolding hit
  run_hits [] limiter = limiter
  run_hits (h ∷ hits) limiter = run_hits hits (hit max_windows h.key h.limit h.at limiter).1

pub length-filter : (p : Text × Window → Bool) (ws : Windows) → length (filter p ws) ≤ length ws
length-filter p [] = omega arith
length-filter p (w ∷ ws) = elim (Bool-cases (p w)) [
  | inl e ↦ rw e (omega (arith, length-filter p ws))
  | inr e ↦ rw e (omega (arith, length-filter p ws))
]

length-drop_oldest : (most : ℕ) (ws : Windows) → 1 ≤ most → length (drop_oldest most ws) < most
unfolding drop_oldest
length-drop_oldest most [] h = omega arith
length-drop_oldest most (w ∷ ws) h = elim (Bool-cases (ltb (length (w ∷ ws)) most)) [
  | inl e ↦ rw e (small (length (w ∷ ws)) most e)
  | inr e ↦ rw e (length-drop_oldest most ws h)
]
  where
    small : (a b : ℕ) → ltb a b ≡ true → a < b
    small a b h = ground arith

length-make_room :
    (most current : ℕ) (ws : Windows) → 1 ≤ most → length (make_room most current ws) < most
unfolding make_room
length-make_room most current ws h = elim (Bool-cases (ltb (length ws) most)) [
  | inl e ↦ rw e (room_left (length ws) most e)
  | inr e ↦ rw e (length-drop_oldest most (without_past current ws) h)
]
  where
    room_left : (a b : ℕ) → ltb a b ≡ true → a < b
    room_left a b h = ground arith

pub length-set_window :
    (key : Text) (w : Window) (ws : Windows) → length (set_window key w ws) ≤ suc (length ws)
unfolding set_window
length-set_window key w [] = omega arith
length-set_window key w ((k, v) ∷ ws) = elim (Bool-cases (text_eq k key)) [
  | inl e ↦ rw e (omega arith)
  | inr e ↦ rw e (omega (arith, length-set_window key w ws))
]

-- a key that is there keeps its place
keys-set_window :
    (key : Text) (v w : Window) (ws : Windows)
    → get_window key ws ≡ some v
    → map (λ (e : Text × Window). e.0) (set_window key w ws) ≡ map (λ (e : Text × Window). e.0) ws
unfolding set_window get_window
keys-set_window key v w [] h = cc
keys-set_window key v w ((k, u) ∷ ws) h = elim (Bool-cases (text_eq k key)) [
  | inl e ↦ rw e refl
  | inr e ↦ rw e (ap (λ ks. k ∷ ks) (keys-set_window key v w ws (rw e at h)))
]

length-map : (ws : Windows) → length (map (λ (e : Text × Window). e.0) ws) ≡ length ws
length-map [] = refl
length-map (w ∷ ws) = omega (arith, length-map ws)

pub length-set_present :
    (key : Text) (v w : Window) (ws : Windows)
    → get_window key ws ≡ some v
    → length (set_window key w ws) ≡ length ws
unfolding set_window get_window
length-set_present key v w [] h = cc
length-set_present key v w ((k, u) ∷ ws) h = elim (Bool-cases (text_eq k key)) [
  | inl e ↦ rw e refl
  | inr e ↦ rw e (omega (arith, length-set_present key v w ws (rw e at h)))
]

pub length-pruned :
    (current : ℕ) (l : Limiter) → length (pruned current l).windows ≤ length l.windows
unfolding prune
length-pruned current l = elim (Bool-cases (ltb (l.last_prune + hour) current)) [
  | inl e ↦ rw e (length-filter (λ w. not (is_past current w)) l.windows)
  | inr e ↦ rw e (omega arith)
]

length-hit_window :
    (most : ℕ) (key : Text) (limit : RouteRateLimit) (current : ℕ) (ws : Windows)
    → 1 ≤ most
    → length ws ≤ most
    → length (hit_window most key limit current ws).1 ≤ most
unfolding hit_window
length-hit_window most key limit current ws h k = elim (Option-cases (get_window key ws)) [
  | inl absent ↦ rw absent (
      omega (
        arith,
        length-set_window key (counted (open_window none current limit))
            (make_room most current ws),
        length-make_room most current ws h,
      ))
  | inr (v, there) ↦ rw there (
      omega
        (arith, length-set_present key v (counted (open_window (some v) current limit)) ws there))
]

length-hit :
    (most : ℕ) (key : Text) (limit : RouteRateLimit) (current : ℕ) (l : Limiter)
    → 1 ≤ most
    → length l.windows ≤ most
    → length (hit most key limit current l).1.windows ≤ most
unfolding hit
length-hit most key limit current l h k =
    length-hit_window most key limit current (pruned current l).windows h
      (omega (arith, length-pruned current l))

run_hits-Bounded :
    (most : ℕ) (hits : List Hit) (l : Limiter)
    → 1 ≤ most
    → length l.windows ≤ most
    → length (run_hits most hits l).windows ≤ most
unfolding run_hits
run_hits-Bounded most [] l h k = k
run_hits-Bounded most (x ∷ hits) l h k =
    run_hits-Bounded most hits (hit most x.key x.limit x.at l).1 h
      (length-hit most x.key x.limit x.at l h k)

-- Whatever the hits, of whatever keys and at whatever times, a limiter that was created with a cap of
-- at least one window never keeps more windows than its cap.
pub length-run_hits :
    (most now : ℕ) (hits : List Hit)
    → 1 ≤ most
    → length (run_hits most hits (create_limiter now)).windows ≤ most
unfolding create_limiter
length-run_hits most now hits h = run_hits-Bounded most hits (create_limiter now) h (omega arith)

-- A hit on a key that has a window, when nothing is pruned, leaves the keys of the map in their order:
-- the key is not moved to the end.
pub hit-keys :
    (most : ℕ) (key : Text) (limit : RouteRateLimit) (current : ℕ) (l : Limiter) (v : Window)
    → get_window key l.windows ≡ some v
    → current ≤ l.last_prune + hour
    → map (λ (e : Text × Window). e.0) (hit most key limit current l).1.windows
      ≡ map (λ (e : Text × Window). e.0) l.windows
unfolding hit hit_window
hit-keys most key limit current l v there early = rw (not_yet (l.last_prune + hour) current early) (
    rw there (keys-set_window key v (counted (open_window (some v) current limit)) l.windows there))
  where
    not_yet : (a b : ℕ) → b ≤ a → ltb a b ≡ false
    not_yet a b h = ground arith
