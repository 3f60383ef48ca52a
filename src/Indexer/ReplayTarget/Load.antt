-- ===== src/Indexer/ReplayTarget/Load.antt =====
-- The environment variables that apps/indexer/src/replay-target.ts accepts.
use mathlib.Core.Path.{subst}
use xcs.Common.{
  ℕ, ◌≤◌, ◌≡◌, ◌↔◌, refl, Text, Bool, true, false, ◌&&◌, some, ok, err, leb, leb→le, if◌then◌else◌,
  ◌>>=◌, guard-eq-ok, ok-injective, and_true, to_lower, arith,
}
use xcs.Core.Claims.{is_unsigned_integer, decimal}
use xcs.Core.Claims.Numerals.{Numeral, is_unsigned_sound, Numeral-is_unsigned, Numeral-decimal}
use xcs.Core.Network.{is_hash}
use xcs.Indexer.ReplayTarget.{
  ReplayTarget, replay_target_invalid, target_index, target_hash, create_replay_target,
  load_replay_target,
}

-- the target that two texts name
abbrev pub IsTarget : Text → Text → ReplayTarget → Type 0
IsTarget index hash target =
    Numeral index target.ledger_index
    × (1 ≤ target.ledger_index)
    × (target.ledger_index ≤ 0xffff_ffff)
    × (is_hash hash ≡ true)
    × (target.ledger_hash ≡ to_lower hash)

created_iff :
    (small valid : Bool) (n : ℕ) (hash : Text) (target : ReplayTarget)
    → (((if small then ok n else err replay_target_invalid) >>= λ index.
          (if valid then ok hash else err replay_target_invalid) >>= λ h.
          ok (record { ledger_index = index; ledger_hash = h }))
        ≡ ok target)
      ↔ ((small ≡ true)
          × (valid ≡ true)
          × (◌≡◌ {A = ReplayTarget} (record { ledger_index = n; ledger_hash = hash }) target))
created_iff true true n hash target = (λ h. (refl, refl, ok-injective h), λ (a, b, c). rw c refl)
created_iff true false n hash target = (λ h. cc, λ (a, b, c). cc)
created_iff false valid n hash target = (λ h. cc, λ (a, b, c). cc)

le_leb : (a b : ℕ) → a ≤ b → leb a b ≡ true
le_leb a b h = ground arith

-- `loadReplayTarget` returns a target exactly if the first variable is the canonical decimal of its
-- index, a positive uint32, and the second, in lower case, is its hash of 64 hexadecimal digits.
pub load_replay_target_iff :
    (index hash : Text) (target : ReplayTarget)
    → (load_replay_target (some index) (some hash) ≡ ok target) ↔ IsTarget index hash target
unfolding load_replay_target create_replay_target target_index target_hash
load_replay_target_iff index hash target =
    let n = decimal index in
    let (f, g) =
      created_iff (leb 1 n && leb n 0xffff_ffff) (is_hash hash) n (to_lower hash) target in
    (
      λ h.
          let (canonical, e) = guard-eq-ok (is_unsigned_integer index) replay_target_invalid _ h in
          let (range, valid, same) = f e in
          let (low, high) = and_true (leb 1 n) (leb n 0xffff_ffff) range in
          subst (IsTarget index hash) same (
            is_unsigned_sound index canonical,
            leb→le 1 n low,
            leb→le n 0xffff_ffff high,
            valid,
            refl,
          ),
      λ (numeral, low, high, valid, lower).
          let value : decimal index ≡ target.ledger_index = Numeral-decimal numeral in
          let range : (leb 1 n && leb n 0xffff_ffff) ≡ true =
            rw
              (
                le_leb 1 n (omega (arith, value, low)),
                le_leb n 0xffff_ffff (omega (arith, value, high)),
              )
              refl in
          let same : ◌≡◌ {A = ReplayTarget}
              (record { ledger_index = n; ledger_hash = to_lower hash }) target =
            rw (value, ← lower) refl in
          rw (Numeral-is_unsigned numeral) (g (range, valid, same)),
    )
