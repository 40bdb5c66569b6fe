-- ===== src/Daemon/Listeners/Backoff.antt =====
-- scanbus-daemon/src/listeners.rs: the delay before a restart.
use native.Mathlib.Nat.{mul-le-mul_left}
use scanbus_service.Common.{
  ℕ, zero, suc, ◌*◌, ◌≤◌, ◌≡◌, refl, true, arith, ltb, Bool-cases, inl, inr,
}
use scanbus_service.Daemon.Listeners.{RestartPolicy, shifted, factor, delay}

-- Tests
shifted_31 : shifted 31 ≡ 2147483648
unfolding shifted
shifted_31 = refl

shifted_pos : (n : ℕ) → 1 ≤ shifted n
unfolding shifted
shifted_pos zero = omega arith
shifted_pos (suc n) = let h = shifted_pos n in omega arith

shifted_mono : (a b : ℕ) → a ≤ b → shifted a ≤ shifted b
unfolding shifted
shifted_mono zero b h = shifted_pos b
shifted_mono (suc a) zero h = absurd (omega arith)
shifted_mono (suc a) (suc b) h = let rest = shifted_mono a b (omega arith) in omega arith

factor_mono : (a b : ℕ) → a ≤ b → factor a ≤ factor b
unfolding factor shifted
factor_mono a b h = elim (Bool-cases (ltb b 32)) [
  | inl small ↦ let low : ltb a 32 ≡ true = ground arith in rw (small, low) (shifted_mono a b h)
  | inr large ↦ rw (large) (elim (Bool-cases (ltb a 32)) [
    | inl low ↦
        let bound : shifted a ≤ 2147483648 = shifted_mono a 31 (ground arith) in
        rw (low) (omega arith)
    | inr high ↦ rw (high) (omega arith)
  ])
]

-- A later attempt does not wait for less time than an earlier one, and none waits longer than `max`.
pub delay_mono :
    (policy : RestartPolicy) (a b : ℕ)
    → a ≤ b
    → (delay policy a ≤ delay policy b) × (delay policy b ≤ policy.max)
unfolding delay
delay_mono policy a b h =
    let longer = factor_mono a b h in
    let scaled : policy.initial * factor a ≤ policy.initial * factor b =
      mul-le-mul_left policy.initial longer in
    (ground arith, ground arith)
