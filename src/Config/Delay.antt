-- ===== src/Config/Delay.antt =====
-- Which delays are taken as they are written.
use walletops.Prelude.{
  ℕ, ◌*◌, ◌%◌, ◌^◌, ◌≤◌, ◌<◌, ◌≡◌, ◌↔◌, String, arith, ltb, pos, inl, inr, Bool-cases,
}
use walletops.Text.Decimal.{decimal, atoi-decimal, decimal-is_empty}
use walletops.Config.{parse_duration_ms, signed_int64, duration_ms}

-- The product of a non-negative int64 and 1 000 000 is exact if it does not leave the range.
duration_ms-exact : (n : ℕ) → n ≤ 9_223_372_036_854 → duration_ms n ≡ pos (n * 1_000_000)
duration_ms-exact n h =
    let small : (n * 1_000_000) % 2 ^ 64 ≡ n * 1_000_000 = omega arith in
    rw small (ground (arith, h))

of_bits : (b n : ℕ) → b < 2 ^ 64 → signed_int64 b ≡ pos n → (b ≡ n) × (n < 2 ^ 63)
of_bits b n h e = elim (Bool-cases (ltb b (2 ^ 63))) [
  | inl l ↦ ground (arith, l, rw l at e)
  | inr l ↦ absurd (ground (arith, rw l at e))
]

module _ (env : String → String) (key : String) (fallback_ms n : ℕ) (given : env key ≡ decimal n)
    (range : n < 2 ^ 63) where
  -- A delay that is written as a decimal number of milliseconds below 2 ^ 63 is taken as that many
  -- milliseconds if and only if it is at most 9223372036854: beyond it the product wraps around.
  pub parse_duration_ms-exact :
      (parse_duration_ms env key fallback_ms ≡ pos (n * 1_000_000)) ↔ (n ≤ 9_223_372_036_854)
  unfolding parse_duration_ms
  parse_duration_ms-exact =
      rw (given, decimal-is_empty n, atoi-decimal n range)
        (
          λ e.
              let (_, l) = of_bits ((n * 1_000_000) % 2 ^ 64) (n * 1_000_000) (omega arith) e in
              omega (arith, l),
          λ h. duration_ms-exact n h,
        )
