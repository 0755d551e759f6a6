-- ===== src/Zebra/Backoff.antt =====
-- internal/zebra/client.go: how long connectionLoop waits between its attempts.
use Prim.Native.Nat.{min}
use olsr_go.Base.{
  ℕ, zero, suc, ◌+◌, ◌*◌, ◌/◌, ◌^◌, ◌<◌, ◌≤◌, ◌≡◌, refl, ap, ◌∙◌, Bool, true, false, List, [], ◌∷◌,
  length, arith,
}
use olsr_go.Zebra.{UnicastRouteInfo}
use olsr_go.Zebra.Client.{Client, Sent, one_second, next_backoff, attempt}

-- An attempt that fails: at the dial, or at the hello message.
abbrev pub fail : Bool → ℕ → (ℕ → Bool) → List UnicastRouteInfo → Client → Sent
fail dial_ok jitter writes routes c = attempt dial_ok false jitter writes routes c

fail_lem :
    (dial_ok : Bool) (jitter : ℕ) (writes : ℕ → Bool) (routes : List UnicastRouteInfo) (c : Client)
    → let s = fail dial_ok jitter writes routes c in
      (s.client.backoff ≡ next_backoff c.backoff) × (s.slept ≡ c.backoff + jitter)
unfolding attempt
fail_lem false jitter writes routes c = (refl, refl)
fail_lem true jitter writes routes c = (refl, refl)

-- The client after failures in a row, by whether the dial succeeded and the jitter of each.
unfoldable pub after_failures : List (Bool × ℕ) → Client → Client
unfolding attempt
after_failures [] c = c
after_failures ((dial_ok, jitter) ∷ fs) c =
    after_failures fs (fail dial_ok jitter (λ k. true) [] c).client

next_backoff_doubles :
    (k : ℕ) → k ≤ 5 → next_backoff (2 ^ k * one_second) ≡ 2 ^ min (suc k) 5 * one_second
next_backoff_doubles zero h = refl
next_backoff_doubles (suc zero) h = refl
next_backoff_doubles (suc (suc zero)) h = refl
next_backoff_doubles (suc (suc (suc zero))) h = refl
next_backoff_doubles (suc (suc (suc (suc zero)))) h = refl
next_backoff_doubles (suc (suc (suc (suc (suc zero))))) h = refl
next_backoff_doubles (suc (suc (suc (suc (suc (suc k)))))) h = absurd (omega arith)

backoff_range :
    (k : ℕ) → k ≤ 5 → (one_second ≤ 2 ^ k * one_second) × (2 ^ k * one_second ≤ 32 * one_second)
backoff_range zero h = (omega arith, omega arith)
backoff_range (suc zero) h = (omega arith, omega arith)
backoff_range (suc (suc zero)) h = (omega arith, omega arith)
backoff_range (suc (suc (suc zero))) h = (omega arith, omega arith)
backoff_range (suc (suc (suc (suc zero)))) h = (omega arith, omega arith)
backoff_range (suc (suc (suc (suc (suc zero))))) h = (omega arith, omega arith)
backoff_range (suc (suc (suc (suc (suc (suc k)))))) h = absurd (omega arith)

after_failures_from :
    (fs : List (Bool × ℕ)) (k : ℕ) (c : Client)
    → k ≤ 5
    → c.backoff ≡ 2 ^ k * one_second
    → (after_failures fs c).backoff ≡ 2 ^ min (k + length fs) 5 * one_second
unfolding after_failures
after_failures_from [] k c small e =
    let none_more : min (k + 0) 5 ≡ k = omega arith in rw none_more e
after_failures_from ((dial_ok, jitter) ∷ fs) k c small e =
    let next : (fail dial_ok jitter (λ k. true) [] c).client.backoff
        ≡ 2 ^ min (suc k) 5 * one_second =
      (fail_lem dial_ok jitter (λ k. true) [] c).0
      ∙ ap next_backoff e
      ∙ next_backoff_doubles k small in
    let more : min (min (suc k) 5 + length fs) 5 ≡ min (k + suc (length fs)) 5 = omega arith in
    rw more at (
      after_failures_from fs (min (suc k) 5) (fail dial_ok jitter (λ k. true) [] c).client
        (omega arith) next)

-- After any number of attempts that fail in a row, from a backoff of one second, the backoff is one second
-- doubled once for each, five times at most. The next attempt that fails then waits for at least the
-- backoff, and for less than 48 seconds if its jitter is below half the backoff; and that half is
-- positive, as the random number needs it to be.
pub after_failures_backoff :
    (fs : List (Bool × ℕ)) (c : Client) (dial_ok : Bool) (jitter : ℕ) (writes : ℕ → Bool)
    (routes : List UnicastRouteInfo)
    → c.backoff ≡ one_second
    → let c' = after_failures fs c in
      let slept = (fail dial_ok jitter writes routes c').slept in
      (c'.backoff ≡ 2 ^ min (length fs) 5 * one_second)
      × (0 < c'.backoff / 2)
      × (c'.backoff ≤ slept)
      × (jitter < c'.backoff / 2 → slept < 48 * one_second)
after_failures_backoff fs c dial_ok jitter writes routes e =
    let first : c.backoff ≡ 2 ^ 0 * one_second = omega arith in
    let now : (after_failures fs c).backoff ≡ 2 ^ min (length fs) 5 * one_second =
      let start : 0 + length fs ≡ length fs = omega arith in
      rw start at (after_failures_from fs 0 c (omega arith) first) in
    let small = backoff_range (min (length fs) 5) (omega arith) in
    let slept = (fail_lem dial_ok jitter writes routes (after_failures fs c)).1 in
    let least = small.0 in
    let most = small.1 in
    (
      now,
      omega (arith, now, least),
      omega (arith, slept),
      λ below. omega (arith, now, slept, most, below),
    )
