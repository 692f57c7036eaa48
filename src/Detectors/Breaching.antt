-- ===== src/Detectors/Breaching.antt =====
-- When a threshold alert is raised: `updateThresholdState` and `detectCpuThreshold` of
-- server/core/src/alert/detectors.ts over a whole series of readings.
use pmeow.Prelude.{
  ℕ, ◌+◌, Bool, true, false, ◌||◌, List, [], ◌∷◌, ◌++◌, Option, none, some, ◌==◌, nat_eq,
  if◌then◌else◌, leb, any, is_some, ◌≡◌, refl, arith, inl, inr, Bool-cases, Option-cases,
}
use pmeow.Detectors.Thresholds.{ThresholdAlertState, next_state, next_cpu_state}

-- An active state knows since when.
abbrev pub IsDated : {V : Type 0} → ThresholdAlertState V → Type 0
IsDated s = s.is_active ≡ true → is_some s.first_breached_at ≡ true

-- The CPU detector and the general one make the same of every dated state, so the CPU alert ends at the
-- threshold at which it begins, without a margin; and the new state is dated again.
pub next_cpu_state-next_state :
    {V : Type 0} (duration now : ℕ) (breaching : Bool) (value : V) (s : ThresholdAlertState V)
    → IsDated s
    → (next_cpu_state duration now breaching value s ≡ next_state duration now breaching value s)
      × IsDated (next_state duration now breaching value s)
unfolding next_state next_cpu_state
next_cpu_state-next_state duration now true value s h = elim (Option-cases s.first_breached_at) [
  | inl e ↦ (ground (arith, h, e), (λ k. refl))
  | inr (t, e) ↦ (ground (arith, h, e), (λ k. refl))
]
next_cpu_state-next_state duration now false value s h = (ground (arith, h), (λ k. cc))

-- A reading: when, whether it reaches the threshold, and its value.
pub record Reading (V : Type 0) : Type 0 where
  pub at : ℕ
  pub breaching : Bool
  pub value : V

-- Some reading comes at least the duration after the first.
abbrev pub lasted : ℕ → List ℕ → Bool
lasted duration [] = false
lasted duration (t ∷ ts) = duration == 0 || any (λ u. leb (t + duration) u) (t ∷ ts)

abbrev first_of : List ℕ → Option ℕ
first_of [] = none
first_of (t ∷ ts) = some t

any-append_one : (p : ℕ → Bool) (xs : List ℕ) (x : ℕ) → any p (xs ++ x ∷ []) ≡ (any p xs || p x)
any-append_one p [] x = ground arith
any-append_one p (y ∷ xs) x = ground (arith, any-append_one p xs x)

module _ {V : Type 0} (duration : ℕ) where
  -- The state after a series of readings, oldest first.
  abbrev pub follow : List (Reading V) → ThresholdAlertState V → ThresholdAlertState V
  follow [] s = s
  follow (r ∷ rs) s = follow rs (next_state duration r.at r.breaching r.value s)

  -- The times of the readings since the last one below the threshold.
  abbrev pub breach_since : List ℕ → List (Reading V) → List ℕ
  breach_since times [] = times
  breach_since times (r ∷ rs) = breach_since (if r.breaching then times ++ r.at ∷ [] else []) rs

  follows :
      (times : List ℕ) (rs : List (Reading V)) (s : ThresholdAlertState V)
      → s.first_breached_at ≡ first_of times
      → s.is_active ≡ lasted duration times
      → (follow rs s).is_active ≡ lasted duration (breach_since times rs)
  unfolding next_state
  follows times [] s e h = h
  follows [] (r ∷ rs) s e h = elim (Bool-cases r.breaching) [
    | inr f ↦ rw f (follows [] rs _ refl refl)
    | inl t ↦ rw t (follows (r.at ∷ []) rs _ (ground (arith, e)) (ground (arith, e, h)))
  ]
  follows (u ∷ us) (r ∷ rs) s e h = elim (Bool-cases r.breaching) [
    | inr f ↦ rw f (follows [] rs _ refl refl)
    | inl t ↦ rw t (
        follows (u ∷ (us ++ r.at ∷ [])) rs _ (ground (arith, e))
          (ground (arith, e, h, any-append_one (λ x. leb (u + duration) x) us r.at)))
  ]

  -- From no state, after any series of readings, the alert is active exactly when among the readings
  -- since the last one below the threshold there is one, and the duration is 0 or some reading
  -- comes at least the duration after the first of them.
  pub follow-lasted :
      (rs : List (Reading V)) (value : V)
      → (follow rs
          (record { is_active = false; last_value = value; first_breached_at = none })).is_active
        ≡ lasted duration (breach_since [] rs)
  follow-lasted rs value = follows [] rs _ refl refl
