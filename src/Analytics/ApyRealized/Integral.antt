-- ===== src/Analytics/ApyRealized/Integral.antt =====
-- The time-weighted principal is the integral of the staked principal.
use native.Mathlib.Nat.{mul-suc}
use chainlink_economic_ledge.Prelude.{
  ℕ, zero, suc, ◌+◌, ◌-◌, ◌*◌, ◌<◌, min, Option, none, some, List, [], ◌∷◌, Bool, true, ◌&&◌, ◌||◌,
  leb, ltb, get_some, if◌then◌else◌, pos, ◌≡◌, refl, ◌∙◌, sym, ap, arith, Bool-cases, inl, inr,
}
use chainlink_economic_ledge.Analytics.ApyRealized.{
  StakeEvent, positive_part, end_or, link_seconds, time_weighted_from,
  compute_time_weighted_principal,
}

-- A stake without an end, or with the end 0, stays.
abbrev pub is_before_end : ℕ → Option ℕ → Bool
is_before_end t none = true
is_before_end t (some zero) = true
is_before_end t (some (suc n)) = ltb t (suc n)

-- The principal of a stake in the second `t`, and of all stakes.
abbrev pub staked_by : ℕ → StakeEvent → ℕ
staked_by t ev =
    if leb (get_some 0 ev.start_unix) t && is_before_end t ev.end_unix
    then positive_part (get_some (pos 0) ev.principal)
    else 0

abbrev pub staked_at : List StakeEvent → ℕ → ℕ
staked_at [] t = 0
staked_at (ev ∷ stake_events) t = staked_by t ev + staked_at stake_events t

-- `f 0 + … + f (n - 1)`
abbrev pub sum_below : ℕ → (ℕ → ℕ) → ℕ
sum_below zero f = 0
sum_below (suc n) f = sum_below n f + f n

sum_below-add : (n : ℕ) (f g : ℕ → ℕ) → sum_below n (λ t. f t + g t) ≡ sum_below n f + sum_below n g
sum_below-add zero f g = omega arith
sum_below-add (suc n) f g = omega (arith, sum_below-add n f g)

sum_below_ext :
    (n : ℕ) (f g : ℕ → ℕ) → ((t : ℕ) → t < n → f t ≡ g t) → sum_below n f ≡ sum_below n g
sum_below_ext zero f g same = refl
sum_below_ext (suc n) f g same =
    omega (arith, same n (omega arith), sum_below_ext n f g (λ t h. same t (omega arith)))

sum_below-interval :
    (n p start end : ℕ)
    → sum_below n (λ t. if leb start t && ltb t end then p else 0) ≡ p * (min end n - start)
sum_below-interval zero p start end =
    let empty : min end 0 - start ≡ 0 = omega arith in rw empty (omega arith)
sum_below-interval (suc n) p start end = elim (Bool-cases (leb start n && ltb n end)) [
  | inl inside ↦
      let more : min end (suc n) - start ≡ suc (min end n - start) = ground arith in
      rw (inside, sum_below-interval n p start end, more) (sym (mul-suc p (min end n - start)))
  | inr outside ↦
      let same : min end (suc n) - start ≡ min end n - start = ground arith in
      rw (outside, sum_below-interval n p start end, same) (omega arith)
]

before_end :
    (snapshot_unix t : ℕ) (end : Option ℕ)
    → t < snapshot_unix
    → is_before_end t end ≡ ltb t (end_or snapshot_unix end)
before_end snapshot_unix t none early = ground arith
before_end snapshot_unix t (some zero) early = ground arith
before_end snapshot_unix t (some (suc n)) early = refl

link_seconds_at :
    (p start end : ℕ)
    → (if leb end start || leb p 0 then 0 else p * (end - start)) ≡ p * (end - start)
link_seconds_at p start end = elim (Bool-cases (leb end start || leb p 0)) [
  | inr staked ↦ rw staked refl
  | inl idle ↦ elim (Bool-cases (leb end start)) [
    | inl ended ↦ let none_ : end - start ≡ 0 = ground arith in rw (idle, none_) (omega arith)
    | inr open_ ↦ let none_ : p ≡ 0 = ground arith in rw (idle, none_) (omega arith)
  ]
]

sum_below-staked_by :
    (snapshot_unix : ℕ) (ev : StakeEvent)
    → sum_below snapshot_unix (λ t. staked_by t ev) ≡ link_seconds snapshot_unix ev
unfolding link_seconds
sum_below-staked_by snapshot_unix ev =
    let p = positive_part (get_some (pos 0) ev.principal) in
    let start = get_some 0 ev.start_unix in
    let end = end_or snapshot_unix ev.end_unix in
    sum_below_ext snapshot_unix (λ t. staked_by t ev)
      (λ t. if leb start t && ltb t end then p else 0)
      (λ t early.
        ap (λ b. if leb start t && b then p else 0) (before_end snapshot_unix t ev.end_unix early))
    ∙ sum_below-interval snapshot_unix p start end
    ∙ sym (link_seconds_at p start (min end snapshot_unix))

sum_below-nothing : (n : ℕ) → sum_below n (staked_at []) ≡ 0
sum_below-nothing zero = refl
sum_below-nothing (suc n) = omega (arith, sum_below-nothing n)

time_weighted_from-sum_below :
    (snapshot_unix total : ℕ) (stake_events : List StakeEvent)
    → time_weighted_from snapshot_unix total stake_events
      ≡ total + sum_below snapshot_unix (staked_at stake_events)
unfolding time_weighted_from
time_weighted_from-sum_below snapshot_unix total [] = omega (arith, sum_below-nothing snapshot_unix)
time_weighted_from-sum_below snapshot_unix total (ev ∷ stake_events) =
    time_weighted_from-sum_below snapshot_unix (total + link_seconds snapshot_unix ev) stake_events
    ∙ omega (
      arith,
      sum_below-add snapshot_unix (λ t. staked_by t ev) (staked_at stake_events),
      sum_below-staked_by snapshot_unix ev,
    )

-- The time-weighted principal at a snapshot is the sum, over the seconds before the snapshot, of the
-- principal that is staked in the second: that of the stakes that have started and not ended, where
-- a stake without an end stays.
pub compute_time_weighted_principal-sum_below :
    (stake_events : List StakeEvent) (snapshot_unix : ℕ)
    → compute_time_weighted_principal stake_events snapshot_unix
      ≡ sum_below snapshot_unix (staked_at stake_events)
unfolding compute_time_weighted_principal
compute_time_weighted_principal-sum_below stake_events snapshot_unix =
    time_weighted_from-sum_below snapshot_unix 0 stake_events ∙ omega arith
