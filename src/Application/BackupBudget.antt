-- ===== src/Application/BackupBudget.antt =====
-- The daily budget for reading in an archive
-- (backend/internal/application/learning_backup.go).
use family_quest.Base.{
  ◌≡◌, refl, ap, subst, ◌∙◌, Bool, true, false, not, ◌&&◌, ◌||◌, List, [], ◌∷◌, map, String, ℤ, pos,
  negsuc, ◌≤ℤ◌, ◌+ℤ◌, +ℤ_parts, +ℤ_assoc, zero-+ℤ, length, ltb, wrap64, wrap64-pos, ◌+◌, le_ℤ, lt_ℤ,
  eq_ℤ_iff, eq_iff, str_eq, str_eq_excludes, any, all, arith, Bool-cases, inl, inr, ok, Error,
  invalid_input, fail_if, >>=-eq-ok, if◌then◌else◌,
}
use family_quest.Domain.ActivityRewards.{ActivityReward}
use family_quest.Domain.Reading.{ReadingCompletion, reading_stars, reading_daily_star_limit}
use family_quest.Store.Db.{earned_stars, earns_on}
use family_quest.Application.Backup.{BackupData}
use family_quest.Application.BackupLessons.{
  bump, day_key, no_sums, is_reading, check_reading, check_rewards, is_earned, bad_reward, key_of,
  fits_level, validate_learning, check_sessions, has_unpaid, check_daily,
}

-- A reward for reading has the stars of one completion.
abbrev is_small : ActivityReward → Bool
is_small r = not (is_reading r) || (le_ℤ (pos 0) r.stars && le_ℤ r.stars (pos 100))

reading_stars_small : (c : ReadingCompletion) → le_ℤ (reading_stars c) (pos 100) ≡ true
unfolding reading_stars
reading_stars_small c = ground arith

level_small :
    (r : ActivityReward) (level : String)
    → fits_level r level ≡ true
    → (le_ℤ (pos 0) r.stars && le_ℤ r.stars (pos 100)) ≡ true
level_small r level h =
    ground (arith, reading_stars_small (record { id = r.source_key; level = level }))

earned-is_small : (b : BackupData) (r : ActivityReward) → is_earned b r ≡ true → is_small r ≡ true
earned-is_small b r h = elim (Bool-cases (is_reading r)) [
  | inr other ↦ ground (arith, other)
  | inl reading ↦
      let lesson = str_eq_excludes r.source "reading" "math" refl reading in
      ground (
        arith,
        lesson,
        reading,
        level_small r "phrases",
        level_small r "sentences",
        level_small r "advanced",
      )
]

fail_if-false : (x : Bool) (e : Error) {u : Unit {0}} → fail_if x e ≡ ok u → x ≡ false
fail_if-false true e h = cc
fail_if-false false e h = refl

rewards-small :
    (b : BackupData) (seen : List String) (rs : List ActivityReward) (x : Unit {0})
    → check_rewards b seen rs ≡ ok x
    → all is_small rs ≡ true
unfolding check_rewards
rewards-small b seen [] x h = refl
rewards-small b seen (r ∷ rs) x h =
    let (u, one, rest) =
      >>=-eq-ok (fail_if (bad_reward b seen r || not (is_earned b r)) invalid_input) _ h in
    let good = fail_if-false (bad_reward b seen r || not (is_earned b r)) invalid_input one in
    let tail = rewards-small b (key_of r ∷ seen) rs x rest in
    ground (arith, earned-is_small b r, good, tail)

-- Sums within the day's limit.
abbrev IsBounded : (String → ℤ) → Type 0
IsBounded sums = (k : String) → (pos 0 ≤ℤ sums k) × (sums k ≤ℤ pos 30)

add_small :
    (a n : ℤ)
    → pos 0 ≤ℤ a
    → a ≤ℤ pos 30
    → le_ℤ (pos 0) n && le_ℤ n (pos 100) ≡ true
    → wrap64 (a +ℤ n) ≡ a +ℤ n
unfolding ◌+ℤ◌
add_small (pos x) (pos y) lo hi h = wrap64-pos (x + y) (ground arith)
add_small (pos x) (negsuc y) lo hi h = ground arith
add_small (negsuc x) n lo hi h = absurd (omega arith)

module _ (sums : String → ℤ) (r : ActivityReward) (bounds : IsBounded sums)
    (small : (le_ℤ (pos 0) r.stars && le_ℤ r.stars (pos 100)) ≡ true) where
  abbrev key : String
  key = day_key r.participant_id r.date

  bump-same : (k : String) → str_eq k key ≡ true → bump sums key r.stars k ≡ sums k +ℤ r.stars
  bump-same k h = rw h (add_small (sums k) r.stars (bounds k).0 (bounds k).1 small)

  bump-other : (k : String) → str_eq k key ≡ false → bump sums key r.stars k ≡ sums k
  bump-other k h = rw h refl

  -- A sum never falls.
  bump-grows : (k : String) → sums k ≤ℤ bump sums key r.stars k
  bump-grows k = elim (Bool-cases (str_eq k key)) [
    | inl hit ↦ rw (bump-same k hit) (ground (arith, small, +ℤ_parts (sums k) r.stars))
    | inr miss ↦ rw (bump-other k miss) (omega arith)
  ]

  bump-IsBounded :
      lt_ℤ reading_daily_star_limit (bump sums key r.stars key) ≡ false
      → IsBounded (bump sums key r.stars)
  bump-IsBounded fits k = elim (Bool-cases (str_eq k key)) [
    | inl hit ↦
        let same : bump sums key r.stars k ≡ bump sums key r.stars key =
          ap (bump sums key r.stars) ((eq_iff k key).0 hit) in
        (omega (arith, bump-grows k, (bounds k).0), rw same (ground (arith, fits)))
    | inr miss ↦ rw (bump-other k miss) (bounds k)
  ]

-- What is left of the day behind a reward for reading.
behind_reward :
    (who : ℤ) (date : String) (r : ActivityReward) (sums : String → ℤ) (later : ℤ)
    → IsBounded sums
    → (le_ℤ (pos 0) r.stars && le_ℤ r.stars (pos 100)) ≡ true
    → (bump sums (day_key r.participant_id r.date) r.stars (day_key who date) +ℤ later ≤ℤ pos 30)
    → (sums (day_key who date)
          +ℤ (if earns_on "reading" who date r then r.stars +ℤ later else later)
        ≤ℤ pos 30)
behind_reward who date r sums later bounds small h =
    let k : String = day_key who date in
    elim (Bool-cases (earns_on "reading" who date r)) [
      | inl mine ↦
          let person : r.participant_id ≡ who = (eq_ℤ_iff r.participant_id who).0 (ground arith) in
          let day : r.date ≡ date = (eq_iff r.date date).0 (ground arith) in
          let keys : str_eq k (day_key r.participant_id r.date) ≡ true =
            (eq_iff k (day_key r.participant_id r.date)).1 (rw (person, day) refl) in
          let sum = bump-same sums r bounds small k keys in
          rw mine (
            subst (λ z. z ≤ℤ pos 30) (ap (λ z. z +ℤ later) sum ∙ +ℤ_assoc (sums k) r.stars later) h)
      | inr others ↦ rw others (
          omega (
            arith,
            h,
            bump-grows sums r bounds small k,
            +ℤ_parts (sums k) later,
            +ℤ_parts (bump sums (day_key r.participant_id r.date) r.stars k) later,
          ))
    ]

within_sums :
    (who : ℤ) (date : String) (rs : List ActivityReward) (sums : String → ℤ) (x : Unit {0})
    → all is_small rs ≡ true
    → IsBounded sums
    → check_reading rs sums ≡ ok x
    → (sums (day_key who date) +ℤ earned_stars "reading" who date rs ≤ℤ pos 30)
unfolding check_reading earned_stars
within_sums who date [] sums x small bounds h =
    ground (arith, +ℤ_parts (sums (day_key who date)) (pos 0), bounds (day_key who date))
within_sums who date (r ∷ rs) sums x small bounds h = elim (Bool-cases (is_reading r)) [
  | inr other ↦
      let none_here : earns_on "reading" who date r ≡ false = ground (arith, other) in
      rw none_here (within_sums who date rs sums x (ground arith) bounds (rw other at h))
  | inl lesson ↦
      let stars : (le_ℤ (pos 0) r.stars && le_ℤ r.stars (pos 100)) ≡ true =
        ground (arith, lesson) in
      let checked = rw lesson at h in
      elim (Bool-cases (
        lt_ℤ reading_daily_star_limit (
          bump sums (day_key r.participant_id r.date) r.stars (day_key r.participant_id r.date)))) [
            | inl over ↦ absurd (let bad = rw over at checked in cc)
            | inr fits ↦
                behind_reward who date r sums (earned_stars "reading" who date rs) bounds stars (
                  within_sums who date rs (bump sums (day_key r.participant_id r.date) r.stars) x
                    (ground arith) (bump-IsBounded sums r bounds stars fits) (rw fits at checked))
          ]
]

-- In an archive whose lessons are accepted, nobody has more than thirty stars for reading on a day.
pub learning-reading_budget :
    (b : BackupData) (who : ℤ) (date : String)
    → validate_learning b ≡ ok tt
    → (earned_stars "reading" who date b.activity_rewards ≤ℤ pos 30)
unfolding validate_learning
learning-reading_budget b who date h =
    let (a, version, after_version) =
      >>=-eq-ok
        (fail_if
          (lt_ℤ b.version (pos 3)
            && (ltb 0 (length b.math_sessions) || ltb 0 (length b.activity_rewards)))
          invalid_input)
        _ h in
    let (c, sessions, after_sessions) =
      >>=-eq-ok (check_sessions b [] [] b.math_sessions) _ after_version in
    let (d, rewards, after_rewards) =
      >>=-eq-ok (check_rewards b [] b.activity_rewards) _ after_sessions in
    let (f, paid, after_paid) =
      >>=-eq-ok
        (fail_if (any (has_unpaid (map key_of b.activity_rewards)) b.math_sessions) invalid_input) _
        after_rewards in
    let (g, daily, lessons) =
      >>=-eq-ok (check_daily b.math_sessions no_sums no_sums) _ after_paid in
    let sums =
      within_sums who date b.activity_rewards no_sums tt
        (rewards-small b [] b.activity_rewards d rewards) (λ k. (omega arith, omega arith))
        lessons in
    subst (λ z. z ≤ℤ pos 30) (zero-+ℤ (earned_stars "reading" who date b.activity_rewards)) sums
