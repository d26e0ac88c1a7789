-- ===== src/Math/Choice.antt =====
-- The options of a question with a choice of answers (`NewMathSession`,
-- backend/internal/domain/math.go).
use mathlib.Core.List.{Permᴰ}
use mathlib.Core.List.Permᴰ.{nil, cons, swap, trans}
use family_quest.Base.{
  ℕ, zero, suc, ◌+◌, ◌≤◌, ◌<◌, ◌≡◌, refl, sym, ap, ◌∙◌, ◌⊎◌, true, false, ◌||◌, List, [], ◌∷◌, ◌++◌,
  ℤ, pos, negsuc, ◌+ℤ◌, ◌-ℤ◌, ◌≤ℤ◌, wrap64, mem_ℤ, leb, eq_ℤ, eq_ℤ_iff, eq_ℤ_refl, length,
  length-append, arith, Bool-cases, inl, inr,
}
use family_quest.Math.Settings.{MathSettings, max_int}
use family_quest.Math.Validate.{distinct_options}
use family_quest.Math.Draws.{Random, near, offer, add_options}

mem-append_end : (v x : ℤ) (os : List ℤ) → mem_ℤ v (os ++ x ∷ []) ≡ (mem_ℤ v os || eq_ℤ v x)
mem-append_end v x [] = ground arith
mem-append_end v x (o ∷ os) = ground (arith, mem-append_end v x os)

distinct-append_end :
    (seen os : List ℤ) (x : ℤ)
    → mem_ℤ x seen ≡ false
    → mem_ℤ x os ≡ false
    → distinct_options seen os ≡ true
    → distinct_options seen (os ++ x ∷ []) ≡ true
unfolding distinct_options
distinct-append_end seen [] x h k d = ground arith
distinct-append_end seen (o ∷ os) x h k d =
    ground (arith, eq_ℤ_iff x o, distinct-append_end (o ∷ seen) os x)

offer-distinct :
    (v : ℤ) (os : List ℤ) → distinct_options [] os ≡ true → distinct_options [] (offer v os) ≡ true
offer-distinct v os d = elim (Bool-cases (mem_ℤ v os)) [
  | inl old ↦ rw old d
  | inr new ↦ rw new (distinct-append_end [] os v refl new d)
]

offer-mem : (v x : ℤ) (os : List ℤ) → mem_ℤ x os ≡ true → mem_ℤ x (offer v os) ≡ true
offer-mem v x os h = elim (Bool-cases (mem_ℤ v os)) [
  | inl old ↦ rw old h
  | inr new ↦ rw (new, mem-append_end x v os) (ground arith)
]

offer-has : (v : ℤ) (os : List ℤ) → mem_ℤ v (offer v os) ≡ true
offer-has v os = elim (Bool-cases (mem_ℤ v os)) [
  | inl old ↦ rw old old
  | inr new ↦ rw (new, mem-append_end v v os) (ground (arith, eq_ℤ_refl v))
]

offer-length : (v : ℤ) (os : List ℤ) → length (offer v os) ≤ length os + 1
offer-length v os = elim (Bool-cases (mem_ℤ v os)) [
  | inl old ↦ rw old (omega arith)
  | inr new ↦ rw new (omega (arith, length-append os (v ∷ [])))
]

module _ (r : Random) (s : MathSettings) (answer : ℤ) where
  add_options-distinct :
      (rounds n : ℕ) (os : List ℤ)
      → distinct_options [] os ≡ true
      → distinct_options [] (add_options r s answer rounds n os).0 ≡ true
  unfolding add_options
  add_options-distinct zero n os d = d
  add_options-distinct (suc rounds) n os d = elim (Bool-cases (leb 4 (length os))) [
    | inl full ↦ rw full d
    | inr open_list ↦ rw open_list (
        add_options-distinct rounds (n + 1) (offer (near r s answer n) os)
          (offer-distinct (near r s answer n) os d))
  ]

  add_options-mem :
      (rounds n : ℕ) (os : List ℤ) (v : ℤ)
      → mem_ℤ v os ≡ true
      → mem_ℤ v (add_options r s answer rounds n os).0 ≡ true
  unfolding add_options
  add_options-mem zero n os v h = h
  add_options-mem (suc rounds) n os v h = elim (Bool-cases (leb 4 (length os))) [
    | inl full ↦ rw full h
    | inr open_list ↦ rw open_list (
        add_options-mem rounds (n + 1) (offer (near r s answer n) os) v
          (offer-mem (near r s answer n) v os h))
  ]

  add_options-length :
      (rounds n : ℕ) (os : List ℤ)
      → length os ≤ 4
      → length (add_options r s answer rounds n os).0 ≤ 4
  unfolding add_options
  add_options-length zero n os h = h
  add_options-length (suc rounds) n os h = elim (Bool-cases (leb 4 (length os))) [
    | inl full ↦ rw full h
    | inr open_list ↦
        let room : length os ≤ 3 = ground (arith, open_list) in
        rw open_list (
          add_options-length rounds (n + 1) (offer (near r s answer n) os)
            (omega (arith, offer-length (near r s answer n) os)))
  ]

  -- What is drawn while there is room is an option.
  add_options-sees :
      (rounds n j : ℕ) (os : List ℤ) (v : ℤ)
      → j < rounds
      → near r s answer (n + j) ≡ v
      → (4 ≤ length (add_options r s answer rounds n os).0)
        ⊎ (mem_ℤ v (add_options r s answer rounds n os).0 ≡ true)
  unfolding add_options
  add_options-sees zero n j os v h e = elim h [ ]
  add_options-sees (suc rounds) n zero os v h e = elim (Bool-cases (leb 4 (length os))) [
    | inl full ↦ rw full (inl (ground (arith, full)))
    | inr open_list ↦
        let same : n + 0 ≡ n = omega arith in
        let drawn : near r s answer n ≡ v = ap (near r s answer) (sym same) ∙ e in
        rw open_list (
          inr (
            add_options-mem rounds (n + 1) (offer (near r s answer n) os) v
              (rw drawn (offer-has v os))))
  ]
  add_options-sees (suc rounds) n (suc j) os v h e = elim (Bool-cases (leb 4 (length os))) [
    | inl full ↦ rw full (inl (ground (arith, full)))
    | inr open_list ↦
        let same : n + 1 + j ≡ n + suc j = omega arith in
        rw open_list (
          add_options-sees rounds (n + 1) j (offer (near r s answer n) os) v (omega arith)
            (ap (near r s answer) same ∙ e))
  ]

-- The list without one occurrence of an element.
remove :
    (a : ℤ) (os : List ℤ)
    → mem_ℤ a os ≡ true
    → (rest : List ℤ) × (length os ≡ suc (length rest))
      × ((v : ℤ) → eq_ℤ v a ≡ false → mem_ℤ v os ≡ true → mem_ℤ v rest ≡ true)
remove a [] h = absurd (cc)
remove a (x ∷ os) h = elim (Bool-cases (eq_ℤ a x)) [
  | inl same ↦
      let e : a ≡ x = (eq_ℤ_iff a x).0 same in
      (os, refl, λ v ne m. ground (arith, e, eq_ℤ_iff v a, eq_ℤ_iff v x))
  | inr differ ↦
      let (rest, e, keep) = remove a os (rw differ at h) in
      (x ∷ rest, ap suc e, λ v ne m. ground (arith, keep v ne))
]

-- Four different options are four options at least.
four_options :
    (a b c d : ℤ) (os : List ℤ)
    → eq_ℤ b a ≡ false
    → eq_ℤ c a ≡ false
    → eq_ℤ d a ≡ false
    → eq_ℤ c b ≡ false
    → eq_ℤ d b ≡ false
    → eq_ℤ d c ≡ false
    → mem_ℤ a os ≡ true
    → mem_ℤ b os ≡ true
    → mem_ℤ c os ≡ true
    → mem_ℤ d os ≡ true
    → 4 ≤ length os
four_options a b c d os ba ca da cb db dc ha hb hc hd =
    let (after_a, size_a, keep_a) = remove a os ha in
    let (after_b, size_b, keep_b) = remove b after_a (keep_a b ba hb) in
    let (after_c, size_c, keep_c) = remove c after_b (keep_b c cb (keep_a c ca hc)) in
    let (after_d, size_d, keep_d) = remove d after_c (keep_c d dc (keep_b d db (keep_a d da hd))) in
    omega arith

-- Every value below the bound comes within so many draws.
abbrev pub IsFair : Random → ℕ → Type 0
IsFair r rounds = (n v : ℕ) → v < 17 → (j : ℕ) × (j < rounds) × (r.int_n (n + j) 17 ≡ v)

-- `Shuffle` keeps the elements.
abbrev pub Shuffles : Random → Type 0
Shuffles r = (n : ℕ) (os : List ℤ) → Permᴰ os (r.shuffle n os)

mem-Permᴰ : (v : ℤ) {xs ys : List ℤ} → Permᴰ xs ys → mem_ℤ v xs ≡ mem_ℤ v ys
mem-Permᴰ v nil = refl
mem-Permᴰ v (cons e p) = rw (e, mem-Permᴰ v p) refl
mem-Permᴰ v (swap e f) = ground (arith, e, f)
mem-Permᴰ v (trans p q) = mem-Permᴰ v p ∙ mem-Permᴰ v q

length-Permᴰ : {xs ys : List ℤ} → Permᴰ xs ys → length xs ≡ length ys
length-Permᴰ nil = refl
length-Permᴰ (cons e p) = ap suc (length-Permᴰ p)
length-Permᴰ (swap e f) = refl
length-Permᴰ (trans p q) = length-Permᴰ p ∙ length-Permᴰ q

distinct-seen :
    (s t l : List ℤ)
    → ((v : ℤ) → mem_ℤ v s ≡ mem_ℤ v t)
    → distinct_options s l ≡ distinct_options t l
unfolding distinct_options
distinct-seen s t [] h = refl
distinct-seen s t (x ∷ l) h =
    rw (h x, distinct-seen (x ∷ s) (x ∷ t) l (λ v. ap (λ b. eq_ℤ v x || b) (h v))) refl

distinct-swap :
    (seen l : List ℤ) (a b : ℤ)
    → distinct_options seen (a ∷ b ∷ l) ≡ distinct_options seen (b ∷ a ∷ l)
unfolding distinct_options
distinct-swap seen l a b = ground (
  arith,
  eq_ℤ_iff a b,
  eq_ℤ_iff b a,
  distinct-seen (b ∷ a ∷ seen) (a ∷ b ∷ seen) l (λ v. ground arith),
)

distinct-Permᴰ :
    (seen : List ℤ) {xs ys : List ℤ}
    → Permᴰ xs ys
    → distinct_options seen xs ≡ distinct_options seen ys
unfolding distinct_options
distinct-Permᴰ seen nil = refl
distinct-Permᴰ seen (cons {b} e p) = rw (e, distinct-Permᴰ (b ∷ seen) p) refl
distinct-Permᴰ seen (swap {a} {b} {a'} {b'} {l} e f) =
    ap (λ x. distinct_options seen (x ∷ b ∷ l)) e
    ∙ ap (λ y. distinct_options seen (b' ∷ y ∷ l)) f
    ∙ distinct-swap seen l b' a'
distinct-Permᴰ seen (trans p q) = distinct-Permᴰ seen p ∙ distinct-Permᴰ seen q

-- The answer of the questions that are drawn: small, and negative only where this is wanted.
abbrev pub IsUsual : MathSettings → ℤ → Type 0
IsUsual s answer =
    (negsuc 10_000_000 ≤ℤ answer)
    × (answer ≤ℤ pos 10_000_000)
    × ((s.allow_negative ≡ true) ⊎ (pos 0 ≤ℤ answer))

module _ (r : Random) (s : MathSettings) (answer : ℤ) (usual : IsUsual s answer) where
  near-above : (d n : ℕ) → d ≤ 8 → r.int_n n 17 ≡ 8 + d → near r s answer n ≡ answer +ℤ pos d
  unfolding near max_int wrap64 ◌+ℤ◌ ◌-ℤ◌
  near-above d n h e = rw e (ground arith)

  above-sees :
      (rounds n d : ℕ) (os : List ℤ)
      → IsFair r rounds
      → d ≤ 8
      → (4 ≤ length (add_options r s answer rounds n os).0)
        ⊎ (mem_ℤ (answer +ℤ pos d) (add_options r s answer rounds n os).0 ≡ true)
  above-sees rounds n d os fair h =
      let (j, soon, drawn) = fair n (8 + d) (omega arith) in
      add_options-sees r s answer rounds n j os (answer +ℤ pos d) soon
        (near-above d (n + j) h drawn)

  apart : (d e : ℕ) → d < e → eq_ℤ (answer +ℤ pos e) (answer +ℤ pos d) ≡ false
  unfolding ◌+ℤ◌
  apart d e h = ground arith

  apart_zero : (d : ℕ) → 0 < d → eq_ℤ (answer +ℤ pos d) answer ≡ false
  unfolding ◌+ℤ◌
  apart_zero d h = ground arith

  -- The loop over the options ends before the fuel does.
  add_options-four :
      (rounds n : ℕ)
      → IsFair r rounds
      → length (add_options r s answer rounds n (answer ∷ [])).0 ≡ 4
  add_options-four rounds n fair =
      let os = (add_options r s answer rounds n (answer ∷ [])).0 in
      let most = add_options-length r s answer rounds n (answer ∷ []) (omega arith) in
      let own =
        add_options-mem r s answer rounds n (answer ∷ []) answer
          (ground (arith, eq_ℤ_refl answer)) in
      elim (above-sees rounds n 1 (answer ∷ []) fair (omega arith)) [
        | inl full ↦ omega arith
        | inr one ↦ elim (above-sees rounds n 2 (answer ∷ []) fair (omega arith)) [
          | inl full ↦ omega arith
          | inr two ↦ elim (above-sees rounds n 3 (answer ∷ []) fair (omega arith)) [
            | inl full ↦ omega arith
            | inr three ↦
                let least =
                  four_options answer (answer +ℤ pos 1) (answer +ℤ pos 2) (answer +ℤ pos 3) os
                    (apart_zero 1 (omega arith)) (apart_zero 2 (omega arith))
                    (apart_zero 3 (omega arith)) (apart 1 2 (omega arith)) (apart 1 3 (omega arith))
                    (apart 2 3 (omega arith)) own one two three in
                omega arith
          ]
        ]
      ]

  pub shuffled-options :
      (rounds n : ℕ)
      → IsFair r rounds
      → Shuffles r
      → let (os, next) = add_options r s answer rounds n (answer ∷ []) in
        (length (r.shuffle next os) ≡ 4)
        × (mem_ℤ answer (r.shuffle next os) ≡ true)
        × (distinct_options [] (r.shuffle next os) ≡ true)
  unfolding distinct_options
  shuffled-options rounds n fair shuffles =
      let (os, next) = add_options r s answer rounds n (answer ∷ []) in
      let moved = shuffles next os in
      (
        sym (length-Permᴰ moved) ∙ add_options-four rounds n fair,
        sym (mem-Permᴰ answer moved)
            ∙ add_options-mem r s answer rounds n (answer ∷ []) answer
                (ground (arith, eq_ℤ_refl answer)),
        sym (distinct-Permᴰ [] moved) ∙ add_options-distinct r s answer rounds n (answer ∷ []) refl,
      )
