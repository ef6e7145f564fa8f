-- ===== src/Resources/Plic/Selection.antt =====
-- Which interrupt `highest_priority_pending` chooses.
use redplanet.Base.{
  ℕ, zero, suc, ◌≤◌, ◌<◌, ◌≡◌, refl, ap, ◌≢◌, ◌⊎◌, inl, inr, arith, true, false, Option, some, none,
  get_or, ◌&&◌, Bool-cases, ltb, leb,
}
use redplanet.Resources.Plic.{
  State, get_bit, later_max, max_pending, above_threshold, highest_priority_pending,
}

abbrev pub priority : State → ℕ → ℕ
priority s i = get_or s.priorities i 0

-- Interrupt `i` exists, is enabled and is pending.
abbrev pub IsCandidate : State → ℕ → Type 0
IsCandidate s i = (i < 53) × ((get_bit s.enabled i && get_bit s.pending i) ≡ true)

-- `best` is the candidate from `n` on with the highest priority, the lowest of several such.
abbrev IsBest : State → ℕ → Option (ℕ × ℕ) → Type 0
IsBest s n none = (j : ℕ) → n ≤ j → IsCandidate s j → ⊥
IsBest s n (some (i, p)) =
    IsCandidate s i
    × (n ≤ i)
    × (p ≡ priority s i)
    × ((j : ℕ) → n ≤ j → IsCandidate s j → (priority s j < p) ⊎ ((priority s j ≡ p) × (i ≤ j)))

le_split : (i j : ℕ) → i ≤ j → (j ≡ i) ⊎ (suc i ≤ j)
le_split i j h = omega arith

module _ (s : State) where
  IsBest-later_max :
      (i : ℕ) (best : Option (ℕ × ℕ))
      → IsCandidate s i
      → IsBest s (suc i) best
      → IsBest s i (later_max best (i, priority s i))
  unfolding later_max
  IsBest-later_max i none c h = (
    c,
    omega arith,
    refl,
    λ j le cand. elim (le_split i j le) [
      | inl e ↦ inr (ap (priority s) e, omega arith)
      | inr lt ↦ absurd (h j lt cand)
    ],
  )
  IsBest-later_max i (some (k, p)) c (ck, le, e, best) = elim (Bool-cases (ltb (priority s i) p)) [
    | inl lt ↦ rw lt (
      ck,
      omega arith,
      e,
      λ j le' cand. elim (le_split i j le') [
        | inl e' ↦ inl (rw e' (ground (arith, lt)))
        | inr h ↦ best j h cand
      ],
    )
    | inr ge ↦ rw ge (
      c,
      omega arith,
      refl,
      λ j le' cand. elim (le_split i j le') [
        | inl e' ↦ inr (ap (priority s) e', omega arith)
        | inr h ↦ let b = best j h cand in ground (arith, b, ge)
      ],
    )
  ]

  clash :
      {i : ℕ} (j : ℕ)
      → (get_bit s.enabled i && get_bit s.pending i) ≡ false
      → IsCandidate s j
      → j ≡ i
      → ⊥
  clash j c cand e = cc (c, cand.1, e)

  IsBest-skip :
      (i : ℕ) (best : Option (ℕ × ℕ))
      → (get_bit s.enabled i && get_bit s.pending i) ≡ false
      → IsBest s (suc i) best
      → IsBest s i best
  IsBest-skip i none c h = λ j le cand. elim (le_split i j le) [
    | inl e ↦ absurd (clash j c cand e)
    | inr lt ↦ h j lt cand
  ]
  IsBest-skip i (some (k, p)) c (ck, le, e, best) = (
    ck,
    omega arith,
    e,
    λ j le' cand. elim (le_split i j le') [
      | inl e ↦ absurd (clash j c cand e)
      | inr lt ↦ best j lt cand
    ],
  )

  max_pending-IsBest :
      (n : ℕ) (best : Option (ℕ × ℕ)) → n ≤ 53 → IsBest s n best → IsBest s 0 (max_pending s n best)
  unfolding max_pending
  max_pending-IsBest zero best le h = h
  max_pending-IsBest (suc i) best le h =
      elim (Bool-cases (get_bit s.enabled i && get_bit s.pending i)) [
        | inl on ↦
            rw on
              (max_pending-IsBest i _ (omega arith) (IsBest-later_max i best (omega arith, on) h))
        | inr off ↦ rw off (max_pending-IsBest i best (omega arith) (IsBest-skip i best off h))
      ]

IsBest-pending : (s : State) → IsBest s 0 (max_pending s 53 none)
IsBest-pending s =
    max_pending-IsBest s 53 none (omega arith) (λ j le c. absurd (omega (arith, c.0)))

above_threshold-maximal :
    (s : State) (j : ℕ) (best : Option (ℕ × ℕ))
    → IsBest s 0 best
    → IsCandidate s j
    → s.priority_threshold < priority s j
    → let h = above_threshold s best in
      IsCandidate s h
      × (s.priority_threshold < priority s h)
      × ((priority s j < priority s h) ⊎ ((priority s j ≡ priority s h) × (h ≤ j)))
unfolding above_threshold
above_threshold-maximal s j none b c lt = absurd (b j (omega arith) c)
above_threshold-maximal s j (some (k, p)) (ck, le, e, best) c lt =
    let (l, t, b) =
      above s.priority_threshold (priority s j) p (priority s k) e lt (best j (omega arith) c) in
    rw l (ck, t, b)
  where
    above :
        (t q p r : ℕ)
        → p ≡ r
        → t < q
        → (q < p) ⊎ ((q ≡ p) × (k ≤ j))
        → (leb p t ≡ false) × (t < r) × ((q < r) ⊎ ((q ≡ r) × (k ≤ j)))
    above t q p r e lt b = ground (arith, e, lt, b)

-- When an enabled and pending interrupt has a priority above the threshold, the interrupt chosen
-- is one too, none has a higher priority, and none with the same priority has a lower index.
pub highest_priority_pending-maximal :
    (s : State) (j : ℕ)
    → IsCandidate s j
    → s.priority_threshold < priority s j
    → let h = highest_priority_pending s in
      IsCandidate s h
      × (s.priority_threshold < priority s h)
      × ((priority s j < priority s h) ⊎ ((priority s j ≡ priority s h) × (h ≤ j)))
unfolding highest_priority_pending
highest_priority_pending-maximal s j c lt = above_threshold-maximal s j _ (IsBest-pending s) c lt

above_threshold_sound :
    (s : State) (best : Option (ℕ × ℕ))
    → IsBest s 0 best
    → above_threshold s best ≢ 0
    → IsCandidate s (above_threshold s best)
      × (s.priority_threshold < priority s (above_threshold s best))
unfolding above_threshold
above_threshold_sound s none b ne = absurd (ne refl)
above_threshold_sound s (some (k, p)) (ck, le, e, best) ne =
    elim (Bool-cases (leb p s.priority_threshold)) [
      | inl low ↦ absurd (ne (rw low refl))
      | inr high ↦ rw high (ck, ground (arith, e, high))
    ]

-- An interrupt that is chosen exists, is enabled, is pending, and its priority is above the
-- threshold.
pub highest_priority_pending_sound :
    (s : State)
    → highest_priority_pending s ≢ 0
    → IsCandidate s (highest_priority_pending s)
      × (s.priority_threshold < priority s (highest_priority_pending s))
unfolding highest_priority_pending
highest_priority_pending_sound s ne = above_threshold_sound s _ (IsBest-pending s) ne
