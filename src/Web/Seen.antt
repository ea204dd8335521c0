-- ===== src/Web/Seen.antt =====
-- The memory of the updates that were seen, in app/main.py, over a history of updates.
use kasb_o_kar_hoshmand.Base.{
  ℕ, zero, suc, ◌≡◌, refl, ap, ◌∙◌, inl, inr, true, false, List, [], ◌∷◌, ltb, if◌then◌else◌, arith,
  length, take, Bool-cases,
}
use kasb_o_kar_hoshmand.Web.Updates.{Seen, member, drop_oldest, is_duplicate_update}

module _ (limit : ℕ) where
  -- what is remembered after a history of updates, the latest first
  unfoldable pub seen_after : List (ℕ × ℕ) → Seen
  seen_after [] = []
  seen_after ((bot, update) ∷ older) = (is_duplicate_update limit bot update (seen_after older)).1

  -- The updates that were let through, the latest first.
  unfoldable pub let_through : List (ℕ × ℕ) → List (ℕ × ℕ)
  let_through [] = []
  let_through ((bot, update) ∷ older) =
      let before = let_through older in
      if (is_duplicate_update limit bot update (seen_after older)).0
      then before
      else (bot, update) ∷ before

take-nil : (n : ℕ) → take {A = ℕ × ℕ} n [] ≡ []
take-nil zero = refl
take-nil (suc n) = refl

take-cons :
    (n : ℕ) (k : ℕ × ℕ) (ks : Seen)
    → (if ltb n (length (k ∷ take n ks)) then drop_oldest (k ∷ take n ks) else k ∷ take n ks)
      ≡ take n (k ∷ ks)
take-cons zero k ks = refl
take-cons (suc n) k [] = ground (arith, take-nil n)
take-cons (suc n) k (j ∷ ks) = elim (Bool-cases (ltb n (length (j ∷ take n ks)))) [
  | inl full ↦ ground (arith, full, take-cons n j ks)
  | inr room ↦ ground (arith, room, take-cons n j ks)
]

module _ (limit : ℕ) where
  known :
      (bot update : ℕ) (seen : Seen)
      → member (bot, update) seen ≡ true
      → is_duplicate_update limit bot update seen ≡ (true, seen)
  unfolding is_duplicate_update
  known bot update seen again = rw again

  unknown :
      (bot update : ℕ) (seen : Seen)
      → member (bot, update) seen ≡ false
      → is_duplicate_update limit bot update seen ≡ (
        false,
        if ltb limit (length ((bot, update) ∷ seen))
            then drop_oldest ((bot, update) ∷ seen)
            else (bot, update) ∷ seen,
      )
  unfolding is_duplicate_update
  unknown bot update seen new = rw new

  seen_after-take : (es : List (ℕ × ℕ)) → seen_after limit es ≡ take limit (let_through limit es)
  unfolding seen_after let_through
  seen_after-take [] = ground (arith, take-nil limit)
  seen_after-take ((bot, update) ∷ older) =
      elim (Bool-cases (member (bot, update) (seen_after limit older))) [
        | inl again ↦
            ground (arith, known bot update (seen_after limit older) again, seen_after-take older)
        | inr new ↦
            let step = unknown bot update (seen_after limit older) new in
            let first : seen_after limit ((bot, update) ∷ older)
                ≡ take limit ((bot, update) ∷ let_through limit older) =
              ap (λ r. r.1) step
              ∙ (rw (seen_after-take older)
                  (take-cons limit (bot, update) (let_through limit older))) in
            ground (arith, step, first)
      ]

  -- An update is passed over exactly if it is among the last `limit` updates that were let through.
  pub is_duplicate_update_exact :
      (bot update : ℕ) (es : List (ℕ × ℕ))
      → (is_duplicate_update limit bot update (seen_after limit es)).0
        ≡ member (bot, update) (take limit (let_through limit es))
  is_duplicate_update_exact bot update es =
      rw (← seen_after-take es) (elim (Bool-cases (member (bot, update) (seen_after limit es))) [
        | inl again ↦ rw (known bot update (seen_after limit es) again, again)
        | inr new ↦ rw (unknown bot update (seen_after limit es) new, new)
      ])
