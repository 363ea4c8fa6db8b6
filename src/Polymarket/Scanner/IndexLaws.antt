-- ===== src/Polymarket/Scanner/IndexLaws.antt =====
-- The index is that of the first question whose condition is the target (polymarket/scanner.go).
use polymarket_go.Prelude.Words.{ℤ, pos, negsuc}
use polymarket_go.Polymarket.Scanner.Index.{
  target_text, search_index, market_number, derive_question_index, condition_id,
}
use polymarket_go.Clob.Deps.{Deps}
use polymarket_go.Prelude.{
  ◌∙◌, text_eq_iff, sym, subst, ap, if◌then◌else◌, ◌≢◌, ◌≡◌, ◌∷◌, ◌<◌, ◌+◌, ℕ, zero, text_eq, suc,
  refl, ok, inr, inl, arith, [], Text, Result-cases, List, Bool-cases, All,
}

module _ {W : Type 0} (d : Deps W) (market_id : ℤ) (target : Text) where
  -- Question number i has a condition, another than the target.
  abbrev pub Differs : ℕ → Type 0
  Differs i = (id : Text) × (condition_id d market_id i ≡ ok id) × (id ≢ target)

  -- The n numbers from i on.
  abbrev pub numbers : ℕ → ℕ → List ℕ
  numbers i zero = []
  numbers i (suc n) = i ∷ numbers (suc i) n

  -- What an index says of the questions from `from` on, `left` of them.
  abbrev pub IsIndex : ℕ → ℕ → ℤ → Type 0
  IsIndex from left (pos i) =
      (n : ℕ) × (i ≡ from + n)
      × (n < left)
      × All Differs (numbers from n)
      × (condition_id d market_id i ≡ ok target)
  IsIndex from left (negsuc n) = (n ≡ 0) × All Differs (numbers from left)

  search_step :
      (left i : ℕ) (id : Text)
      → condition_id d market_id i ≡ ok id
      → search_index d market_id target (suc left) i
        ≡ (if text_eq id target then ok (pos i) else search_index d market_id target left (suc i))
  unfolding search_index
  search_step left i id e = rw e refl

  next-IsIndex : (left i : ℕ) (r : ℤ) → Differs i → IsIndex (suc i) left r → IsIndex i (suc left) r
  next-IsIndex left i (pos k) h (n, e, lt, a, c) = (suc n, omega (arith, e), omega arith, (h, a), c)
  next-IsIndex left i (negsuc n) h (z, a) = (z, (h, a))

  search_index-IsIndex :
      (left i : ℕ) (r : ℤ) → search_index d market_id target left i ≡ ok r → IsIndex i left r
  unfolding search_index
  search_index-IsIndex zero i (pos k) h = absurd (ground arith)
  search_index-IsIndex zero i (negsuc n) h = (ground arith, tt)
  search_index-IsIndex (suc left) i r h = elim (Result-cases (condition_id d market_id i)) [
    | inr (x, e) ↦ absurd (ground arith)
    | inl (id, e) ↦ elim (Bool-cases (text_eq id target)) [
      | inl t ↦
          let first : r ≡ pos i = ground (arith, search_step left i id e) in
          subst (λ x. IsIndex i (suc left) x) (sym first)
            (0, omega arith, omega arith, tt, e ∙ ap ok ((text_eq_iff id target).0 t))
      | inr t ↦
          next-IsIndex left i r (id, e, (λ q. ground (arith, text_eq_iff id target)))
            (search_index-IsIndex left (suc i) r (ground (arith, search_step left i id e)))
    ]
  ]

-- The index that is returned is below 256 and the first whose question has the target as its
-- condition, and -1 is returned only where none of the 256 has it.
pub derive_question_index-IsIndex :
    {W : Type 0} (d : Deps W) (undefined : Text → ℤ) (market_id target_condition_id : Text) (r : ℤ)
    → derive_question_index d undefined market_id target_condition_id ≡ ok r
    → IsIndex d (market_number d undefined market_id) (target_text d target_condition_id) 0 256 r
unfolding derive_question_index
derive_question_index-IsIndex d undefined market_id target_condition_id r h =
    search_index-IsIndex d (market_number d undefined market_id) (target_text d target_condition_id)
      256 0 r h
