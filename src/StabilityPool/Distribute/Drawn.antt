-- ===== src/StabilityPool/Distribute/Drawn.antt =====
-- The loop of `distribute_funds` of contracts/stability-pool/src/contract.rs and the line of
-- deposits.
use membrane_core.Prelude.{
  ℕ, ◌+◌, ◌-◌, ◌≤◌, ◌<◌, ◌≡◌, ◌==◌, refl, sym, ap, subst, ◌∙◌, Bool, true, false, not, ltb,
  if◌then◌else◌, List, [], ◌∷◌, arith,
}
use membrane_core.Crates.{Crates}
use membrane_core.Result.{ok, ◌>>=◌, >>=-eq-ok, ok-injective, must}
use membrane_core.Math.Decimal.{Decimal}
use membrane_core.StabilityPool.Types.{Deposit, Config, Store}
use membrane_core.StabilityPool.Unstake.Paid.{deposited}
use membrane_core.StabilityPool.Distribute.{
  update_drawn, draw_part, draw_whole, draw_one, put_first, draw,
}

-- The front of a line of deposits that makes up an amount, the last of it in part.
abbrev pub front : ℕ → List Deposit → List Deposit
front amount [] = []
front amount (d ∷ deposits) =
    let rest = front (amount - d.amount) deposits in
    if amount == 0
    then []
    else if ltb amount d.amount
    then record d { amount = amount } ∷ []
    else d ∷ rest

-- The list is the front of the line, and makes up the amount, or all the deposits where they are less.
pub record IsFront (amount : ℕ) (deposits drawn : List Deposit) : Type 0 where
  pub in_order : drawn ≡ front amount deposits
  pub sum :
      deposited drawn ≡ (if ltb (deposited deposits) amount then deposited deposits else amount)

front-sum :
    (amount : ℕ) (deposits : List Deposit)
    → deposited (front amount deposits)
      ≡ (if ltb (deposited deposits) amount then deposited deposits else amount)
front-sum amount [] = ground arith
front-sum amount (d ∷ deposits) = ground (arith, front-sum (amount - d.amount) deposits)

front-zero : (deposits : List Deposit) → front 0 deposits ≡ []
front-zero [] = refl
front-zero (d ∷ deposits) = refl

front_part :
    (amount : ℕ) (d : Deposit) (deposits : List Deposit)
    → 0 < amount
    → amount < d.amount
    → front amount (d ∷ deposits) ≡ record d { amount = amount } ∷ []
front_part amount d deposits some_left part =
    let e : (amount == 0) ≡ false = ground arith in
    let f : ltb amount d.amount ≡ true = ground arith in rw e (rw f refl)

front_whole :
    (amount : ℕ) (d : Deposit) (deposits : List Deposit)
    → 0 < amount
    → d.amount ≤ amount
    → front amount (d ∷ deposits) ≡ d ∷ front (amount - d.amount) deposits
front_whole amount d deposits some_left whole =
    let e : (amount == 0) ≡ false = ground arith in
    let f : ltb amount d.amount ≡ false = ground arith in rw e (rw f refl)

module _ ⦃x : Crates⦄ where
  -- What one round draws, and how far it gets.
  record IsOne (repaid current : ℕ) (d : Deposit) (one : Store × Decimal × Deposit) : Type 0 where
    within : one.1 ≤ repaid
    rest :
        (deposits : List Deposit)
        → one.2 ∷ front (repaid - one.1) deposits ≡ front (repaid - current) (d ∷ deposits)

  draw_part-IsOne :
      (s : Store) (now : ℕ) (config : Config) (repaid current : Decimal) (d : Deposit)
      (one : Store × Decimal × Deposit)
      → current < repaid
      → repaid < current + d.amount
      → draw_part s now config repaid current d ≡ ok one
      → IsOne repaid current d one
  unfolding draw_part
  draw_part-IsOne s now config repaid current d one more part h =
      let (remaining, er, h₁) = >>=-eq-ok (must (x.decimal_sub repaid current)) _ h in
      let (rest, _, h₂) = >>=-eq-ok (must (x.decimal_sub d.amount remaining)) _ h₁ in
      let (total, et, h₃) = >>=-eq-ok (must (x.decimal_add current remaining)) _ h₂ in
      let (s', _, h₄) =
        >>=-eq-ok (update_drawn s now config remaining (record d { amount = rest })) _ h₃ in
      let r : remaining ≡ repaid - current = sub_lem repaid current remaining er in
      let t : total ≡ repaid = omega (arith, add_lem current remaining total et, r, more) in
      subst (IsOne repaid current d) (ok-injective h₄)
        (record { within = omega (arith, t); rest = λ deposits. last deposits remaining total r t })
    where
      last :
          (deposits : List Deposit) (remaining total : ℕ)
          → remaining ≡ repaid - current
          → total ≡ repaid
          → record d { amount = remaining } ∷ front (repaid - total) deposits
            ≡ front (repaid - current) (d ∷ deposits)
      last deposits remaining total r t =
          let done : repaid - total ≡ 0 = omega arith in
          let all = front_part (repaid - current) d deposits (omega arith) (omega arith) in
          rw done (rw (front-zero deposits) (rw r (sym all)))

      sub_lem : (m n k : ℕ) → must (x.decimal_sub m n) ≡ ok k → k ≡ m - n
      sub_lem m n k e = ground (arith, x.decimal_sub_lem m n)

      add_lem : (m n k : ℕ) → must (x.decimal_add m n) ≡ ok k → k ≡ m + n
      add_lem m n k e = ground (arith, x.decimal_add_lem m n)

  draw_whole-IsOne :
      (s : Store) (now : ℕ) (config : Config) (repaid current total : Decimal) (d : Deposit)
      (one : Store × Decimal × Deposit)
      → current < repaid
      → total ≡ current + d.amount
      → total ≤ repaid
      → draw_whole s now config total d ≡ ok one
      → IsOne repaid current d one
  unfolding draw_whole
  draw_whole-IsOne s now config repaid current total d one more sum fits h =
      let (s', _, h₁) = >>=-eq-ok (update_drawn s now config d.amount d) _ h in
      subst (IsOne repaid current d) (ok-injective h₁)
        (record { within = fits; rest = λ deposits. next deposits })
    where
      next :
          (deposits : List Deposit)
          → d ∷ front (repaid - total) deposits ≡ front (repaid - current) (d ∷ deposits)
      next deposits =
          let left : repaid - total ≡ repaid - current - d.amount = omega arith in
          rw left (sym (front_whole (repaid - current) d deposits (omega arith) (omega arith)))

  draw_one-IsOne :
      (s : Store) (now : ℕ) (config : Config) (repaid current : Decimal) (d : Deposit)
      (one : Store × Decimal × Deposit)
      → current < repaid
      → draw_one s now config repaid current d ≡ ok one
      → IsOne repaid current d one
  unfolding draw_one
  draw_one-IsOne s now config repaid current d one more h =
      let (total, et, h₁) = >>=-eq-ok (must (x.decimal_add current d.amount)) _ h in
      by_test total (add_lem total et) (ltb repaid total) (λ t. ground arith) (λ t. ground arith) h₁
    where
      add_lem : (k : ℕ) → must (x.decimal_add current d.amount) ≡ ok k → k ≡ current + d.amount
      add_lem k e = ground (arith, x.decimal_add_lem current d.amount)

      by_test :
          (total : ℕ)
          → total ≡ current + d.amount
          → (b : Bool) → (b ≡ true → repaid < total)
          → (b ≡ false → total ≤ repaid)
          → (if b then draw_part s now config repaid current d else draw_whole s now config total d)
            ≡ ok one
          → IsOne repaid current d one
      by_test total e true above below k =
          draw_part-IsOne s now config repaid current d one more (omega (arith, e, above refl)) k
      by_test total e false above below k =
          draw_whole-IsOne s now config repaid current total d one more e (below refl) k

  draw-front :
      (s s' : Store) (now : ℕ) (config : Config) (repaid current : Decimal)
      (deposits drawn : List Deposit)
      → current ≤ repaid
      → draw s now config repaid current deposits ≡ ok (s', drawn)
      → drawn ≡ front (repaid - current) deposits
  unfolding draw put_first
  draw-front s s' now config repaid current [] drawn fits h = sym (ap (λ q. q.1) (ok-injective h))
  draw-front s s' now config repaid current (d ∷ deposits) drawn fits h =
      by_more (ltb current repaid) refl (s, []) refl h
        (λ one t rest within k. draw-front one.0 t now config repaid one.1 deposits rest within k)
    where
      by_more :
          (b : Bool)
          → ltb current repaid ≡ b
          → (empty : Store × List Deposit) → empty.1 ≡ []
          → (if not b
              then ok empty
              else (draw_one s now config repaid current d >>= λ one.
                  put_first one.2 (draw one.0 now config repaid one.1 deposits)))
            ≡ ok (s', drawn)
          → ((one : Store × Decimal × Deposit) (t : Store) (rest : List Deposit)
              → one.1 ≤ repaid
              → draw one.0 now config repaid one.1 deposits ≡ ok (t, rest)
              → rest ≡ front (repaid - one.1) deposits)
          → drawn ≡ front (repaid - current) (d ∷ deposits)
      by_more false e empty none_drawn k tail =
          let done : repaid - current ≡ 0 = ground arith in
          rw done (sym (ap (λ q. q.1) (ok-injective k)) ∙ none_drawn)
      by_more true e empty none_drawn k tail =
          let (one, eo, k₁) = >>=-eq-ok (draw_one s now config repaid current d) _ k in
          let (rest, er, k₂) = >>=-eq-ok (draw one.0 now config repaid one.1 deposits) _ k₁ in
          let round = draw_one-IsOne s now config repaid current d one (ground arith) eo in
          sym (ap (λ q. q.1) (ok-injective k₂))
          ∙ ap (λ ds. one.2 ∷ ds) (tail one rest.0 rest.1 round.within er)
          ∙ round.rest deposits

  -- Whenever the loop of distribute_funds over the deposits succeeds, its distribution list is the
  -- front of the line: whole deposits in their order and then a part of the next, until they make up
  -- the repaid amount; it adds up to exactly that amount, or to all the deposits where they are less.
  pub draw-IsFront :
      (s s' : Store) (now : ℕ) (config : Config) (repaid : Decimal) (deposits drawn : List Deposit)
      → draw s now config repaid 0 deposits ≡ ok (s', drawn)
      → IsFront repaid deposits drawn
  draw-IsFront s s' now config repaid deposits drawn h =
      let same = draw-front s s' now config repaid 0 deposits drawn (omega arith) h in
      let order : drawn ≡ front repaid deposits =
        same ∙ ap (λ n. front n deposits) (sub_zero repaid) in
      record { in_order = order; sum = ap deposited order ∙ front-sum repaid deposits }
    where
      sub_zero : (n : ℕ) → n - 0 ≡ n
      sub_zero n = omega arith
