-- ===== src/LiqQueue/Liquidate/Books.antt =====
-- The books over `execute_liquidation` of contracts/liq-queue/src/bid.rs as a whole.
use membrane_core.Prelude.{
  ℕ, ◌+◌, ◌-◌, ◌<◌, ◌≤◌, ◌^◌, ◌≡◌, sym, ap, ◌∙◌, subst, false, some, String, arith, not, str_eq,
  leb, if◌then◌else◌,
}
use membrane_core.Crates.{Crates}
use membrane_core.Result.{
  ok, err, >>=-eq-ok, ok-injective, must, or_err-eq-ok, reject_if, unauthorized, insufficient_bids,
  not_found,
}
use membrane_core.Asset.{AssetInfo, to_string, equal}
use membrane_core.Price.{PriceResponse, to_decimal256}
use membrane_core.Math.Uint256.{to_u128, to_u128-eq-ok}
use membrane_core.LiqQueue.Types.{Queue}
use membrane_core.LiqQueue.State.{
  Store, Env, MessageInfo, Response, load_queue, load_config, load-save_queue,
}
use membrane_core.LiqQueue.Counted.{IsCounted}
use membrane_core.LiqQueue.Liquidate.{
  Liquidation, Progress, liquidate_from, settle, spent_collateral, finish, execute_liquidation,
}
use membrane_core.LiqQueue.Liquidate.Spending.{IsSound, liquidate_from-IsSound}

module _ ⦃x : Crates⦄ where
  settle_lem :
      (queue : Queue) (r : ℕ)
      → settle queue r ≡ (
          if leb r queue.bid_asset.amount
          then ok (record queue {
            bid_asset = record queue.bid_asset { amount = queue.bid_asset.amount - r };
          })
          else err insufficient_bids)
  unfolding settle
  settle_lem queue r = ground (arith, x.u128_sub_lem queue.bid_asset.amount r)

  -- After the loop, the queue's total covers what was repaid: settling never reports insufficient
  -- bids, and leaves a queue whose total counts its slots.
  pub settle_covers :
      (collateral : ℕ) (p : Progress)
      → IsSound collateral p
      → (queue : Queue) × (settle p.queue p.repaid ≡ ok queue)
        × IsCounted queue
        × (queue.bid_asset.amount + p.repaid ≡ p.queue.bid_asset.amount)
  settle_covers collateral p h = (
    record p.queue {
      bid_asset = record p.queue.bid_asset { amount = p.queue.bid_asset.amount - p.repaid };
    },
    ground (arith, h.books, settle_lem p.queue p.repaid),
    record { sound = h.slots; counted = omega (arith, h.books) },
    omega (arith, h.books),
  )

  -- The loop of a call, on the queue that it loaded.
  abbrev pub start : Store → Queue → ℕ → Progress
  start store queue collateral_amount = record {
    store = store;
    queue = queue;
    remaining = collateral_amount;
    repaid = 0;
    filled = false;
  }

  start-IsSound :
      (store : Store) (queue : Queue) (collateral : ℕ)
      → IsCounted queue
      → IsSound collateral (start store queue collateral)
  start-IsSound store queue collateral h = record {
    slots = h.sound;
    books = omega (arith, h.counted);
    left = omega arith;
    fits = omega arith;
  }

  -- On a queue whose total counts its slots, whatever the loop of a liquidation does, it ends on a
  -- queue that covers the amount to burn: `InsufficientBids` is never reported, the total that is
  -- saved counts the slots again, and no more collateral is left over than was offered.
  pub liquidation_books :
      (store : Store) (queue : Queue) (collateral rounds : ℕ) (l : Liquidation) (done : Progress)
      → IsCounted queue
      → liquidate_from rounds 0 l (start store queue collateral) ≡ ok done
      → (settled : Queue) × (settle done.queue done.repaid ≡ ok settled)
        × IsCounted settled
        × (settled.bid_asset.amount + done.repaid ≡ done.queue.bid_asset.amount)
        × (done.remaining ≤ collateral)
        × (done.repaid < 2 ^ 256)
  liquidation_books store queue collateral rounds l done h e =
      let sound =
        liquidate_from-IsSound collateral rounds 0 l (start store queue collateral) done
          (start-IsSound store queue collateral h) e in
      let (settled, es, counted, total) = settle_covers collateral done sound in
      (settled, es, counted, total, sound.left, sound.fits)

  -- The queue that a liquidation loads is the one that is stored.
  loaded :
      (store : Store) (key : String) (queue q : Queue)
      → store.queues key ≡ some queue
      → load_queue store key ≡ ok q
      → queue ≡ q
  unfolding load_queue
  loaded store key queue q found h = ground (arith, or_err-eq-ok (store.queues key) not_found h)

  -- What the loop leaves is settled with the amount that it repaid.
  abbrev IsSettled : ℕ → Progress → Type 0
  IsSettled collateral done =
      (settled : Queue) × (settle done.queue done.repaid ≡ ok settled)
      × IsCounted settled
      × (settled.bid_asset.amount + done.repaid ≡ done.queue.bid_asset.amount)
      × (done.remaining ≤ collateral)
      × (done.repaid < 2 ^ 256)

  settled_IsCounted :
      (collateral : ℕ) (done : Progress)
      → IsSettled collateral done
      → (r : ℕ) (settled' : Queue) → to_u128 done.repaid ≡ ok r
      → settle done.queue r ≡ ok settled'
      → IsCounted settled'
  settled_IsCounted collateral done (settled, es, counted, _, _, word) r settled' em et =
      let same : r ≡ done.repaid = (to_u128-eq-ok done.repaid r word em).0 in
      let et' : settle done.queue done.repaid ≡ ok settled' =
        subst (λ n. settle done.queue n ≡ ok settled') same et in
      subst IsCounted (ok-injective (sym es ∙ et')) counted

  finish-IsCounted :
      (l : Liquidation) (bid_for : AssetInfo) (collateral : ℕ) (done : Progress) (store' : Store)
      (response : Response)
      → IsSettled collateral done
      → finish l bid_for collateral done ≡ ok (store', response)
      → (queue' : Queue) × (store'.queues l.bid_for ≡ some queue') × IsCounted queue'
  unfolding finish
  finish-IsCounted l bid_for collateral done store' response books h =
      let (spent, _, h₁) = >>=-eq-ok (spent_collateral collateral done.remaining) _ h in
      let (r, em, h₂) = >>=-eq-ok (to_u128 done.repaid) _ h₁ in
      let (settled, et, h₃) = >>=-eq-ok (settle done.queue r) _ h₂ in
      (
        settled,
        subst (λ s. s.queues l.bid_for ≡ some settled) (ap (λ p. p.0) (ok-injective h₃))
            (load-save_queue done.store l.bid_for settled),
        settled_IsCounted collateral done books r settled em et,
      )

  -- If a queue's total counts its slots, whose premiums are distinct and whose waiting amounts fit a
  -- word, then after a liquidation on it that succeeds the saved queue is such a queue again.
  pub execute_liquidation-IsCounted :
      (store store' : Store) (env : Env) (info : MessageInfo) (collateral : ℕ) (bid_for : AssetInfo)
      (collateral_price credit_price : PriceResponse) (response : Response) (queue : Queue)
      → store.queues (to_string bid_for) ≡ some queue
      → IsCounted queue
      → execute_liquidation store env info collateral bid_for collateral_price credit_price
        ≡ ok (store', response)
      → (queue' : Queue) × (store'.queues (to_string bid_for) ≡ some queue') × IsCounted queue'
  unfolding execute_liquidation
  execute_liquidation-IsCounted store store' env info collateral bid_for collateral_price
        credit_price response queue found counted h =
      let key = to_string bid_for in
      let (config, ec, h₁) = >>=-eq-ok (load_config store) _ h in
      let (_, _, h₂) =
        >>=-eq-ok (reject_if (not (str_eq info.sender config.positions_contract)) unauthorized) _
          h₁ in
      let (q, eq, h₃) = >>=-eq-ok (load_queue store key) _ h₂ in
      let (_, _, h₄) =
        >>=-eq-ok (reject_if (not (equal q.bid_asset.info config.bid_asset)) unauthorized) _ h₃ in
      let (price, ep, h₅) = >>=-eq-ok (to_decimal256 collateral_price) _ h₄ in
      let (rounds, er, h₆) = >>=-eq-ok (must (x.u128_add q.max_premium 1)) _ h₅ in
      let l : Liquidation = record {
        bid_for = key;
        price = price;
        credit_price = credit_price;
        env = env;
        config = config;
      } in
      let (done, ed, h₇) = >>=-eq-ok (liquidate_from rounds 0 l (start store q collateral)) _ h₆ in
      finish-IsCounted l bid_for collateral done store' response
        (liquidation_books store q collateral rounds l done
          (subst IsCounted (loaded store key queue q found eq) counted) ed)
        h₇
