-- ===== src/LiqQueue/Claim/Unique.antt =====
-- The check of `claim_liquidations` of contracts/liq-queue/src/bid.rs on the ids that it is given.
use membrane_core.Prelude.{ℕ, ◌≡◌, ◌≢◌, false, some, List, [], ◌∷◌, ◌++◌, arith, All}
use membrane_core.Result.{ok, custom_error, >>=-eq-ok, reject_if, reject_if-eq-ok}
use membrane_core.Crates.{Crates}
use membrane_core.Asset.{AssetInfo, to_string}
use membrane_core.LiqQueue.State.{Store, Env, MessageInfo, Response, load_queue}
use membrane_core.LiqQueue.Claim.{contains, assert_unique, bids_to_claim, claim_liquidations}

-- No number stands twice in the list.
pub data AreUnique : List ℕ → Type 0 where
  no_ids : AreUnique []
  one_id :
      {id : ℕ} {ids : List ℕ} → All (λ other. other ≢ id) ids → AreUnique ids → AreUnique (id ∷ ids)

contains-append :
    (id new : ℕ) (seen : List ℕ)
    → contains id (seen ++ new ∷ []) ≡ false
    → (contains id seen ≡ false) × (id ≢ new)
contains-append id new [] h = ground arith
contains-append id new (s ∷ seen) h = ground (arith, contains-append id new seen)

-- None of the ids has been seen.
abbrev AreFresh : List ℕ → List ℕ → Type 0
AreFresh seen ids = All (λ id. contains id seen ≡ false) ids

AreFresh-append :
    (new : ℕ) (seen ids : List ℕ)
    → AreFresh (seen ++ new ∷ []) ids
    → AreFresh seen ids × All (λ other. other ≢ new) ids
AreFresh-append new seen [] h = (tt, tt)
AreFresh-append new seen (id ∷ ids) h =
    let (unseen, other) = contains-append id new seen h.0 in
    let (fresh, others) = AreFresh-append new seen ids h.1 in ((unseen, fresh), (other, others))

accepted-AreFresh :
    (seen ids : List ℕ) → assert_unique seen ids ≡ ok tt → AreFresh seen ids × AreUnique ids
unfolding assert_unique
accepted-AreFresh seen [] h = (tt, no_ids)
accepted-AreFresh seen (id ∷ ids) h =
    let (_, e, h₁) =
      >>=-eq-ok (reject_if (contains id seen) (custom_error "Duplicate bid ids")) _ h in
    let (fresh, unique) = accepted-AreFresh (seen ++ id ∷ []) ids h₁ in
    let (unseen, others) = AreFresh-append id seen ids fresh in
    (
      (reject_if-eq-ok (contains id seen) (custom_error "Duplicate bid ids") e, unseen),
      one_id others unique,
    )

module _ ⦃x : Crates⦄ where
  -- A call of claim_liquidations that names its bids and succeeds names pairwise different ones: a
  -- list in which a number stands twice is refused, in whatever order, and no bid is claimed twice in
  -- one call.
  pub claim_liquidations-AreUnique :
      (store store' : Store) (env : Env) (info : MessageInfo) (bid_for : AssetInfo) (ids : List ℕ)
      (response : Response)
      → claim_liquidations store env info bid_for (some ids) ≡ ok (store', response)
      → AreUnique ids
  unfolding claim_liquidations bids_to_claim
  claim_liquidations-AreUnique store store' env info bid_for ids response h =
      let (queue, _, h₁) = >>=-eq-ok (load_queue store (to_string bid_for)) _ h in
      let (bids, eb, _) = >>=-eq-ok (bids_to_claim (some ids) queue info.sender) _ h₁ in
      let (_, unique, _) = >>=-eq-ok (assert_unique [] ids) _ eb in
      (accepted-AreFresh [] ids unique).1
