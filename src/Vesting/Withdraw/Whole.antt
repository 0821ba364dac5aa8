-- ===== src/Vesting/Withdraw/Whole.antt =====
-- A sequence of `withdraw_unlocked` calls of contracts/vesting/src/contract.rs by one recipient.
use native.Mathlib.Nat.{mul-le-mul_left, le-div_iff_mul-le}
use membrane_core.Prelude.{
  ℕ, ◌+◌, ◌-◌, ◌*◌, ◌/◌, ◌^◌, ◌≤◌, ◌<◌, ◌≡◌, inl, inr, true, false, refl, ap, ◌∙◌, some, none, List,
  [], ◌∷◌, ◌++◌, arith, ltb, not, ◌==◌, ◌||◌, Bool-cases, find?, filter, find?-append_none,
}
use membrane_core.Crates.{Crates}
use membrane_core.Result.{Result, ok, ◌>>=◌}
use membrane_core.Asset.{Addr}
use membrane_core.Chain.{Env}
use membrane_core.Vesting.Types.{
  Allocation, Recipient, Config, Store, CosmosMsg, mint_tokens, Response, load_config,
  load_recipients, save_recipients,
}
use membrane_core.Vesting.Unlock.{get_unlocked_amount}
use membrane_core.Vesting.Unlock.Payments.{share}
use membrane_core.Vesting.Unlock.Schedule.{
  Fits, vested, vested_mono, settled, cliff_end, linear_seconds, vesting_end,
  get_unlocked_amount-vested,
}
use membrane_core.Vesting.Withdraw.{has_address, withdrawn, unlock, deliver, withdraw_unlocked}

-- What the messages ask to mint.
abbrev pub minted : List CosmosMsg → ℕ
minted [] = 0
minted (mint_tokens proxy denom amount address ∷ messages) = amount + minted messages
minted (message ∷ messages) = minted messages

-- The store of a configured contract, in which this address has this allocation.
pub record Holds (s : Store) (sender : Addr) (a : Allocation) : Type 0 where
  pub config : Config
  pub recipients : List Recipient
  pub recipient : Recipient
  pub configured : s.config ≡ some config
  pub listed : s.recipients ≡ some recipients
  pub found : find? (has_address sender) recipients ≡ some recipient
  pub allocated : recipient.allocation ≡ some a

find?-has_address :
    (sender : Addr) (rs : List Recipient) (r : Recipient)
    → find? (has_address sender) rs ≡ some r
    → has_address sender r ≡ true
find?-has_address sender [] r h = cc
find?-has_address sender (s ∷ rs) r h = elim (Bool-cases (has_address sender s)) [
  | inl e ↦ ground arith
  | inr e ↦ find?-has_address sender rs r (ground arith)
]

find?-others :
    (sender : Addr) (rs : List Recipient)
    → find? (has_address sender) (filter (λ r. not (has_address sender r)) rs) ≡ none
find?-others sender [] = refl
find?-others sender (r ∷ rs) = elim (Bool-cases (has_address sender r)) [
  | inl e ↦ rw e (find?-others sender rs)
  | inr e ↦ rw e (rw e (find?-others sender rs))
]

-- Before the end, what is withdrawn afterwards is what has vested.
settled-before :
    (a : Allocation) (now : ℕ)
    → now < vesting_end a
    → a.amount_withdrawn < vested a now
    → settled a now ≡ record a { amount_withdrawn = vested a now }
unfolding settled
settled-before a now before more = elim (Bool-cases (a.amount == 0 || ltb now (cliff_end a))) [
  | inl e ↦ absurd (omega (arith, nothing e, more))
  | inr e ↦ ground arith
]
  where
    nothing : (a.amount == 0 || ltb now (cliff_end a)) ≡ true → vested a now ≡ 0
    nothing e = ground arith

div_lt : (m n k : ℕ) → 0 < k → m < n * k → m / k < n
div_lt m n k pos h = elim (Bool-cases (ltb (m / k) n)) [
  | inl e ↦ ground arith
  | inr e ↦
      (let reached : n ≤ m / k = ground arith in
        let whole = (le-div_iff_mul-le {k = k} {x = n} {y = m} pos).0 reached in
        absurd (omega arith))
]

-- Before the end something is left to vest.
vested_short :
    (a : Allocation) (now : ℕ) → 0 < a.amount → now < vesting_end a → vested a now < a.amount
vested_short a now some_amount before =
    let part = λ (h : now - cliff_end a < linear_seconds a).
      let ratio : share (now - cliff_end a) (linear_seconds a) < 10 ^ 18 =
        div_lt ((now - cliff_end a) * 10 ^ 18) (10 ^ 18) (linear_seconds a) (omega arith)
          (omega arith) in
      scaled_lt a.amount (share (now - cliff_end a) (linear_seconds a)) some_amount ratio in
    ground arith
  where
    scaled_lt : (n r : ℕ) → 0 < n → r < 10 ^ 18 → n * r / 10 ^ 18 < n
    scaled_lt n r pos h =
        let above : n * (r + 1) ≤ n * 10 ^ 18 = mul-le-mul_left n (omega arith) in
        div_lt (n * r) n (10 ^ 18) (omega arith) (omega arith)

module _ ⦃x : Crates⦄ where
  -- Calls at blocks whose times do not decrease, all of them before the end of the vesting, and each at
  -- a time at which more has vested than was paid.
  abbrev pub AreTimely : Allocation → ℕ → ℕ → List Env → Type 0
  AreTimely a from paid [] = Unit {0}
  AreTimely a from paid (env ∷ envs) =
      let time = x.seconds env.time in
      (from ≤ time)
      × (time < vesting_end a)
      × (paid < vested a time)
      × AreTimely a time (vested a time) envs

  -- The withdrawals in these blocks, each undone where the proxy refuses its message: what they mint.
  unfoldable pub withdraw_each : Store → Addr → List Env → Result (ℕ × Store)
  withdraw_each s sender [] = ok (0, s)
  withdraw_each s sender (env ∷ envs) = do
    first ← withdraw_unlocked s env (record { sender = sender; funds = [] }) >>= deliver
    rest ← withdraw_each first.0 sender envs
    ok (minted first.1.messages + rest.0, rest.1)

  -- One withdrawal that unlocks something.
  withdrawal-Holds :
      (s : Store) (sender : Addr) (env : Env) (a b : Allocation) (n : ℕ)
      → Holds s sender a
      → get_unlocked_amount (some a) (x.seconds env.time) ≡ ok (n, b)
      → 0 < n
      → (next : Store × Response) × ((withdraw_unlocked s env
              (record { sender = sender; funds = [] })
            >>= deliver)
          ≡ ok next)
        × (minted next.1.messages ≡ n)
        × Holds next.0 sender b
  unfolding withdraw_unlocked deliver load_config load_recipients save_recipients unlock
  withdrawal-Holds s sender env a b n h unlocked more =
      let others = filter (λ r. not (has_address sender r)) h.recipients in
      let r' : Recipient = record h.recipient { allocation = some b } in
      let same : has_address sender r' ≡ true =
        find?-has_address sender h.recipients h.recipient h.found in
      let paying : (n == 0) ≡ false = ground arith in
      (
        withdrawn s h.config h.recipients sender h.recipient n b,
        rw h.configured (rw h.listed (rw h.found (rw h.allocated (rw unlocked (rw paying refl))))),
        omega arith,
        record {
          config = h.config;
          recipients = others ++ r' ∷ [];
          recipient = r';
          configured = h.configured;
          listed = refl;
          found =
              find?-append_none (has_address sender) others (r' ∷ [])
                (find?-others sender h.recipients)
              ∙ (rw same refl);
          allocated = refl;
        },
      )

  next-withdrawal :
      (s : Store) (sender : Addr) (env : Env) (envs : List Env) (a b : Allocation)
      (n rest total : ℕ)
      → Holds s sender a
      → get_unlocked_amount (some a) (x.seconds env.time) ≡ ok (n, b)
      → 0 < n
      → ((t : Store)
          → Holds t sender b
          → (s' : Store) × (withdraw_each t sender envs ≡ ok (rest, s')))
      → n + rest ≡ total
      → (s' : Store) × (withdraw_each s sender (env ∷ envs) ≡ ok (total, s'))
  unfolding withdraw_each
  next-withdrawal s sender env envs a b n rest total h unlocked more after sum =
      let (next, called, paid, h') = withdrawal-Holds s sender env a b n h unlocked more in
      let (s', others) = after next.0 h' in
      (s', rw called (rw others (ap (λ k. ok (k + rest, s')) paid ∙ ap (λ k. ok (k, s')) sum)))

  withdraw_each_from :
      (a : Allocation) (sender : Addr) (s : Store) (from paid : ℕ) (envs : List Env) (last : Env)
      → Fits a
      → Holds s sender (record a { amount_withdrawn = paid })
      → a.start_time_of_allocation ≤ from
      → paid ≤ vested a from
      → paid < a.amount
      → AreTimely a from paid envs
      → from ≤ x.seconds last.time
      → vesting_end a ≤ x.seconds last.time
      → (s' : Store) × (withdraw_each s sender (envs ++ last ∷ []) ≡ ok (a.amount - paid, s'))
  unfolding withdraw_each
  withdraw_each_from a sender s from paid [] last fits h started on_time short timely later ended =
      let now = x.seconds last.time in
      let b : Allocation = record a { amount_withdrawn = paid } in
      let all : vested a now ≡ a.amount = ground arith in
      next-withdrawal s sender last [] b (settled b now) (vested a now - paid) 0 (a.amount - paid) h
        (get_unlocked_amount-vested b now
          (record { amount = fits.amount; cliff = fits.cliff; linear = fits.linear }) (omega arith)
          (omega (arith, vested_mono a from now later)))
        (omega (arith, all)) (λ t k. (t, refl)) (omega (arith, all))
  withdraw_each_from a sender s from paid (env ∷ envs) last fits h started on_time short
        (from≤time, before, more, timely) later ended =
      let time = x.seconds env.time in
      let b : Allocation = record a { amount_withdrawn = paid } in
      let below = vested_short a time (omega arith) before in
      let unlocked =
        get_unlocked_amount-vested b time
          (record { amount = fits.amount; cliff = fits.cliff; linear = fits.linear }) (omega arith)
          (omega arith)
        ∙ ap (λ c. ok (vested a time - paid, c)) (settled-before b time before more) in
      next-withdrawal s sender env (envs ++ last ∷ []) b
        (record a { amount_withdrawn = vested a time }) (vested a time - paid)
        (a.amount - vested a time) (a.amount - paid) h unlocked (omega arith)
        (λ t k.
          withdraw_each_from a sender t time (vested a time) envs last fits k (omega arith)
            (omega arith) below timely (omega arith) ended)
        (omega arith)

  -- In a configured contract, let an address have an allocation whose numbers fit, of which something is
  -- left and no more is withdrawn than has vested. However often it calls withdraw_unlocked, at times in
  -- order before the end of the vesting at each of which something more has vested, and then once after
  -- the end: every call succeeds, the osmosis proxy's check of the amount lets each message pass, and
  -- together the messages mint exactly the rest of the allocation.
  pub withdraw_each_whole :
      (s : Store) (sender : Addr) (a : Allocation) (from : ℕ) (envs : List Env) (last : Env)
      → Holds s sender a
      → Fits a
      → a.start_time_of_allocation ≤ from
      → a.amount_withdrawn ≤ vested a from
      → a.amount_withdrawn < a.amount
      → AreTimely a from a.amount_withdrawn envs
      → from ≤ x.seconds last.time
      → vesting_end a ≤ x.seconds last.time
      → (s' : Store) × (withdraw_each s sender (envs ++ last ∷ [])
          ≡ ok (a.amount - a.amount_withdrawn, s'))
  withdraw_each_whole s sender a from envs last h fits started on_time short timely later ended =
      withdraw_each_from a sender s from a.amount_withdrawn envs last fits h started on_time short
        timely later ended
