-- ===== src/Wallet/Balance.antt =====
-- What `credit` and `debit` do to the balances, on every branch.
use nadbooks_backend.Prelude.{
  String, ◌==◌, true, false, ◌≡◌, ◌≢◌, refl, none, some, arith, ◌⊎◌, inl, inr, Option-cases,
  Bool-cases, eq_ne, text_lt, find_first-fits, find_first-update_self, find_first-update_other,
  sum_by, sum_by-update, eq_iff,
}
use nadbooks_backend.Prelude.Int.{ℤ, pos, ◌+ℤ◌, ◌-ℤ◌, ◌<ℤ◌, ◌≤ℤ◌, leb_ℤ, int_laws, add_cancel}
use nadbooks_backend.Schema.{Db, Decimal, Wallet}
use nadbooks_backend.Effects.{
  World, Env, Client, main, tx, Error, ok, err, read, write, bad_request, not_found,
  record_not_found,
}
use nadbooks_backend.Wallet.{
  has_id, find_wallet, set_wallet, add_balance, take_balance, credit, debit,
}

abbrev pub balance_of : Wallet → ℤ
balance_of wallet = wallet.balance

-- All the money in the wallets.
pub total : Db → ℤ
total d = sum_by balance_of d.wallets

module _ (f : Wallet → Wallet) (same_id : (x : Wallet) → (f x).id ≡ x.id) (id : String) (d : Db)
    (wallet : Wallet) (found : find_wallet id d ≡ some wallet) where
  pub find_wallet-set_self : find_wallet id (set_wallet id f d) ≡ some (f wallet)
  unfolding find_wallet set_wallet
  find_wallet-set_self =
      find_first-update_self (has_id id) f d.wallets wallet found
        (rw (same_id wallet) (find_first-fits (has_id id) d.wallets wallet found))

  pub find_wallet-set_other :
      (j : String) → j ≢ id → find_wallet j (set_wallet id f d) ≡ find_wallet j d
  unfolding find_wallet set_wallet
  find_wallet-set_other j ne =
      let here : wallet.id ≡ id =
        (eq_iff _ _).0 (find_first-fits (has_id id) d.wallets wallet found) in
      let away : (wallet.id == j) ≡ false = eq_ne _ _ (λ e. ne (cc)) in
      find_first-update_other (has_id id) (has_id j) f d.wallets wallet found away
        (rw (same_id wallet) away)

  pub total-set_wallet : total (set_wallet id f d) ≡ total d +ℤ (f wallet).balance -ℤ wallet.balance
  unfolding find_wallet set_wallet total
  total-set_wallet =
      add_cancel _ _ _ _ (sum_by-update balance_of (has_id id) f d.wallets wallet found)

-- `d'` is `d` with the balance of the wallet `id` moved by `delta`, and no other wallet changed.
pub record Moved (id : String) (delta : ℤ) (d d' : Db) : Type 0 where
  pub before : Wallet
  pub after : Wallet
  pub held : find_wallet id d ≡ some before
  pub holds : find_wallet id d' ≡ some after
  pub moved : after.balance ≡ before.balance +ℤ delta
  pub others : (j : String) → j ≢ id → find_wallet j d' ≡ find_wallet j d
  pub money : total d' ≡ total d +ℤ delta

pub set_wallet-Moved :
    (f : Wallet → Wallet)
    → ((x : Wallet) → (f x).id ≡ x.id)
    → (id : String) (delta : ℤ) (d : Db) (wallet : Wallet) → find_wallet id d ≡ some wallet
    → (f wallet).balance ≡ wallet.balance +ℤ delta
    → Moved id delta d (set_wallet id f d)
set_wallet-Moved f same_id id delta d wallet found e = record {
  before = wallet;
  after = f wallet;
  held = found;
  holds = find_wallet-set_self f same_id id d wallet found;
  moved = e;
  others = find_wallet-set_other f same_id id d wallet found;
  money = rw (total-set_wallet f same_id id d wallet found, e) (omega int_laws);
}

pub total-wallets : (d d' : Db) → d'.wallets ≡ d.wallets → total d' ≡ total d
unfolding total
total-wallets d d' e = rw e

-- Only the wallets matter.
pub Moved-wallets :
    (id : String) (delta : ℤ) (d d' d'' : Db)
    → Moved id delta d d'
    → d''.wallets ≡ d'.wallets
    → Moved id delta d d''
unfolding find_wallet total
Moved-wallets id delta d d' d'' m e = record {
  before = m.before;
  after = m.after;
  held = m.held;
  holds = rw e m.holds;
  moved = m.moved;
  others = λ j ne. rw e (m.others j ne);
  money = rw e m.money;
}

pub read-write : (c : Client) (d : Db) (w : World) → read c (write c d w) ≡ d
read-write main d w = refl
read-write tx d w = refl

module _ ⦃env : Env⦄ where
  -- A credit of a positive amount to a wallet that is there goes through.
  pub credit_run :
      (id : String) (amount : Decimal) (c : Client) (w : World) (wallet : Wallet)
      → pos 0 <ℤ amount
      → find_wallet id (read c w) ≡ some wallet
      → credit id amount c w ≡ (
        ok (add_balance amount wallet),
        write c (set_wallet id (add_balance amount) (read c w)) w,
      )
  unfolding credit
  credit_run id amount c w wallet positive found = ground arith

  -- A credit of zero or less, or to a wallet that is not there, throws and changes nothing.
  pub credit_refused :
      (id : String) (amount : Decimal) (c : Client) (w : World)
      → (amount ≤ℤ pos 0) ⊎ (find_wallet id (read c w) ≡ none)
      → (e : Error) × (credit id amount c w ≡ (err e, w))
  unfolding credit
  credit_refused id amount c w (inl low) =
      (bad_request "Amount must be greater than zero", ground arith)
  credit_refused id amount c w (inr missing) = elim (Bool-cases (leb_ℤ amount (pos 0))) [
    | inl low ↦ (bad_request "Amount must be greater than zero", ground arith)
    | inr high ↦ (record_not_found, ground arith)
  ]

  pub debit_run :
      (id : String) (amount : Decimal) (c : Client) (w : World) (wallet : Wallet)
      → pos 0 <ℤ amount
      → find_wallet id (read c w) ≡ some wallet
      → text_lt (env.value_of wallet.balance) (env.value_of amount) ≡ false
      → debit id amount c w ≡ (
        ok (take_balance amount wallet),
        write c (set_wallet id (take_balance amount) (read c w)) w,
      )
  unfolding debit
  debit_run id amount c w wallet positive found enough = ground arith

  pub debit_missing :
      (id : String) (amount : Decimal) (c : Client) (w : World)
      → pos 0 <ℤ amount
      → find_wallet id (read c w) ≡ none
      → debit id amount c w ≡ (err (not_found "Wallet not found"), w)
  unfolding debit
  debit_missing id amount c w positive missing = ground arith

  -- A successful credit raises one balance, and the total, by exactly its amount.
  pub credit-Moved :
      (id : String) (amount : Decimal) (c : Client) (w : World) (r : Wallet) (w' : World)
      → credit id amount c w ≡ (ok r, w')
      → (pos 0 <ℤ amount) × Moved id amount (read c w) (read c w')
  credit-Moved id amount c w r w' done = elim (Bool-cases (leb_ℤ amount (pos 0))) [
    | inl low ↦
        let refused = credit_refused id amount c w (inl (ground arith)) in absurd (cc (refused.1))
    | inr high ↦ elim (Option-cases (find_wallet id (read c w))) [
      | inl missing ↦
          let refused = credit_refused id amount c w (inr missing) in absurd (cc (refused.1))
      | inr (wallet, found) ↦
          let run = credit_run id amount c w wallet (ground arith) found in
          let same : w' ≡ write c (set_wallet id (add_balance amount) (read c w)) w = cc run in
          (
            ground arith,
            rw (same, read-write)
                (set_wallet-Moved (add_balance amount) (λ x. refl) id amount (read c w) wallet found
                  refl),
          )
    ]
  ]

  -- The converse guard of `debit`: what it does on each branch.
  pub debit_refused :
      (id : String) (amount : Decimal) (c : Client) (w : World)
      → amount ≤ℤ pos 0
      → debit id amount c w ≡ (err (bad_request "Amount must be greater than zero"), w)
  unfolding debit
  debit_refused id amount c w low = ground arith

  pub debit_short :
      (id : String) (amount : Decimal) (c : Client) (w : World) (wallet : Wallet)
      → pos 0 <ℤ amount
      → find_wallet id (read c w) ≡ some wallet
      → text_lt (env.value_of wallet.balance) (env.value_of amount) ≡ true
      → debit id amount c w ≡ (err (bad_request "Insufficient balance"), w)
  unfolding debit
  debit_short id amount c w wallet positive found short = ground arith

  -- A successful debit lowers one balance, and the total, by exactly its amount.
  pub debit-Moved :
      (id : String) (amount : Decimal) (c : Client) (w : World) (r : Wallet) (w' : World)
      → debit id amount c w ≡ (ok r, w')
      → (pos 0 <ℤ amount) × Moved id (pos 0 -ℤ amount) (read c w) (read c w')
  debit-Moved id amount c w r w' done = elim (Bool-cases (leb_ℤ amount (pos 0))) [
    | inl low ↦ absurd (cc (debit_refused id amount c w (ground arith)))
    | inr high ↦ elim (Option-cases (find_wallet id (read c w))) [
      | inl missing ↦ absurd (cc (debit_missing id amount c w (ground arith) missing))
      | inr (wallet, found) ↦
          elim (Bool-cases (text_lt (env.value_of wallet.balance) (env.value_of amount))) [
            | inl short ↦ absurd (cc (debit_short id amount c w wallet (ground arith) found short))
            | inr enough ↦
                let run = debit_run id amount c w wallet (ground arith) found enough in
                let same : w' ≡ write c (set_wallet id (take_balance amount) (read c w)) w =
                  cc run in
                (
                  ground arith,
                  rw (same, read-write)
                      (set_wallet-Moved (take_balance amount) (λ x. refl) id (pos 0 -ℤ amount)
                        (read c w) wallet found (omega int_laws)),
                )
          ]
    ]
  ]
