-- ===== src/Wallet/Ledger.antt =====
-- The wallets as a ledger: what `credit` and `debit` promise, without rows, owners and order.
use mathlib.Core.Bool.{false≢true}
use mathlib.Core.Path.{subst}
use nadbooks_backend.Prelude.{
  String, Bool, ◌==◌, not, true, ◌≡◌, ◌≢◌, refl, sym, ap, ◌∙◌, fun_ext, Option, none, some, List,
  [], ◌∷◌, arith, inl, inr, Option-cases, Bool-cases, eq_iff, eq_self, text_lt, if◌then◌else◌,
}
use nadbooks_backend.Prelude.Int.{ℤ, pos, ◌+ℤ◌, ◌-ℤ◌, ◌<ℤ◌, leb_ℤ}
use nadbooks_backend.Schema.{Db, Decimal, Wallet}
use nadbooks_backend.Effects.{World, Env, main}
use nadbooks_backend.Wallet.{find_wallet, set_wallet, add_balance, take_balance, credit, debit}
use nadbooks_backend.Wallet.Balance.{
  credit_run, credit_refused, debit_run, debit_refused, debit_missing, debit_short,
  find_wallet-set_self, find_wallet-set_other,
}

-- The balance of each wallet that there is.
abbrev pub Ledger : Type 0
Ledger = String → Option ℤ

abbrev balance : Option Wallet → Option ℤ
balance none = none
balance (some wallet) = some wallet.balance

unfoldable pub ledger_of : Db → Ledger
ledger_of d id = balance (find_wallet id d)

pub data Posting : Type 0 where
  credits debits : (id : String) (amount : Decimal) → Posting

abbrev mapped : (ℤ → ℤ) → Option ℤ → Option ℤ
mapped f none = none
mapped f (some b) = some (f b)

-- One entry of the ledger changes.
abbrev pub change : String → (ℤ → ℤ) → Ledger → Ledger
change id f ledger j = if j == id then mapped f (ledger j) else ledger j

-- What a debit does to a balance, when `covers` says which amounts it may take.
abbrev pub taken : (ℤ → ℤ → Bool) → ℤ → ℤ → ℤ
taken covers amount b = if covers b amount then b -ℤ amount else b

-- The specification: an amount that is not positive changes nothing.
unfoldable pub post : (ℤ → ℤ → Bool) → Posting → Ledger → Ledger
post covers (credits id amount) ledger =
    if leb_ℤ amount (pos 0) then ledger else change id (λ b. b +ℤ amount) ledger
post covers (debits id amount) ledger =
    if leb_ℤ amount (pos 0) then ledger else change id (taken covers amount) ledger

module _ {A : Type 0} where
  abbrev pub each : (Posting → A → A) → List Posting → A → A
  each f [] a = a
  each f (p ∷ ps) a = each f ps (f p a)

-- An update of one wallet, seen in the ledger.
ledger_of-set :
    (f : Wallet → Wallet) (g : ℤ → ℤ)
    → ((x : Wallet) → (f x).id ≡ x.id)
    → (id : String) (d : Db) (wallet : Wallet) → find_wallet id d ≡ some wallet
    → (f wallet).balance ≡ g wallet.balance
    → ledger_of (set_wallet id f d) ≡ change id g (ledger_of d)
unfolding ledger_of
ledger_of-set f g same id d wallet found balanced = fun_ext (λ j. elim (Bool-cases (j == id)) [
  | inl own ↦
      let self = find_wallet-set_self f same id d wallet found in
      subst (λ x. balance (find_wallet x (set_wallet id f d)) ≡ change id g (ledger_of d) x)
        (sym ((eq_iff j id).0 own)) (rw (self, eq_self id, found) (ap (λ b. some b) balanced))
  | inr away ↦
      let other : j ≢ id = λ e. false≢true (sym away ∙ (eq_iff j id).1 e) in
      rw (away, find_wallet-set_other f same id d wallet found j other) refl
])

-- Changing the entry of a wallet that is not there.
change-missing :
    (g : ℤ → ℤ) (id : String) (d : Db)
    → find_wallet id d ≡ none
    → ledger_of d ≡ change id g (ledger_of d)
unfolding ledger_of
change-missing g id d missing = fun_ext (λ j. elim (Bool-cases (j == id)) [
  | inl own ↦
      subst (λ x. ledger_of d x ≡ change id g (ledger_of d) x) (sym ((eq_iff j id).0 own))
        (rw (eq_self id, missing) refl)
  | inr away ↦ rw away refl
])

module _ ⦃env : Env⦄ where
  -- The comparison that `debit` makes.
  abbrev pub covers : ℤ → ℤ → Bool
  covers b amount = not (text_lt (env.value_of b) (env.value_of amount))

  -- The world after a posting, however it was answered.
  abbrev pub perform : Posting → World → World
  perform (credits id amount) w = (credit id amount main w).1
  perform (debits id amount) w = (debit id amount main w).1

  credit-post :
      (id : String) (amount : Decimal) (w : World)
      → ledger_of (credit id amount main w).1.db ≡ post covers (credits id amount) (ledger_of w.db)
  unfolding post
  credit-post id amount w = elim (Bool-cases (leb_ℤ amount (pos 0))) [
    | inl low ↦
        let (e, run) = credit_refused id amount main w (inl (ground (arith, low))) in
        rw (run, low) refl
    | inr high ↦ elim (Option-cases (find_wallet id w.db)) [
      | inl missing ↦
          let (e, run) = credit_refused id amount main w (inr missing) in
          rw (run, high) (change-missing (λ b. b +ℤ amount) id w.db missing)
      | inr (wallet, found) ↦
          let run = credit_run id amount main w wallet (ground (arith, high)) found in
          rw (run, high)
            (ledger_of-set (add_balance amount) (λ b. b +ℤ amount) (λ x. refl) id w.db wallet found
              refl)
    ]
  ]

  -- A debit that the comparison refuses leaves the balance.
  short-post :
      (id : String) (amount : Decimal) (w : World) (wallet : Wallet)
      → find_wallet id w.db ≡ some wallet
      → text_lt (env.value_of wallet.balance) (env.value_of amount) ≡ true
      → ledger_of w.db ≡ change id (taken covers amount) (ledger_of w.db)
  unfolding ledger_of
  short-post id amount w wallet found short = fun_ext (λ j. elim (Bool-cases (j == id)) [
    | inl own ↦
        subst (λ x. ledger_of w.db x ≡ change id (taken covers amount) (ledger_of w.db) x)
          (sym ((eq_iff j id).0 own)) (rw (eq_self id, found, short) refl)
    | inr away ↦ rw away refl
  ])

  debit-post :
      (id : String) (amount : Decimal) (w : World)
      → ledger_of (debit id amount main w).1.db ≡ post covers (debits id amount) (ledger_of w.db)
  unfolding post
  debit-post id amount w = elim (Bool-cases (leb_ℤ amount (pos 0))) [
    | inl low ↦ rw (debit_refused id amount main w (ground (arith, low)), low) refl
    | inr high ↦
        let positive : pos 0 <ℤ amount = ground (arith, high) in
        elim (Option-cases (find_wallet id w.db)) [
          | inl missing ↦
              rw (debit_missing id amount main w positive missing, high)
                (change-missing (taken covers amount) id w.db missing)
          | inr (wallet, found) ↦
              elim (Bool-cases (text_lt (env.value_of wallet.balance) (env.value_of amount))) [
                | inl short ↦
                    rw (debit_short id amount main w wallet positive found short, high)
                      (short-post id amount w wallet found short)
                | inr enough ↦
                    rw (debit_run id amount main w wallet positive found enough, high)
                      (ledger_of-set (take_balance amount) (taken covers amount) (λ x. refl) id w.db
                        wallet found (rw enough refl))
              ]
        ]
  ]

  perform-post :
      (p : Posting) (w : World) → ledger_of (perform p w).db ≡ post covers p (ledger_of w.db)
  perform-post (credits id amount) w = credit-post id amount w
  perform-post (debits id amount) w = debit-post id amount w

  -- Any sequence of credits and debits does to the balances what the ledger specifies: a credit
  -- adds to one entry, a debit takes from one entry what the comparison covers, and an amount
  -- that is not positive or a wallet that is not there changes nothing.
  pub wallets_refine_ledger :
      (postings : List Posting) (w : World)
      → ledger_of (each perform postings w).db ≡ each (post covers) postings (ledger_of w.db)
  wallets_refine_ledger [] w = refl
  wallets_refine_ledger (p ∷ ps) w =
      wallets_refine_ledger ps (perform p w) ∙ ap (λ l. each (post covers) ps l) (perform-post p w)
