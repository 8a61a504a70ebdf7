-- ===== src/Payments/Deposit/Soundness.antt =====
-- What the verification of a deposit lets through.
use Prim.Native.String
use nadbooks_backend.Prelude.{
  ℕ, String, Bool, true, false, ◌≡◌, ◌≢◌, refl, sym, ◌∙◌, Option, none, some, arith, find_first, ap,
  inl, inr, eqb, ◌==◌, not,
}
use nadbooks_backend.Effects.{World, Result, ok}
use nadbooks_backend.Effects.Laws.{Result-cases}
use nadbooks_backend.Payments.Gateway.{
  Gateway, VerifyInput, Verification, PaymentStatus, Log, Receipt,
}
use nadbooks_backend.Payments.Deposit.Providers.{
  verify_crypto, check_receipt, check_log, decode, is_ours, sender_ok, amount_ok, checked,
}

module _ ⦃gateway : Gateway⦄ where
  -- The texts that the log's data holds: the sender's word without its padding, and the amount's.
  abbrev pub sender_text : Log → String
  sender_text log = String.◌++◌ "0x" (String.slice log.bytes 26 66)

  abbrev pub amount_text : Log → String
  amount_text log = String.◌++◌ "0x" (String.slice log.bytes 66 (String.len log.bytes))

  -- The log tells of a payment that fits the request.
  pub record Pays (dto : VerifyInput) (log : Log) (v : Verification) : Type 0 where
    pub sender : String
    pub raw : ℕ
    pub sent_by : gateway.get_address (sender_text log) ≡ ok sender
    pub sends : gateway.big_int (amount_text log) ≡ ok raw
    pub positive : raw ≢ 0
    pub right_sender : sender_ok dto.buyer_address sender ≡ true
    pub right_amount : amount_ok dto.transfered_amount (gateway.format_ether raw) ≡ true
    pub shown_amount : v.decoded_amount ≡ some (gateway.format_ether raw)

  -- The chain holds a mined receipt that was not reverted, and its first log of the contract pays.
  pub record Genuine (dto : VerifyInput) (n : ℕ) (v : Verification) : Type 0 where
    pub receipt : Receipt
    pub log : Log
    pub given : gateway.receipt n dto.hash ≡ ok (some receipt)
    pub mined : receipt.block_number ≢ 0
    pub passed : receipt.status ≢ 0
    pub ours : find_first is_ours receipt.logs ≡ some log
    pub pays : Pays dto log v

  checked-success :
      (b : Bool) (rest : Result Verification) (v : Verification)
      → checked b rest ≡ ok v
      → v.status ≡ PaymentStatus.success
      → (b ≡ true) × (rest ≡ ok v)
  checked-success true rest v h s = (refl, h)
  checked-success false rest v h s = absurd (ground arith)

  abbrev answer : String → ℕ → Verification
  answer sender raw = record {
    status = PaymentStatus.success;
    success = none;
    decoded_sender = some sender;
    decoded_amount = some (gateway.format_ether raw);
  }

  decode_run :
      (dto : VerifyInput) (log : Log) (sender : String) (raw : ℕ)
      → gateway.get_address (sender_text log) ≡ ok sender
      → gateway.big_int (amount_text log) ≡ ok raw
      → decode dto log
        ≡ checked (not (eqb raw 0)) (
            checked (sender_ok dto.buyer_address sender) (
              checked
                (amount_ok dto.transfered_amount (gateway.format_ether raw))
                (ok (answer sender raw))))
  unfolding decode
  decode_run dto log sender raw sent_by sends = rw (sent_by, sends)

  decode-Pays :
      (dto : VerifyInput) (log : Log) (v : Verification)
      → decode dto log ≡ ok v
      → v.status ≡ PaymentStatus.success
      → Pays dto log v
  unfolding decode
  decode-Pays dto log v h s = elim (Result-cases (gateway.get_address (sender_text log))) [
    | inr (e, failed) ↦ absurd (ground arith)
    | inl (sender, sent_by) ↦ elim (Result-cases (gateway.big_int (amount_text log))) [
      | inr (e, failed) ↦ absurd (ground arith)
      | inl (raw, sends) ↦
          let run = decode_run dto log sender raw sent_by sends in
          let (positive, h1) = checked-success (not (eqb raw 0)) _ v (sym run ∙ h) s in
          let (right_sender, h2) = checked-success (sender_ok dto.buyer_address sender) _ v h1 s in
          let (right_amount, h3) =
            checked-success (amount_ok dto.transfered_amount (gateway.format_ether raw)) _ v h2 s in
          record {
            sender = sender;
            raw = raw;
            sent_by = sent_by;
            sends = sends;
            positive = λ e. ground arith;
            right_sender = right_sender;
            right_amount = right_amount;
            shown_amount = ground arith;
          }
    ]
  ]

  check_log-Pays :
      (dto : VerifyInput) (o : Option Log) (v : Verification)
      → check_log dto o ≡ ok v
      → v.status ≡ PaymentStatus.success
      → (log : Log) × (o ≡ some log) × Pays dto log v
  unfolding check_log
  check_log-Pays dto none v h s = absurd (ground arith)
  check_log-Pays dto (some log) v h s =
      let (full, h1) = checked-success (not (log.bytes == "")) (decode dto log) v h s in
      (log, refl, decode-Pays dto log v h1 s)

  check_receipt_run :
      (dto : VerifyInput) (receipt : Receipt) (v : Verification)
      → check_receipt dto (some receipt) ≡ ok v
      → v.status ≡ PaymentStatus.success
      → (receipt.block_number ≢ 0)
        × (receipt.status ≢ 0)
        × (check_log dto (find_first is_ours receipt.logs) ≡ ok v)
  unfolding check_receipt
  check_receipt_run dto receipt v h s = ground arith

  check_receipt-Genuine :
      (dto : VerifyInput) (n : ℕ) (o : Option Receipt) (v : Verification)
      → gateway.receipt n dto.hash ≡ ok o
      → check_receipt dto o ≡ ok v
      → v.status ≡ PaymentStatus.success
      → Genuine dto n v
  unfolding check_receipt
  check_receipt-Genuine dto n none v given h s = absurd (ground arith)
  check_receipt-Genuine dto n (some receipt) v given h s =
      let (mined, passed, h1) = check_receipt_run dto receipt v h s in
      let (log, ours, pays) = check_log-Pays dto (find_first is_ours receipt.logs) v h1 s in
      record {
        receipt = receipt;
        log = log;
        given = given;
        mined = mined;
        passed = passed;
        ours = ours;
        pays = pays;
      }

  -- A crypto payment is reported as a success only if the chain holds a mined receipt for the hash
  -- that was not reverted, whose first log of the contract gives a positive amount, the buyer's
  -- address if one is asked for, and the expected amount if one is asked for.
  pub verify_crypto_sound :
      (dto : VerifyInput) (w w' : World) (v : Verification)
      → verify_crypto dto w ≡ (ok v, w')
      → v.status ≡ PaymentStatus.success
      → Genuine dto w.step v
  unfolding verify_crypto
  verify_crypto_sound dto w w' v h s = elim (Result-cases (gateway.receipt w.step dto.hash)) [
    | inr (e, failed) ↦ absurd (ground arith)
    | inl (o, given) ↦ elim (Result-cases (check_receipt dto o)) [
      | inr (e, failed) ↦ absurd (ground arith)
      | inl (u, found) ↦
          let same : u ≡ v = ground arith in
          check_receipt-Genuine dto w.step o v given (found ∙ ap ok same) s
    ]
  ]
