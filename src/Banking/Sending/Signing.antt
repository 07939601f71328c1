-- ===== src/Banking/Sending/Signing.antt =====
-- What signing and cancelling write.
use tallykeep.Prelude.{
  ◌≡◌, ◌≢◌, ◌⊎◌, refl, ap, ◌∙◌, ℕ, String, Bool, true, false, not, ◌||◌, Option, none, some, arith,
  inl, inr, Bool-cases, Option-cases, if◌then◌else◌, or_else, List, [], ◌∷◌, All, all_of, is_empty,
}
use tallykeep.Errors.{ok, err, banking_error, payment_request_not_found, wrong_status_for_operation}
use tallykeep.Table.{get, modify}
use tallykeep.Table.Laws.{get-modify}
use tallykeep.Domain.Enums.{
  PaymentStatus, draft, awaiting_signature, awaiting_broadcast, cancelled, is_awaiting_signature,
}
use tallykeep.Domain.Payment.{
  PaymentRequest, request_key, new_payment_request, new_payment_request-same,
}
use tallykeep.Db.{Db}
use tallykeep.Db.Outcome.{
  Outcome-refused, Outcome, Outcome-written, Outcome-lift, Outcome-or_raise, Outcome-read,
  Outcome-raise_if,
}
use tallykeep.Repositories.Payments.{
  request_get-unchanged, build_request, request_get, write_request, is_cancellable, as_signed,
  as_cancelled, mark_signed, cancel,
}
use tallykeep.Banking.Outside.{Bdk, PsbtInput}
use tallykeep.Banking.Sending.{
  cancel_payment_request, translate, submission_of, signed_of, finalize_merged, is_psbt_finalized,
  submit_signed_payment_request,
}

-- a stored request that can be read
pub record IsRequest (id : ℕ) (d : Db) (r : PaymentRequest) : Type 0 where
  pub found : get id d.requests ≡ some r
  pub valid : new_payment_request r ≡ ok r

-- the database with one request rewritten
abbrev pub with_request : ℕ → (PaymentRequest → PaymentRequest) → Db → Db
with_request id f d = record d { requests = modify id f d.requests }

build_request-some :
    (o : Option PaymentRequest) (r : PaymentRequest)
    → build_request o ≡ ok (some r)
    → (o ≡ some r) × (new_payment_request r ≡ ok r)
build_request-some none r e = ground arith
build_request-some (some q) r e = ground (arith, new_payment_request-same q r)

pub request_get-IsRequest :
    (id : ℕ) (d : Db) (o : Option PaymentRequest) (r : PaymentRequest)
    → (request_get id d).0 ≡ ok o
    → o ≡ some r
    → IsRequest id d r
unfolding request_get
request_get-IsRequest id d o r e s =
    let h = build_request-some (get id d.requests) r (e ∙ ap ok s) in
    record { found = h.0; valid = h.1 }

-- A write that makes a readable row of the stored one returns it.
pub write_request-stored :
    (id : ℕ) (f : PaymentRequest → PaymentRequest) (d : Db) (r : PaymentRequest)
    → ((q : PaymentRequest) → (f q).id ≡ q.id)
    → get id d.requests ≡ some r
    → new_payment_request (f r) ≡ ok (f r)
    → (write_request id f d ≡ (ok (some (f r)), with_request id f d))
      × IsRequest id (with_request id f d) (f r)
write_request-stored id f d r same found valid =
    (ground (arith, written, valid), record { found = written; valid = valid })
  where
    written : get id (modify id f d.requests) ≡ some (f r)
    written = ground (arith, found, get-modify f same id id d.requests)

as_signed-valid :
    (now : ℕ) (hex psbt : String) (new_psbt : Option String) (r : PaymentRequest)
    → new_payment_request r ≡ ok r
    → r.psbt_base64 ≡ some psbt
    → new_payment_request (as_signed now hex new_psbt r) ≡ ok (as_signed now hex new_psbt r)
unfolding new_payment_request
as_signed-valid now hex psbt new_psbt r v e = ground arith

abbrev pub has_final : PsbtInput → Bool
has_final i = i.has_final_script_witness || i.has_final_script_sig

module _ {P : Type 0} (bdk : Bdk P) where
  -- every input of a PSBT, of which there is one, has its final script
  abbrev pub IsFinal : P → Type 0
  IsFinal p = (bdk.inputs p ≢ []) × All (λ i. has_final i ≡ true) (bdk.inputs p)

  -- What a submission gives, with the PSBT that the payment was composed as: the transaction of a
  -- final PSBT; that of the submitted PSBT once it is combined with the original and finalized; or
  -- the submitted transaction, where there is no PSBT.
  pub data Gives (original : String) (psbt hex : Option String) (signed : String)
      (new_psbt : Option String) : Type 0 where
    by_final :
        (text : String) (p : P)
        → psbt ≡ some text
        → bdk.parse_psbt text ≡ some p
        → IsFinal p
        → bdk.extract_hex p ≡ some signed
        → new_psbt ≡ some text
        → Gives original psbt hex signed new_psbt
    by_combined :
        (text : String) (p o merged final : P)
        → psbt ≡ some text
        → bdk.parse_psbt text ≡ some p
        → ¬ IsFinal p
        → bdk.parse_psbt original ≡ some o
        → bdk.combine o p ≡ some merged
        → bdk.finalize merged ≡ some (true, final)
        → bdk.extract_hex final ≡ some signed
        → new_psbt ≡ some (bdk.serialize final)
        → Gives original psbt hex signed new_psbt
    by_transaction :
        (txid : String)
        → psbt ≡ none
        → hex ≡ some signed
        → bdk.txid_of signed ≡ some txid
        → new_psbt ≡ none
        → Gives original psbt hex signed new_psbt

  all_of-All : (is : List PsbtInput) → all_of has_final is ≡ true → All (λ i. has_final i ≡ true) is
  all_of-All [] e = tt
  all_of-All (i ∷ is) e = (ground arith, all_of-All is (ground arith))

  All-all_of : (is : List PsbtInput) → All (λ i. has_final i ≡ true) is → all_of has_final is ≡ true
  All-all_of [] h = refl
  All-all_of (i ∷ is) h = rw (h.0, All-all_of is h.1) refl

  is_psbt_finalized-IsFinal : (p : P) → is_psbt_finalized (bdk.inputs p) ≡ true → IsFinal p
  is_psbt_finalized-IsFinal p e = (λ empty. ground arith, all_of-All (bdk.inputs p) (ground arith))

  not_empty : (is : List PsbtInput) → is ≢ [] → is_empty is ≡ false
  not_empty [] h = absurd (h refl)
  not_empty (i ∷ is) h = refl

  IsFinal-is_psbt_finalized : (p : P) → IsFinal p → is_psbt_finalized (bdk.inputs p) ≡ true
  IsFinal-is_psbt_finalized p h =
      rw (not_empty (bdk.inputs p) h.0, All-all_of (bdk.inputs p) h.1) refl

  finalize_merged-gives :
      (merged : P) (signed : String) (new_psbt : Option String)
      → finalize_merged bdk merged ≡ ok (signed, new_psbt)
      → (final : P) × (bdk.finalize merged ≡ some (true, final))
        × (bdk.extract_hex final ≡ some signed)
        × (new_psbt ≡ some (bdk.serialize final))
  finalize_merged-gives merged signed new_psbt e = elim (Option-cases (bdk.finalize merged)) [
    | inl failed ↦ ground arith
    | inr ((false, final), done) ↦ ground arith
    | inr ((true, final), done) ↦ elim (Option-cases (bdk.extract_hex final)) [
      | inl failed ↦ ground arith
      | inr (hex, extracted) ↦ (final, done, ground arith, ground arith)
    ]
  ]

  signed_of-Gives :
      (original : String) (psbt hex : Option String) (signed : String) (new_psbt : Option String)
      → signed_of bdk original (submission_of psbt hex) ≡ ok (signed, new_psbt)
      → Gives original psbt hex signed new_psbt
  unfolding signed_of
  signed_of-Gives original none none signed new_psbt e = ground arith
  signed_of-Gives original none (some hex) signed new_psbt e =
      elim (Option-cases (bdk.txid_of hex)) [
        | inl unread ↦ ground arith
        | inr (txid, read) ↦ by_transaction txid refl (ground arith) (ground arith) (ground arith)
      ]
  signed_of-Gives original (some psbt) hex signed new_psbt e =
      elim (Option-cases (bdk.parse_psbt psbt)) [
        | inl unread ↦ ground arith
        | inr (p, read) ↦ elim (Bool-cases (is_psbt_finalized (bdk.inputs p))) [
          | inl final ↦ elim (Option-cases (bdk.extract_hex p)) [
            | inl failed ↦ ground arith
            | inr (h, extracted) ↦
                by_final psbt p refl read (is_psbt_finalized-IsFinal p final) (ground arith)
                  (ground arith)
          ]
          | inr open_ ↦ elim (Option-cases (bdk.parse_psbt original)) [
            | inl failed ↦ ground arith
            | inr (o, read_o) ↦ elim (Option-cases (bdk.combine o p)) [
              | inl failed ↦ ground arith
              | inr (merged, combined) ↦
                  let (final, done, extracted, serialized) =
                    finalize_merged-gives merged signed new_psbt (ground arith) in
                  by_combined psbt p o merged final refl read
                    (λ h. ground (arith, IsFinal-is_psbt_finalized p h)) read_o combined done
                    extracted serialized
            ]
          ]
        ]
      ]

  -- what a submission stores
  pub record IsSubmitted (now id : ℕ) (s : Option String × Option String) (d : Db)
      (r : PaymentRequest) (d' : Db) : Type 0 where
    pub before : PaymentRequest
    pub stored : IsRequest id d before
    pub waiting : before.status ≡ awaiting_signature
    pub original : String
    pub composed : before.psbt_base64 ≡ some original
    pub hex : String
    pub psbt : Option String
    pub signed : Gives original s.0 s.1 hex psbt
    pub result : r ≡ record before {
      status = awaiting_broadcast;
      signed_transaction_hex = some hex;
      psbt_base64 = or_else psbt (some original);
      updated_at = now;
    }
    pub database :
        d'
        ≡ with_request id
            (λ q. record q {
              status = awaiting_broadcast;
              signed_transaction_hex = some hex;
              psbt_base64 = or_else psbt q.psbt_base64;
              updated_at = now;
            })
            d

  waits : (s : PaymentStatus) → not (is_awaiting_signature s) ≡ false → s ≡ awaiting_signature
  waits awaiting_signature e = refl
  waits s e = ground arith

  -- Submitting a signed payment either raises, with nothing written; or the stored request was waiting
  -- for its signature, and is returned and stored as AWAITING_BROADCAST, with the transaction and the
  -- PSBT that the submission gives: those of a PSBT that is final, those of a PSBT that is combined
  -- with the original and finalized, or the transaction alone that bitcoin's library reads.
  pub submit_signed_payment_request-Outcome :
      (now id : ℕ) (psbt hex : Option String) (d : Db)
      → Outcome
          (IsSubmitted now id (psbt, hex) d)
          (submit_signed_payment_request bdk now id psbt hex)
          d
  unfolding submit_signed_payment_request mark_signed
  submit_signed_payment_request-Outcome now id psbt hex d =
      Outcome-read d (request_get id) _ (request_get-unchanged id d) λ found read.
        Outcome-or_raise d found payment_request_not_found _ λ r is_found.
          Outcome-raise_if d (not (is_awaiting_signature r.status)) wrong_status_for_operation _
            λ waiting. Outcome-or_raise d r.psbt_base64 banking_error _ λ original composed.
              Outcome-lift d (signed_of bdk original (submission_of psbt hex)) _ λ (h, p) signed.
                let request = request_get-IsRequest id d found r read is_found in
                let written =
                  write_request-stored id (as_signed now h p) d r (λ q. refl) request.found
                    (as_signed-valid now h original p r request.valid composed) in
                Outcome-written d (mark_signed now id h p) payment_request_not_found
                  (as_signed now h p r) (with_request id (as_signed now h p) d) written.0
                  (record {
                    before = r;
                    stored = request;
                    waiting = waits r.status waiting;
                    original = original;
                    composed = composed;
                    hex = h;
                    psbt = p;
                    signed = signed_of-Gives original psbt hex h p signed;
                    result = cc composed;
                    database = refl;
                  })

-- what a cancellation stores
pub record IsCancelled (now id : ℕ) (d : Db) (r : PaymentRequest) (d' : Db) : Type 0 where
  pub before : PaymentRequest
  pub stored : IsRequest id d before
  pub allowed :
      (before.status ≡ draft)
      ⊎ ((before.status ≡ awaiting_signature) ⊎ (before.status ≡ awaiting_broadcast))
  pub result : r ≡ record before { status = cancelled; updated_at = now }
  pub database : d' ≡ with_request id (λ q. record q { status = cancelled; updated_at = now }) d

is_cancellable-cases :
    (s : PaymentStatus)
    → is_cancellable s ≡ true
    → (s ≡ draft) ⊎ ((s ≡ awaiting_signature) ⊎ (s ≡ awaiting_broadcast))
is_cancellable-cases draft e = inl refl
is_cancellable-cases awaiting_signature e = inr (inl refl)
is_cancellable-cases awaiting_broadcast e = inr (inr refl)
is_cancellable-cases s e = ground arith

as_cancelled-valid :
    (now : ℕ) (r : PaymentRequest)
    → new_payment_request r ≡ ok r
    → new_payment_request (as_cancelled now r) ≡ ok (as_cancelled now r)
unfolding new_payment_request
as_cancelled-valid now r v = ground arith

translated-cancel :
    (now id : ℕ) (d : Db) (r : PaymentRequest)
    → IsRequest id d r
    → translate wrong_status_for_operation (cancel now id) d ≡ (
        if is_cancellable r.status
        then (ok (some (as_cancelled now r)), with_request id (as_cancelled now) d)
        else (err wrong_status_for_operation, d))
unfolding cancel
translated-cancel now id d r s = elim (Bool-cases (is_cancellable r.status)) [
  | inl allowed ↦ ground (
    arith,
    s.found,
    (write_request-stored id (as_cancelled now) d r (λ q. refl) s.found
        (as_cancelled-valid now r s.valid)).0,
  )
  | inr refused ↦ ground (arith, s.found)
]

-- Cancelling a payment either raises, with nothing written; or the stored request was a draft, or was
-- waiting for its signature or its broadcast, and is returned and stored as CANCELLED.
pub cancel_payment_request-Outcome :
    (now id : ℕ) (d : Db) → Outcome (IsCancelled now id d) (cancel_payment_request now id) d
unfolding cancel_payment_request
cancel_payment_request-Outcome now id d =
    Outcome-read d (request_get id) _ (request_get-unchanged id d) λ found read.
      Outcome-or_raise d found payment_request_not_found _ λ r is_found.
        let request = request_get-IsRequest id d found r read is_found in
        let run = translated-cancel now id d r request in
        elim (Bool-cases (is_cancellable r.status)) [
          | inl allowed ↦
              Outcome-written d _ payment_request_not_found (as_cancelled now r)
                (with_request id (as_cancelled now) d)
                (run
                  ∙ ap
                      (λ b.
                        if b
                        then (ok (some (as_cancelled now r)), with_request id (as_cancelled now) d)
                        else (err wrong_status_for_operation, d))
                      allowed)
                (record {
                  before = r;
                  stored = request;
                  allowed = is_cancellable-cases r.status allowed;
                  result = refl;
                  database = refl;
                })
          | inr refused ↦ Outcome-refused d _ payment_request_not_found wrong_status_for_operation (
              run
              ∙ ap
                  (λ b.
                    if b
                    then (ok (some (as_cancelled now r)), with_request id (as_cancelled now) d)
                    else (err wrong_status_for_operation, d))
                  refused)
        ]
