-- ===== src/Errors.antt =====
-- The exceptions that the domain and the services raise, one constructor for each class. The text
-- of an exception is not modelled.
-- (domain/*.py, services/treasury_service.py, services/banking_service.py,
-- services/security_health_service.py, services/holding_service.py under backend/tallykeep)
use tallykeep.Prelude.{List, [], ◌∷◌, ℕ, Bool, true, false}

pub data Error : Type 0 where
  -- a domain object whose `__post_init__` refuses it
  value_error : Error
  -- treasury_service
  treasury_error provider_not_found policy_not_found execution_not_found : Error
  policy_has_unacknowledged_warnings wrong_execution_status invalid_polling_interval : Error
  -- banking_service
  banking_error holding_cannot_send holding_not_found insufficient_balance : Error
  invalid_destination in_flight_payment_exists payment_request_not_found : Error
  wrong_status_for_operation psbt_mismatch signed_transaction_invalid broadcast_rejected : Error
  invoice_error holding_cannot_receive no_unused_address : Error
  -- security_health_service
  health_error invalid_state_transition revive_not_allowed : Error
  -- descriptor_adapter
  descriptor_parse_error unsupported_descriptor : Error
  -- holding_service and repositories/descriptor.py
  holding_service_error descriptor_already_exists : Error
  -- an HTTPException of the API, with its status code
  http_error : ℕ → Error
  -- an exception of a library that no service catches
  uncaught : Error

-- A pure check, such as `__post_init__`: it returns, or it raises.
pub data Result {ℓ} (T : Type ℓ) : Type ℓ where
  err : Error → Result T
  ok : T → Result T

-- `if b: raise ValueError(...)`
abbrev pub refuse_if : Bool → Result (Unit {0})
refuse_if false = ok tt
refuse_if true = err value_error

infixl 5 ◌>>=◌
abbrev pub ◌>>=◌ {ℓ κ} : {S : Type ℓ} {T : Type κ} → Result S → (S → Result T) → Result T
err e >>= next = err e
ok s >>= next = next s

-- a check, and then the rest
infixl 5 ◌>>◌
abbrev pub ◌>>◌ {ℓ} : {T : Type ℓ} → Result (Unit {0}) → Result T → Result T
check >> rest = check >>= λ _. rest

-- the domain objects of some rows: the first that is refused raises
abbrev pub build_all : {A : Type 0} → (A → Result A) → List A → Result (List A)
build_all new [] = ok []
build_all new (r ∷ rs) = elim (new r) [
  | ok a ↦ elim (build_all new rs) [ ok rest ↦ ok (a ∷ rest) | err e ↦ err e ]
  | err e ↦ err e
]
