-- ===== src/Tests/Holdings.antt =====
-- The theorems on holdings: their creation, their types and their deletion.
use tallykeep.Db.Keeps.{committed}
use mathlib.Core.List.{Perm}
use mathlib.Core.List.Perm
use tallykeep.Prelude.{
  subst, sym, ℕ, true, false, ◌≡◌, refl, none, some, [], ◌∷◌, pos, ◌==◌, if◌then◌else◌,
}
use tallykeep.Errors.{value_error, ok, err, uncaught}
use tallykeep.Table.{get}
use tallykeep.Domain.Enums.{strongbox, vault, mainnet, onchain, open_invoice, spending}
use tallykeep.Domain.Holding.{Holding, new_holding}
use tallykeep.Domain.Payment.{Invoice}
use tallykeep.Domain.Chain.{new_descriptor}
use tallykeep.Db.{Db, HoldingRow, flush_all, holding_key}
use tallykeep.Repositories.Holdings.{holding_of_row, get_holding_as, descriptor_ids_for_holding}
use tallykeep.Repositories.Cascade.{delete_cascade}
use tallykeep.Repositories.Cascade.Deletable.{IsLinked}
use tallykeep.Repositories.Cascade.Completing.{delete_cascade-deletes, is_mentioned}
use tallykeep.Repositories.Cascade.Reserved.{delete_cascade-reserved}
use tallykeep.Descriptors.Parsing.{parse, parse_script, parse_single, derive_addresses, derive_from}
use tallykeep.Holdings.{Outside, import_descriptor}
use tallykeep.Holdings.Creating.{HoldingInput, import_all, create_holding}
use tallykeep.Holdings.RoundTrip.{IsFresh, get_holding-create_holding}
use tallykeep.Holdings.Changing.{change_holding_type, retyped}
use tallykeep.Holdings.Types.{has_leftover, change_holding_type-leftover}
use tallykeep.Tests.Data.{sample_db, purse_row, no_subtype, sample_reader}

abbrev sample_outside : Outside
sample_outside = record {
  bdk = sample_reader;
  path_text = λ root change i. root;
  now = 7;
  server_now = 6;
}

abbrev cold_input : HoldingInput
cold_input = record {
  id = 3;
  name = "Cold";
  description = none;
  purpose = spending;
  declared_security = purse_row.declared_security;
  display_color = "#000";
  display_order = pos 1;
  descriptors =
      record {
        name = "main";
        expression = "wpkh(cold)";
        change_expression = none;
        network = mainnet;
        gap_limit = pos 2;
        descriptor_id = 13;
        external_id = λ i. i;
        change_id = λ i. i;
      }
      ∷ [];
}

fresh : IsFresh 3 sample_db
unfolding get
fresh = record {
  unknown = refl;
  no_holdings = refl;
  unowned = refl;
  no_descriptors = refl;
  no_provider = refl;
  no_providers = refl;
}

abbrev cold_row : HoldingRow
cold_row = record {
  id = 3;
  holding_type = strongbox;
  name = "Cold";
  description = none;
  purpose = spending;
  declared_security = purse_row.declared_security;
  subtype_data = record no_subtype { vendor = some "maker" };
  display_color = "#000";
  display_order = pos 1;
  created_at = 7;
  updated_at = 7;
}

abbrev cold_holding : Holding
cold_holding = holding_of_row cold_row (13 ∷ []) none

created :
    (create_holding sample_outside strongbox cold_input
      record no_subtype { vendor = some "maker" }
      false
      sample_db).0
    ≡ ok cold_holding
unfolding create_holding import_all import_descriptor parse parse_script parse_single
    derive_addresses derive_from new_descriptor new_holding
created = refl

abbrev cold_db : Db
cold_db =
    flush_all
      (create_holding sample_outside strongbox cold_input
        record no_subtype { vendor = some "maker" } false sample_db).1

stored_ids : descriptor_ids_for_holding 3 cold_db ≡ 13 ∷ []
unfolding create_holding import_all import_descriptor parse parse_script parse_single
    derive_addresses derive_from new_descriptor new_holding
stored_ids = refl

get_holding-create_holding_example :
    (get_holding_as (13 ∷ []) 3 cold_db
      ≡ (ok (some record cold_holding { created_at = 6; updated_at = 6 }), cold_db))
    × Perm {A = ℕ} (13 ∷ []) (13 ∷ [])
get_holding-create_holding_example =
    get_holding-create_holding sample_outside strongbox cold_input
      record no_subtype { vendor = some "maker" } false sample_db cold_holding fresh created
      (13 ∷ []) (subst (Perm {A = ℕ} (13 ∷ [])) (sym stored_ids) (Perm.refl {A = ℕ} (13 ∷ [])))

-- the sample holding as a Strongbox with a device label
abbrev labelled_row : HoldingRow
labelled_row = record purse_row {
  holding_type = strongbox;
  subtype_data = record no_subtype { signing_device_label = some "device" };
}

abbrev labelled_db : Db
labelled_db = record sample_db { holdings = record { rows = labelled_row ∷ []; pending = [] } }

labelled_valid :
    new_holding (holding_of_row labelled_row (10 ∷ []) none)
    ≡ ok (holding_of_row labelled_row (10 ∷ []) none)
unfolding new_holding
labelled_valid = refl

labelled_found : get 1 labelled_db.holdings ≡ some labelled_row
unfolding get
labelled_found = refl

change_holding_type-leftover_example : (change_holding_type 1 vault none 8 60 labelled_db).0 ≡ (
    if has_leftover vault labelled_row.subtype_data
    then err value_error
    else ok (some (holding_of_row (retyped vault 8 labelled_row) (10 ∷ []) none)))
change_holding_type-leftover_example =
    change_holding_type-leftover 1 vault none 8 60 labelled_db labelled_row labelled_found refl refl
      labelled_valid

linked : IsLinked 1 sample_db
linked = record {
  utxos_at_addresses = ((λ h. refl), tt);
  no_whitelist = refl;
  own_settlements = tt;
  own_mirror = tt;
}

purse_found : get 1 sample_db.holdings ≡ some purse_row
unfolding get
purse_found = refl

delete_cascade-deletes_example :
    (d' : Db) × (delete_cascade 1 sample_db ≡ (ok true, d'))
    × (is_mentioned 1 d' ≡ false)
    × ((j : ℕ) → get j d'.holdings ≡ (if 1 == j then none else get j sample_db.holdings))
delete_cascade-deletes_example =
    delete_cascade-deletes 1 purse_row sample_db purse_found linked refl

-- an invoice that waits on the holding's address
abbrev waiting_invoice : Invoice
waiting_invoice = record {
  id = 70;
  holding_id = 1;
  invoice_type = onchain;
  amount_sats = none;
  description = none;
  status = open_invoice;
  expires_at = none;
  created_at = 1;
  receiving_address = some "bc1qa";
  receiving_address_id = some 11;
  bip21_uri = none;
  bolt11 = none;
  payment_hash = none;
  resulting_ledger_entry_id = none;
}

abbrev waiting_db : Db
waiting_db = record sample_db { invoices = record { rows = waiting_invoice ∷ []; pending = [] } }

delete_cascade-reserved_example :
    ((delete_cascade 1 waiting_db).0 ≡ err uncaught)
    × (committed (delete_cascade 1) waiting_db ≡ waiting_db)
delete_cascade-reserved_example = delete_cascade-reserved 1 purse_row waiting_db purse_found refl
