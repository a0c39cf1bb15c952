-- ===== src/App/Offering/Tests.antt =====
-- The terms of an offering that a curator typed.
use nextblock.Base.{codes, ◌≡◌, refl, some}
use nextblock.Base.Int.{pos}
use nextblock.App.Session.{is_address}
use nextblock.App.Offering.{OfferingTermsInput, validate_offering_terms, valid, includes}
use nextblock.App.Offering.Valid.{IsOffering, validate_offering_terms-IsOffering}

abbrev typed : OfferingTermsInput
typed = record {
  vault_address = some (codes " 0xABCDEFABCDEFABCDEFABCDEFABCDEFABCDEFABCD");
  manager_name = some (codes " Acme Re ");
  strategy_statement = some (codes "Property cat");
  risk_grade = some (codes "moderate ");
  target_apy_min_bps = some (pos 800);
  target_apy_max_bps = some (pos 1200);
}

abbrev kept : OfferingTermsInput
kept = record {
  vault_address = some (codes "0xabcdefabcdefabcdefabcdefabcdefabcdefabcd");
  manager_name = some (codes "Acme Re");
  strategy_statement = some (codes "Property cat");
  risk_grade = some (codes "MODERATE");
  target_apy_min_bps = some (pos 800);
  target_apy_max_bps = some (pos 1200);
}

typed_run : validate_offering_terms typed ≡ valid kept
unfolding validate_offering_terms is_address includes
typed_run = refl

validate_offering_terms-IsOffering_example :
    IsOffering kept × (validate_offering_terms kept ≡ valid kept)
validate_offering_terms-IsOffering_example = validate_offering_terms-IsOffering typed kept typed_run
