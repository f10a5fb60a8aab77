-- ===== src/Entities/Donations.antt =====
-- `DonationEntity` and `FundTypeEntity` of apps/tcc/usecase/entities/donations.py. Amounts are whole
-- numbers of hundredths; the percentage of progress, a float, is not modelled.
use taunggyi_city_church.Common.{
  ℕ, Bool, true, false, Option, none, some, List, [], ◌∷◌, ◌++◌, String,
}
use taunggyi_city_church.Common.Exec.{Outcome, ok, raised, type_error}
use taunggyi_city_church.Common.Int.{ℤ, pos, ltb_ℤ, leb_ℤ}
use taunggyi_city_church.Entities.{
  BaseEntity, DonationStatus, sanitize_string, validate_required_fields, presence, text_field,
}
use taunggyi_city_church.Entities.Users.{note, in_future}

pub record DonationEntity : Type 0 where
  pub base : BaseEntity
  pub amount : Option ℤ
  pub transaction_id : Option String
  pub receipt_number : Option String
  pub notes : Option String
  pub is_recurring : Bool
  pub donation_date : Option ℕ
  pub payment_method : Option String
  pub fund_type_id : Option ℕ
  pub user_id : Option ℕ
  pub status : DonationStatus

unfoldable pub sanitize_donation : DonationEntity → DonationEntity
unfolding sanitize_string
sanitize_donation d = record d {
  transaction_id = sanitize_string d.transaction_id;
  receipt_number = sanitize_string d.receipt_number;
  notes = sanitize_string d.notes;
}

abbrev pub not_positive : Option ℤ → Bool
not_positive none = false
not_positive (some a) = leb_ℤ a (pos 0)

abbrev pub is_negative : Option ℤ → Bool
is_negative none = false
is_negative (some a) = ltb_ℤ a (pos 0)

-- `DonationEntity.validate_for_creation`
unfoldable pub validate_donation : ℕ → DonationEntity → List String
unfolding validate_required_fields
validate_donation now d =
    validate_required_fields (
      ("amount", presence d.amount)
      ∷ ("payment_method", text_field d.payment_method)
      ∷ ("fund_type_id", presence d.fund_type_id)
      ∷ [])
    ++ (note (not_positive d.amount) "Amount must be greater than 0"
        ++ note (in_future now d.donation_date) "Donation date cannot be in the future")

unfoldable pub is_successful : DonationEntity → Bool
is_successful d = elim d.status [ DonationStatus.completed ↦ true | _ ↦ false ]

pub record FundTypeEntity : Type 0 where
  pub base : BaseEntity
  pub name : Option String
  pub description : Option String
  pub target_amount : Option ℤ
  pub current_balance : Option ℤ
  pub is_active : Bool

unfoldable pub sanitize_fund : FundTypeEntity → FundTypeEntity
unfolding sanitize_string
sanitize_fund f = record f {
  name = sanitize_string f.name;
  description = sanitize_string f.description;
}

-- `total_raised >= target_amount`; None has no order
unfoldable pub is_target_reached : FundTypeEntity → Outcome Bool
is_target_reached f = elim f.current_balance [
  | none ↦ raised type_error
  | some raised_so_far ↦ elim f.target_amount [
    | none ↦ raised type_error
    | some target ↦ ok (leb_ℤ target raised_so_far)
  ]
]

-- `FundTypeEntity.validate_for_creation`
unfoldable pub validate_fund : FundTypeEntity → List String
unfolding validate_required_fields
validate_fund f =
    validate_required_fields (("name", text_field f.name) ∷ [])
    ++ (note (is_negative f.target_amount) "Target amount cannot be negative"
        ++ note (is_negative f.current_balance) "Current balance cannot be negative")
