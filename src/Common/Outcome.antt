-- ===== src/Common/Outcome.antt =====
-- What a call gives back: a value, or the exception that it throws.
use mathlib.Core.Path.{◌≡◌, refl}
use mathlib.Core.Logic.{◌⊎◌, inl, inr}

-- One constructor for each failed ETDCASSERT, ETDCASSERTX, ETDCSYSCALL or throw.
pub data Failure : Type 0 where
  -- the model's bound on rounds was too small
  out_of_fuel : Failure
  read_failed read_hung_up write_failed write_zero short_write nothing_to_write : Failure
  lseek_failed open_failed mkdir_failed bad_device already_busy invalid_mode path_in_use : Failure
  cannot_seek not_inserted not_my_uuid not_initialized not_for_reading not_for_writing : Failure
  not_connected out_of_range invalid_reply changed_mind refused unprocessed_lines unconsumed_bytes
        missing_field duplicate_field bad_number not_one_line bad_address bad_push no_command
        unknown_protocol not_resolved empty_path target_with_wildcards nothing_matched
        many_files_one_target no_url :
      Failure

pub data Result {ℓ} (A : Type ℓ) : Type ℓ where
  ok : A → Result A
  err : Failure → Result A

-- The value of a call that returned is handed to a constructor.
abbrev pub map_ok {ℓ κ} : {A : Type ℓ} {B : Type κ} → (A → B) → Result A → Result B
map_ok f (err e) = err e
map_ok f (ok a) = ok (f a)

pub Result-cases {ℓ} :
    {A : Type ℓ} (r : Result A) → ((e : Failure) × (r ≡ err e)) ⊎ ((a : A) × (r ≡ ok a))
Result-cases (err e) = inl (e, refl)
Result-cases (ok a) = inr (a, refl)
