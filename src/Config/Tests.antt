-- ===== src/Config/Tests.antt =====
-- pocisys-hash-monitor/services: a concrete miner's form, and the theorems applied to it.
use gauge_umbrel_community.Prelude.{
  ◌==◌, if◌then◌else◌, ◌≤◌, ◌⊎◌, inl, ℕ, List, Text, arith, ◌≡◌, refl, true, false, inr, none, some,
  [], ◌∷◌, codes, text_eq, lower, strip, is_prefix,
}
use gauge_umbrel_community.Config.Values.{
  RawValue, is_bad, is_negative, value_or, or_text, is_host, host_text, is_time, is_profile,
  is_board_number, is_decimal,
}
use gauge_umbrel_community.Config.Miner.{
  RawMiner, CleanMiner, clean_miner, first_error, control_checks, is_one_of, miner_types,
  mining_targets, low_modes,
}
use gauge_umbrel_community.Config.Transfer.{
  RawItem, Item, clean_items, is_id, is_used, is_hex, make_id,
}
use gauge_umbrel_community.Config.Ids.{IsDistinct, IsRandom, clean_items-IsDistinct}
use gauge_umbrel_community.Config.Safe.{IsMiner, clean_miner-IsMiner}

abbrev form : RawMiner
form = record {
  name = codes " rig ";
  miner_type = codes "LuxOS";
  ip = codes "http://10.0.0.2/";
  group = [];
  mining_target = [];
  enabled = true;
  display_order = RawValue.value 3;
  min_hashrate = RawValue.blank;
  temp_warning = RawValue.blank;
  temp_critical = RawValue.value 85000;
  control_low_mode = [];
  control_low_time = [];
  control_full_time = [];
  control_low_profile = codes "low";
  control_full_profile = codes "full";
  control_enabled = true;
  schedule_enabled = true;
  auto_recover = false;
  chip_threshold = RawValue.negative;
}

abbrev clean : CleanMiner
clean = record {
  name = codes "rig";
  ip = codes "10.0.0.2";
  miner_type = codes "luxos";
  group = codes "Ungrouped";
  mining_target = codes "btc";
  enabled = true;
  display_order = 3;
  min_hashrate = none;
  temp_warning = 70000;
  temp_critical = 85000;
  control = some (record {
    enabled = true;
    schedule_enabled = true;
    low_mode = codes "profile";
    low_time = codes "16:00";
    full_time = codes "21:00";
    low_profile = codes "low";
    full_profile = codes "full";
    auto_recover = false;
    chip_threshold = 0;
  });
}

form_cleaned : clean_miner form ≡ inr clean
unfolding clean_miner text_eq lower strip is_one_of miner_types is_bad is_negative value_or
    mining_targets or_text is_host host_text is_prefix low_modes is_time is_decimal is_profile
    is_board_number
form_cleaned = refl

-- One minute as two texts, the second with an Arabic-Indic digit, for which the times of a schedule
-- count as different.
abbrev twin_form : RawMiner
twin_form = record form {
  control_low_time = codes "16:00";
  control_full_time = 49 ∷ 54 ∷ 58 ∷ 48 ∷ 1632 ∷ [];
}

twin_times_accepted : first_error (control_checks twin_form) ≡ none
unfolding first_error control_checks text_eq lower strip is_bad value_or or_text low_modes is_time
    is_profile is_board_number is_one_of is_decimal
twin_times_accepted = refl

clean_miner-IsMiner_example : IsMiner clean
clean_miner-IsMiner_example = clean_miner-IsMiner form clean form_cleaned

-- The hexadecimal texts of the UUIDs that are drawn for the positions.
abbrev uuid : ℕ → Text
uuid p =
    if p == 1
    then codes "1f0c5a7d93b24e6f8a1b2c3d4e5f6071"
    else codes "2f0c5a7d93b24e6f8a1b2c3d4e5f6071"

uuid-IsRandom : IsRandom uuid (codes "miner") 2
unfolding text_eq
uuid-IsRandom p q one le two =
    let first : p ≡ 1 = omega arith in let second : q ≡ 2 = omega arith in rw (first, second) refl

first_or_second : (q : ℕ) → 1 ≤ q → q ≤ 2 → (q ≡ 1) ⊎ (q ≡ 2)
first_or_second q lo hi = ground arith

abbrev item : RawItem RawMiner
item = record { id = codes "miner_0123456789ab"; body = form }

made_for :
    (q : ℕ) → 1 ≤ q → q ≤ 2 → text_eq (make_id (codes "miner") (uuid q)) (strip item.id) ≡ false
unfolding make_id text_eq strip
made_for q lo hi = elim (first_or_second q lo hi) [ inl one ↦ rw one refl | inr two ↦ rw two refl ]

-- The second item of the same identifier gets a new one.
abbrev restored : List (Item CleanMiner)
restored =
    record { id = codes "miner_0123456789ab"; position = 1; body = clean }
    ∷ record { id = codes "miner_2f0c5a7d93b2"; position = 2; body = clean }
    ∷ []

items_cleaned :
    clean_items uuid (codes "miner") clean_miner 500 (some (some item ∷ some item ∷ []))
    ≡ inr restored
unfolding clean_items make_id is_used is_id is_hex clean_miner text_eq lower strip is_one_of
    miner_types is_bad is_negative value_or mining_targets or_text is_host host_text is_prefix
    low_modes is_time is_profile is_board_number is_decimal
items_cleaned = refl

clean_items-IsDistinct_example : IsDistinct [] restored
clean_items-IsDistinct_example =
    clean_items-IsDistinct uuid (codes "miner") clean_miner 500 (some item ∷ some item ∷ [])
      restored uuid-IsRandom (made_for, (made_for, tt)) items_cleaned
