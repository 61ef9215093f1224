-- ===== src/Shared/Auth/Checks.antt =====
-- What the checks of Shared/authprotocol.h accept.
use messenger_walkie_talkie.Prelude.{
  ℕ, ◌≤◌, String, ◌≡◌, ◌↔◌, ◌⊎◌, refl, true, List, [], ◌∷◌, arith, All, units, size,
}
use messenger_walkie_talkie.Shared.Auth.{
  is_username_unit, all_username_units, is_ascii_username_valid,
}

-- A latin letter, a digit or an underscore, as a code unit.
abbrev IsNameUnit : ℕ → Type 0
IsNameUnit c = ((48 ≤ c) × (c ≤ 57)) ⊎ ((65 ≤ c) × (c ≤ 90)) ⊎ ((97 ≤ c) × (c ≤ 122)) ⊎ (c ≡ 95)

is_username_unit_iff : (c : ℕ) → (is_username_unit c ≡ true) ↔ IsNameUnit c
unfolding is_username_unit
is_username_unit_iff c = (λ h. ground arith, λ h. ground arith)

all_username_units_sound : (cs : List ℕ) → all_username_units cs ≡ true → All IsNameUnit cs
unfolding all_username_units
all_username_units_sound [] h = tt
all_username_units_sound (c ∷ cs) h = (ground arith, all_username_units_sound cs (ground arith))

all_username_units_complete : (cs : List ℕ) → All IsNameUnit cs → all_username_units cs ≡ true
unfolding all_username_units
all_username_units_complete [] h = refl
all_username_units_complete (c ∷ cs) h =
    ground (arith, (is_username_unit_iff c).1 h.0, all_username_units_complete cs h.1)

abbrev pub IsName : String → Type 0
IsName s = (3 ≤ size s) × (size s ≤ 32) × All IsNameUnit (units s)

is_ascii_username_valid_sound : (s : String) → is_ascii_username_valid s ≡ true → IsName s
unfolding is_ascii_username_valid
is_ascii_username_valid_sound s h =
    (ground arith, ground arith, all_username_units_sound (units s) (ground arith))

is_ascii_username_valid_complete : (s : String) → IsName s → is_ascii_username_valid s ≡ true
unfolding is_ascii_username_valid
is_ascii_username_valid_complete s h = ground (arith, all_username_units_complete (units s) h.2)

-- A name passes isAsciiUsernameValid exactly if it has 3 to 32 code units, each of them a latin
-- letter, a digit or an underscore.
pub is_ascii_username_valid_iff : (s : String) → (is_ascii_username_valid s ≡ true) ↔ IsName s
is_ascii_username_valid_iff s =
    (is_ascii_username_valid_sound s, is_ascii_username_valid_complete s)
