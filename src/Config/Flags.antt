-- ===== src/Config/Flags.antt =====
-- How the flags of the environment are read: `toBoolean` of env.validation.ts trims the text that it
-- is given, and `bool` of configuration.ts does not.
use basket_shared.Prelude.{
  ℕ, ◌≡◌, refl, true, false, some, ◌∷◌, any, Text, text, text_eq, lower, lower_char, arith,
}
use basket_shared.Clamd.{is_space, trim_start}
use basket_shared.Config.Number.{trim}
use basket_shared.Config.Environment.{Env, lookup, str, to_boolean, truthy}
use basket_shared.Config.Settings.{read_bool, configuration}

not_spelled :
    (c : ℕ) (s : Text) → is_space c ≡ true → any (λ t. text_eq t (lower_char c ∷ s)) truthy ≡ false
unfolding is_space lower_char text_eq
not_spelled c s space = ground arith

-- With white space in front, a flag passes the validation as what it says without it, while the
-- configuration takes it for false: `AV_ENABLED=" true"` leaves the antivirus step off.
pub av_enabled-padded :
    (env : Env) (c : ℕ) (s : Text)
    → is_space c ≡ true
    → lookup (text "AV_ENABLED") env ≡ some (c ∷ s)
    → (to_boolean (str (c ∷ s)) ≡ to_boolean (str s))
      × ((configuration env).pipeline.av_enabled ≡ false)
unfolding to_boolean trim trim_start configuration read_bool lower_char
av_enabled-padded env c s space found = (rw space refl, rw found (not_spelled c (lower s) space))
