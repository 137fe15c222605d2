-- ===== src/Alerts/Examples.antt =====
-- Two alerters, one of which panics.
use go_sarah.Shared.{ℕ, suc, List, [], ◌∷◌, nat_eq, codes, text_eq}
use go_sarah.Errors.{Error, plain}
use go_sarah.Alerts.{Alerter, delivered, panicked}

-- The world counts the calls.
abbrev mail : Alerter ℕ
mail = record { type_name = codes "*mail"; alert = λ b e w. (suc w, delivered) }

abbrev line : Alerter ℕ
line = record { type_name = codes "*line"; alert = λ b e w. (suc w, panicked e) }

abbrev alerters : List (Alerter ℕ)
alerters = line ∷ mail ∷ []

abbrev trouble : Error
trouble = plain (codes "connection lost")
