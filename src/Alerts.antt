-- ===== src/Alerts.antt =====
-- alert.go: telling every alerter of a critical state. `W` is the world that the alerters change.
pub mod Delivery
mod Examples
use go_sarah.Shared.{
  ℕ, zero, suc, ◌+◌, ◌-◌, ◌*◌, ◌/◌, ◌%◌, ◌≤◌, ◌<◌, ◌≡◌, refl, sym, ap, subst, ◌∙◌, fun_ext, ◌≢◌,
  ◌↔◌, ◌⊎◌, inl, inr, Bool, true, false, not, ◌&&◌, ◌||◌, Option, none, some, List, [], ◌∷◌, ◌++◌,
  map, append-nil, append_assoc, map-append, arith, add_assoc, add_comm, add-zero, ltb, leb,
  nat_beq, if◌then◌else◌, nat_beq_iff, if_same, Bool-cases, Option-cases, is_nil, Eq, ◌==◌, nat_eq,
  ==_iff, ==_self, length, get_elem?, set, index_func, keep, any, tally, tally-append, tally_middle,
  length-append, keep-append, All, All-append, Text, codes, text_beq, text_eq, is_empty, Lacks,
  split_unique, Map, lookup, insert, delete, lookup-insert, lookup-delete, Result, ok, err, Outcome,
  returns, panics,
}
use go_sarah.Errors.{Error, plain, wrapped}

-- How a call of `Alert` ends: nil, an error, a panic with an error, or a panic with another value.
pub data AlertResult : Type 0 where
  delivered : AlertResult
  failed panicked : Error → AlertResult
  panicked_value : Text → AlertResult

-- The interface `Alerter`, with the name of its dynamic type, which `%T` prints.
pub record Alerter (W : Type 0) : Type 0 where
  pub type_name : Text
  pub alert : Text → Error → W → W × AlertResult

-- `appendAlerter`.
unfoldable pub append_alerter : {W : Type 0} → Alerter W → List (Alerter W) → List (Alerter W)
append_alerter a rest = rest ++ a ∷ []

-- What one call adds to the collected errors.
unfoldable pub alert_error : Text → AlertResult → List Error
alert_error name delivered = []
alert_error name (failed e) = wrapped (codes "failed to send alert via " ++ name) e ∷ []
alert_error name (panicked e) = wrapped (codes "panic on alerting via " ++ name) e ∷ []
alert_error name (panicked_value v) =
    plain (codes "panic on alerting via " ++ (name ++ (codes ": " ++ v))) ∷ []

-- `alertErrs.isEmpty` decides between nil and the collected errors.
unfoldable pub collected : List Error → Option (List Error)
collected [] = none
collected (e ∷ es) = some (e ∷ es)

module _ {W : Type 0} where
  -- The loop of `alertAll`, with the errors collected so far.
  unfoldable pub alert_each : List (Alerter W) → Text → Error → W → List Error → W × List Error
  alert_each [] b e w errs = (w, errs)
  alert_each (a ∷ rest) b e w errs =
      let (w', r) = a.alert b e w in alert_each rest b e w' (errs ++ alert_error a.type_name r)

  unfoldable pub alert_all : List (Alerter W) → Text → Error → W → W × Option (List Error)
  unfolding collected
  alert_all rest b e w = let (w', errs) = alert_each rest b e w [] in (w', collected errs)
