-- ===== src/Alerts/Delivery.antt =====
-- Every alerter is called, whatever became of the calls before it.
use go_sarah.Shared.{
  ◌≡◌, refl, sym, ap, ◌∙◌, ◌↔◌, none, List, [], ◌∷◌, ◌++◌, append-nil, append_assoc, nat_eq, All,
  Text, text_eq,
}
use go_sarah.Errors.{Error}
use go_sarah.Alerts.{
  AlertResult, delivered, failed, panicked, panicked_value, Alerter, alert_error, alert_each,
  collected, alert_all,
}

unfoldable pub errors_of : List (Text × AlertResult) → List Error
errors_of [] = []
errors_of (r ∷ rs) = alert_error r.0 r.1 ++ errors_of rs

alert_error-nil : (name : Text) (r : AlertResult) → (alert_error name r ≡ []) ↔ (r ≡ delivered)
unfolding alert_error
alert_error-nil name delivered = (λ h. refl, λ h. refl)
alert_error-nil name (failed e) = (λ h. cc, λ h. cc)
alert_error-nil name (panicked e) = (λ h. cc, λ h. cc)
alert_error-nil name (panicked_value v) = (λ h. cc, λ h. cc)

append-eq_nil {ℓ} : {A : Type ℓ} (xs ys : List A) → xs ++ ys ≡ [] → (xs ≡ []) × (ys ≡ [])
append-eq_nil [] ys h = (refl, h)
append-eq_nil (x ∷ xs) ys h = cc

errors_of-nil :
    (rs : List (Text × AlertResult)) → (errors_of rs ≡ []) ↔ All (λ r. r.1 ≡ delivered) rs
unfolding errors_of
errors_of-nil [] = (λ h. tt, λ h. refl)
errors_of-nil (r ∷ rs) = (
  λ h.
      let (one, more) = append-eq_nil (alert_error r.0 r.1) (errors_of rs) h in
      ((alert_error-nil r.0 r.1).0 one, (errors_of-nil rs).0 more),
  λ h. rw ((alert_error-nil r.0 r.1).1 h.0) ((errors_of-nil rs).1 h.1),
)

collected-none : (es : List Error) → (collected es ≡ none) ↔ (es ≡ [])
unfolding collected
collected-none [] = (λ h. refl, λ h. refl)
collected-none (e ∷ es) = (λ h. cc, λ h. cc)

module _ {W : Type 0} where
  -- The world after all alerters are called one after the other.
  unfoldable pub told : List (Alerter W) → Text → Error → W → W
  told [] b e w = w
  told (a ∷ rest) b e w = told rest b e (a.alert b e w).0

  -- The results of the calls, each with the alerter that gave it.
  unfoldable pub results : List (Alerter W) → Text → Error → W → List (Text × AlertResult)
  results [] b e w = []
  results (a ∷ rest) b e w = let (w', r) = a.alert b e w in (a.type_name, r) ∷ results rest b e w'

  alert_each_lem :
      (rest : List (Alerter W)) (b : Text) (e : Error) (w : W) (errs : List Error)
      → alert_each rest b e w errs ≡ (told rest b e w, errs ++ errors_of (results rest b e w))
  unfolding alert_each told results errors_of
  alert_each_lem [] b e w errs = ap (λ (t : List Error). (w, t)) (sym (append-nil errs))
  alert_each_lem (a ∷ rest) b e w errs =
      let (w', r) = a.alert b e w in
      alert_each_lem rest b e w' (errs ++ alert_error a.type_name r)
      ∙ ap (λ (t : List Error). (told rest b e w', t)) (append_assoc errs _ _)

  pub alert_all_lem :
      (rest : List (Alerter W)) (b : Text) (e : Error) (w : W)
      → ((alert_all rest b e w).0 ≡ told rest b e w)
        × ((alert_all rest b e w).1 ≡ collected (errors_of (results rest b e w)))
  unfolding alert_all
  alert_all_lem rest b e w = rw (alert_each_lem rest b e w []) (refl, refl)

  -- `alertAll` returns nil exactly if every alerter delivered.
  pub alert_all-none_iff :
      (rest : List (Alerter W)) (b : Text) (e : Error) (w : W)
      → ((alert_all rest b e w).1 ≡ none) ↔ All (λ r. r.1 ≡ delivered) (results rest b e w)
  alert_all-none_iff rest b e w =
      let by_errors = collected-none (errors_of (results rest b e w)) in
      let by_calls = errors_of-nil (results rest b e w) in
      let same = (alert_all_lem rest b e w).1 in
      (λ h. by_calls.0 (by_errors.0 (sym same ∙ h)), λ h. same ∙ by_errors.1 (by_calls.1 h))
