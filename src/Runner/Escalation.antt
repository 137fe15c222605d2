-- ===== src/Runner/Escalation.antt =====
-- Escalated errors, against a description that reads the errors alone.
use go_sarah.Shared.{
  ◌≡◌, refl, ap, ◌∙◌, inl, inr, Bool, true, false, ◌||◌, Option, none, some, List, [], ◌∷◌, ◌++◌,
  append-nil, append_assoc, arith, if◌then◌else◌, Bool-cases, nat_eq, any, Text, text_eq,
}
use go_sarah.Errors.{Error, is_non_continuable}
use go_sarah.Runner.{
  SupervisionDirective, Supervisor, Supervised, handle_error, notify, notify_all, directed,
}

alerting : Option SupervisionDirective → List Error
alerting none = []
alerting (some d) = elim d.alerting_err [ none ↦ [] | some e ↦ e ∷ [] ]

directs_stop : Option SupervisionDirective → Bool
directs_stop none = false
directs_stop (some d) = d.stop_bot

abbrev verdict : Supervisor → Text → Error → Option SupervisionDirective
verdict none b e = none
verdict (some supervise) b e = supervise b e

-- An error stops the bot if it is non-continuable or the supervisor says so.
unfoldable pub is_critical : Supervisor → Text → Error → Bool
unfolding directs_stop
is_critical v b e = if is_non_continuable e then true else directs_stop (verdict v b e)

-- What is sent to the alerters for an error: itself if it is non-continuable, and else what the
-- supervisor says.
unfoldable pub alerts_for : Supervisor → Text → Error → List Error
unfolding alerting
alerts_for v b e = if is_non_continuable e then e ∷ [] else alerting (verdict v b e)

-- The alerts for the errors up to the first critical one, with it.
unfoldable pub alerts_until_critical : Supervisor → Text → List Error → List Error
alerts_until_critical v b [] = []
alerts_until_critical v b (e ∷ es) =
    let rest = alerts_until_critical v b es in
    if is_critical v b e then alerts_for v b e else alerts_for v b e ++ rest

directed_lem :
    (d : Option SupervisionDirective) (s : Supervised)
    → directed d s
      ≡ record { cancelled = s.cancelled || directs_stop d; alerts = s.alerts ++ alerting d }
unfolding directed directs_stop alerting
directed_lem none s = ground (arith, append-nil s.alerts)
directed_lem (some d) s = ground (arith, append-nil s.alerts)

handle_error_lem :
    (v : Supervisor) (b : Text) (e : Error) (s : Supervised)
    → handle_error v b e s ≡ record {
      cancelled = s.cancelled || is_critical v b e;
      alerts = s.alerts ++ alerts_for v b e;
    }
unfolding handle_error is_critical alerts_for
handle_error_lem none b e s = ground (arith, append-nil s.alerts)
handle_error_lem (some f) b e s = elim (Bool-cases (is_non_continuable e)) [
  | inl critical ↦ rw critical (ground arith)
  | inr other ↦ rw other (directed_lem (f b e) s)
]

pub notify_cancelled :
    (v : Supervisor) (b : Text) (e : Error) (s : Supervised)
    → s.cancelled ≡ true
    → notify v b e s ≡ s
unfolding notify
notify_cancelled v b e s h = ground arith

-- The first error while the bot runs.
pub notify_running :
    (v : Supervisor) (b : Text) (e : Error) (s : Supervised)
    → s.cancelled ≡ false
    → notify v b e s
      ≡ record { cancelled = is_critical v b e; alerts = s.alerts ++ alerts_for v b e }
unfolding notify
notify_running v b e s h = ground (arith, handle_error_lem v b e s)

-- After the context is cancelled, by an error or with the runner's, further errors change nothing.
pub notify_all_cancelled :
    (v : Supervisor) (b : Text) (es : List Error) (s : Supervised)
    → s.cancelled ≡ true
    → notify_all v b es s ≡ s
unfolding notify_all
notify_all_cancelled v b [] s h = refl
notify_all_cancelled v b (e ∷ es) s h =
    ap (notify_all v b es) (notify_cancelled v b e s h) ∙ notify_all_cancelled v b es s h

-- For all errors that a running bot escalates: its context is cancelled exactly if one of them is
-- critical, and the alerters are sent what is due up to the first critical one, and nothing after it.
pub notify_all-alerts :
    (v : Supervisor) (b : Text) (es : List Error) (s : Supervised)
    → s.cancelled ≡ false
    → notify_all v b es s ≡ record {
      cancelled = any (is_critical v b) es;
      alerts = s.alerts ++ alerts_until_critical v b es;
    }
unfolding notify_all alerts_until_critical
notify_all-alerts v b [] s h = ground (arith, append-nil s.alerts)
notify_all-alerts v b (e ∷ es) s h =
    let s' : Supervised = record {
      cancelled = is_critical v b e;
      alerts = s.alerts ++ alerts_for v b e;
    } in
    ap (notify_all v b es) (notify_running v b e s h) ∙ elim (Bool-cases (is_critical v b e)) [
      | inl stops ↦ notify_all_cancelled v b es s' stops ∙ rw stops
      | inr goes_on ↦ notify_all-alerts v b es s' goes_on ∙ rw (goes_on, append_assoc)
    ]
