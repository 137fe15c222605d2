-- ===== src/Scheduler/CronLibrary.antt =====
-- The interface of `cron.Cron` of robfig/cron, as far as scheduler.go uses it, and its documented
-- behaviour.
use go_sarah.Shared.{
  ℕ, ◌≡◌, Option, none, some, if◌then◌else◌, ◌==◌, nat_eq, Text, text_eq, Result, ok, err,
}
use go_sarah.Errors.{Error}

-- A cron `C` runs functions `F`. `parse` is the error of a schedule that the parser refuses.
pub record Cron (C F : Type 0) : Type 0 where
  pub new : C
  pub add_func : Text → F → C → C × Result Error ℕ
  pub remove : ℕ → C → C
  pub entry : C → ℕ → Option F
  pub parse : Text → Option Error

-- What `AddFunc` does: it refuses a schedule that does not parse and changes nothing, or it adds the
-- function under an identifier that no entry has.
pub data AddFunc {C F : Type 0} (cron : Cron C F) (f : F) (c : C)
    : Option Error → C × Result Error ℕ → Type 0 where
  refused : {e : Error} → AddFunc cron f c (some e) (c, err e)
  accepted :
      {c' : C} {id : ℕ}
      → cron.entry c id ≡ none
      → ((j : ℕ) → cron.entry c' j ≡ (if id == j then some f else cron.entry c j))
      → AddFunc cron f c none (c', ok id)

pub record CronLaws {C F : Type 0} (cron : Cron C F) : Type 0 where
  pub entry-new : (j : ℕ) → cron.entry cron.new j ≡ none
  pub entry-add_func :
      (spec : Text) (f : F) (c : C) → AddFunc cron f c (cron.parse spec) (cron.add_func spec f c)
  pub entry-remove :
      (id j : ℕ) (c : C)
      → cron.entry (cron.remove id c) j ≡ (if id == j then none else cron.entry c j)
