-- ===== src/Scheduler/SlotCron.antt =====
-- A cron with the documented behaviour: a list of slots, where a removed entry leaves its slot empty.
use go_sarah.Shared.{
  ℕ, zero, suc, ◌≡◌, refl, ◌∙◌, Option, none, some, List, [], ◌∷◌, ◌++◌, arith, if◌then◌else◌, ◌==◌,
  nat_eq, length, get_elem?, set, Text, codes, text_eq, Result, ok, err,
}
use go_sarah.Errors.{Error, plain}
use go_sarah.Scheduler.CronLibrary.{Cron, CronLaws, AddFunc, refused, accepted}

-- A schedule starts with an at sign, as in `@daily`.
abbrev parse : Text → Option Error
parse [] = some (plain (codes "empty spec string"))
parse (c ∷ s) = if c == 64 then none else some (plain (codes "unrecognized descriptor"))

module _ {F : Type 0} where
  abbrev slot : Option (Option F) → Option F
  slot none = none
  slot (some o) = o

  abbrev add : Option Error → F → List (Option F) → List (Option F) × Result Error ℕ
  add none f c = (c ++ some f ∷ [], ok (length c))
  add (some e) f c = (c, err e)

  abbrev pub slot_cron : Cron (List (Option F)) F
  slot_cron = record {
    new = [];
    add_func = λ spec f c. add (parse spec) f c;
    remove = λ id c. set c id none;
    entry = λ c id. slot (get_elem? c id);
    parse = parse;
  }

  slot_fresh : (c : List (Option F)) → slot (get_elem? c (length c)) ≡ none
  slot_fresh [] = refl
  slot_fresh (o ∷ c) = slot_fresh c

  slot-append :
      (c : List (Option F)) (f : F) (j : ℕ)
      → slot (get_elem? (c ++ some f ∷ []) j)
        ≡ (if length c == j then some f else slot (get_elem? c j))
  slot-append [] f zero = refl
  slot-append [] f (suc j) = ground arith
  slot-append (o ∷ c) f zero = ground arith
  slot-append (o ∷ c) f (suc j) = slot-append c f j ∙ ground arith

  slot-set :
      (c : List (Option F)) (id j : ℕ)
      → slot (get_elem? (set c id none) j) ≡ (if id == j then none else slot (get_elem? c j))
  slot-set [] id j = ground arith
  slot-set (o ∷ c) zero zero = refl
  slot-set (o ∷ c) zero (suc j) = ground arith
  slot-set (o ∷ c) (suc id) zero = ground arith
  slot-set (o ∷ c) (suc id) (suc j) = slot-set c id j ∙ ground arith

  add-AddFunc :
      (o : Option Error) (f : F) (c : List (Option F)) → AddFunc slot_cron f c o (add o f c)
  add-AddFunc none f c = accepted (slot_fresh c) (slot-append c f)
  add-AddFunc (some e) f c = refused

  pub slot_cron-CronLaws : CronLaws slot_cron
  slot_cron-CronLaws = record {
    entry-new = λ j. refl;
    entry-add_func = λ spec f c. add-AddFunc (parse spec) f c;
    entry-remove = λ id j c. slot-set c id j;
  }
