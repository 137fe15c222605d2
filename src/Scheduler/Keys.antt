-- ===== src/Scheduler/Keys.antt =====
-- The nested map of scheduler.go, by pairs of a bot type and a task's identifier.
use go_sarah.Shared.{
  ℕ, ◌≡◌, refl, ap, ◌∙◌, Bool, true, false, ◌&&◌, Option, none, some, arith, if◌then◌else◌, ◌==◌,
  nat_eq, ==_iff, Text, text_eq, Map, lookup, insert, delete, lookup-insert, lookup-delete,
}
use go_sarah.Scheduler.{entries_in, task_entries, stored_id}

entries_in-if :
    (c : Bool) (t : Text) (entries : Map Text ℕ) (o : Option (Map Text ℕ))
    → lookup t (entries_in (if c then some entries else o))
      ≡ (if c then lookup t entries else lookup t (entries_in o))
entries_in-if true t entries o = refl
entries_in-if false t entries o = refl

stored_id-insert :
    (b b' t' : Text) (entries : Map Text ℕ) (m : Map Text (Map Text ℕ))
    → stored_id b' t' (insert b entries m)
      ≡ (if b == b' then lookup t' entries else stored_id b' t' m)
unfolding stored_id task_entries
stored_id-insert b b' t' entries m =
    ap (λ o. lookup t' (entries_in o)) (lookup-insert b b' entries m)
    ∙ entries_in-if (b == b') t' entries (lookup b' m)

pub stored_id-put :
    (b t b' t' : Text) (id : ℕ) (m : Map Text (Map Text ℕ))
    → stored_id b' t' (insert b (insert t id (task_entries b m)) m)
      ≡ (if (b == b') && (t == t') then some id else stored_id b' t' m)
unfolding stored_id
stored_id-put b t b' t' id m = ground (
  arith,
  stored_id-insert b b' t' (insert t id (task_entries b m)) m,
  lookup-insert t t' id (task_entries b m),
  ==_iff b b',
  ==_iff t t',
)

pub stored_id-drop :
    (b t b' t' : Text) (m : Map Text (Map Text ℕ))
    → stored_id b' t' (insert b (delete t (task_entries b m)) m)
      ≡ (if (b == b') && (t == t') then none else stored_id b' t' m)
unfolding stored_id
stored_id-drop b t b' t' m = ground (
  arith,
  stored_id-insert b b' t' (delete t (task_entries b m)) m,
  lookup-delete t t' (task_entries b m),
  ==_iff b b',
  ==_iff t t',
)
