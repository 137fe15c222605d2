-- ===== src/Scheduler/Entries.antt =====
-- The identifiers that the nested map holds and the entries of cron, each as a function.
use go_sarah.Shared.{
  ℕ, ◌≡◌, sym, ap, ◌∙◌, ◌≢◌, ◌⊎◌, inl, inr, false, ◌&&◌, Option, none, some, arith, if◌then◌else◌,
  Bool-cases, Option-cases, is_nil, ◌==◌, nat_eq, ==_iff, ==_self, Text, text_eq,
}
use go_sarah.Scheduler.{job_at}

abbrev pub Jobs : Type 0 → Type 0
Jobs F = Text → Text → Option F

abbrev pub assign : {F : Type 0} → Text → Text → Option F → Jobs F → Jobs F
assign b t o v b' t' = if (b == b') && (t == t') then o else v b' t'

-- The entries of cron are exactly those of the schedule, one for each task.
pub record Inv {F : Type 0} (g : Text → Text → Option ℕ) (e : ℕ → Option F) : Type 0 where
  pub apart : (b t b' t' : Text) (i : ℕ) → g b t ≡ some i → g b' t' ≡ some i → (b ≡ b') × (t ≡ t')
  pub live : (b t : Text) (i : ℕ) → g b t ≡ some i → is_nil (e i) ≡ false
  pub known : (i : ℕ) → is_nil (e i) ≡ false → (b : Text) × (t : Text) × (g b t ≡ some i)

module _ {F : Type 0} (g g' : Text → Text → Option ℕ) (e e' : ℕ → Option F) (b t : Text)
    (i : ℕ) where
  pub Inv-drop :
      Inv g e
      → g b t ≡ some i
      → ((b' t' : Text) → g' b' t' ≡ (if (b == b') && (t == t') then none else g b' t'))
      → ((j : ℕ) → e' j ≡ (if i == j then none else e j))
      → Inv g' e'
  Inv-drop inv at hg he = record {
    apart = λ c u c' u' j h h'. inv.apart c u c' u' j (kept c u j h).0 (kept c' u' j h').0;
    live = λ c u j h. live' c u j h;
    known = λ j h. known' j h;
  }
    where
      kept :
          (c u : Text) (j : ℕ)
          → g' c u ≡ some j
          → (g c u ≡ some j) × (((b == c) && (t == u)) ≡ false)
      kept c u j h = ground (arith, hg c u)

      other : (c u : Text) → ((b == c) && (t == u)) ≡ false → ¬ ((b ≡ c) × (t ≡ u))
      other c u = ground (arith, ==_iff b c, ==_iff t u)

      apart' : (c u : Text) (j : ℕ) → g' c u ≡ some j → i ≢ j
      apart' c u j h = λ same.
          other c u (kept c u j h).1 (inv.apart b t c u j (at ∙ ap some same) (kept c u j h).0)

      live' : (c u : Text) (j : ℕ) → g' c u ≡ some j → is_nil (e' j) ≡ false
      live' c u j h = ground (arith, he j, apart' c u j h, inv.live c u j (kept c u j h).0)

      gone : (j : ℕ) → is_nil (e' j) ≡ false → (i ≢ j) × (is_nil (e j) ≡ false)
      gone j h = ground (arith, he j)

      known' : (j : ℕ) → is_nil (e' j) ≡ false → (c : Text) × (u : Text) × (g' c u ≡ some j)
      known' j h =
          let (c, u, p) = inv.known j (gone j h).1 in
          (c, u, ground (arith, hg c u, ==_iff b c, ==_iff t u, (gone j h).0))

  pub Inv-put :
      Inv g e
      → g b t ≡ none
      → e i ≡ none
      → (f : F) → ((b' t' : Text) → g' b' t' ≡ (if (b == b') && (t == t') then some i else g b' t'))
      → ((j : ℕ) → e' j ≡ (if i == j then some f else e j))
      → Inv g' e'
  Inv-put inv absent fresh f hg he = record {
    apart = λ c u c' u' j h h'. apart' c u c' u' j (either c u j h) (either c' u' j h');
    live = λ c u j h. live' c u j (either c u j h);
    known = λ j h. known' j h;
  }
    where
      either :
          (c u : Text) (j : ℕ) → g' c u ≡ some j → ((b ≡ c) × (t ≡ u) × (i ≡ j)) ⊎ (g c u ≡ some j)
      either c u j h = ground (arith, hg c u, ==_iff b c, ==_iff t u)

      not_fresh : (c u : Text) (j : ℕ) → i ≡ j → ¬ (g c u ≡ some j)
      not_fresh c u j same old = ground (arith, inv.live c u j old)

      apart' :
          (c u c' u' : Text) (j : ℕ)
          → ((b ≡ c) × (t ≡ u) × (i ≡ j)) ⊎ (g c u ≡ some j)
          → ((b ≡ c') × (t ≡ u') × (i ≡ j)) ⊎ (g c' u' ≡ some j)
          → (c ≡ c') × (u ≡ u')
      apart' c u c' u' j (inl (p, q, r)) (inl (p', q', r')) = (sym p ∙ p', sym q ∙ q')
      apart' c u c' u' j (inl (p, q, r)) (inr old) = absurd (not_fresh c' u' j r old)
      apart' c u c' u' j (inr old) (inl (p, q, r)) = absurd (not_fresh c u j r old)
      apart' c u c' u' j (inr old) (inr old') = inv.apart c u c' u' j old old'

      live' :
          (c u : Text) (j : ℕ)
          → ((b ≡ c) × (t ≡ u) × (i ≡ j)) ⊎ (g c u ≡ some j)
          → is_nil (e' j) ≡ false
      live' c u j (inl at) = ground (arith, he j)
      live' c u j (inr old) = ground (arith, he j, inv.live c u j old)

      known' : (j : ℕ) → is_nil (e' j) ≡ false → (c : Text) × (u : Text) × (g' c u ≡ some j)
      known' j h = elim (Bool-cases (i == j)) [
        | inl new ↦ (b, t, ground (arith, hg b t, ==_self b, ==_self t))
        | inr old ↦
            let (c, u, p) = inv.known j (ground (arith, he j)) in
            (c, u, ground (arith, hg c u, ==_iff b c, ==_iff t u))
      ]

  pub job_at-drop :
      Inv g e
      → g b t ≡ some i
      → ((b' t' : Text) → g' b' t' ≡ (if (b == b') && (t == t') then none else g b' t'))
      → ((j : ℕ) → e' j ≡ (if i == j then none else e j))
      → (b' t' : Text) → job_at (g' b' t') e' ≡ assign b t none (λ c u. job_at (g c u) e) b' t'
  job_at-drop inv at hg he c u = elim (Option-cases (g c u)) [
    | inl absent ↦ ground (arith, hg c u)
    | inr (j, present) ↦ ground (arith, hg c u, he j, ==_iff b c, ==_iff t u, inv.apart b t c u j)
  ]

  pub job_at-put :
      Inv g e
      → e i ≡ none
      → (f : F) → ((b' t' : Text) → g' b' t' ≡ (if (b == b') && (t == t') then some i else g b' t'))
      → ((j : ℕ) → e' j ≡ (if i == j then some f else e j))
      → (b' t' : Text) → job_at (g' b' t') e' ≡ assign b t (some f) (λ c u. job_at (g c u) e) b' t'
  job_at-put inv fresh f hg he c u = elim (Option-cases (g c u)) [
    | inl absent ↦ ground (arith, hg c u, he i)
    | inr (j, present) ↦ ground (arith, hg c u, he i, he j, inv.live c u j present)
  ]
