-- ===== src/Samples/Statistics.antt =====
-- _examples/status/worker.go: the last statistics of the workers. A report is its time and the size of the
-- queue.
use go_sarah.Shared.{
  ℕ, zero, suc, ◌-◌, ◌≤◌, ◌<◌, ◌≡◌, refl, sym, ap, ◌∙◌, inl, inr, true, List, [], ◌∷◌, ◌++◌,
  append-nil, append_assoc, arith, leb, if◌then◌else◌, Bool-cases, nat_eq, length, length-append,
  text_eq,
}

pub record WorkerStatsElem : Type 0 where
  pub report_time : ℕ
  pub queue_size : ℕ

-- The slice without its first element.
behind_first : List WorkerStatsElem → List WorkerStatsElem
behind_first [] = []
behind_first (e ∷ es) = es

-- `Report`.
unfoldable pub report : WorkerStatsElem → List WorkerStatsElem → List WorkerStatsElem
unfolding behind_first
report e ws = (if leb 50 (length ws) then behind_first ws else ws) ++ e ∷ []

-- The reports in their order.
unfoldable pub report_all : List WorkerStatsElem → List WorkerStatsElem → List WorkerStatsElem
report_all [] ws = ws
report_all (e ∷ es) ws = report_all es (report e ws)

-- The list without its first elements.
unfoldable pub drop : ℕ → List WorkerStatsElem → List WorkerStatsElem
drop zero ws = ws
drop (suc n) [] = []
drop (suc n) (w ∷ ws) = drop n ws

-- The last fifty.
abbrev pub last_fifty : List WorkerStatsElem → List WorkerStatsElem
last_fifty ws = drop (length ws - 50) ws

drop-length :
    (n : ℕ) (ws : List WorkerStatsElem) → n ≤ length ws → length (drop n ws) ≡ length ws - n
unfolding drop
drop-length zero ws h = omega arith
drop-length (suc n) [] h = absurd (omega (arith, h))
drop-length (suc n) (w ∷ ws) h = drop-length n ws (omega (arith, h)) ∙ omega (arith, h)

drop-append :
    (n : ℕ) (ws es : List WorkerStatsElem) → n ≤ length ws → drop n (ws ++ es) ≡ drop n ws ++ es
unfolding drop
drop-append zero ws es h = refl
drop-append (suc n) [] es h = absurd (omega (arith, h))
drop-append (suc n) (w ∷ ws) es h = drop-append n ws es (omega (arith, h))

behind_first-drop :
    (n : ℕ) (ws : List WorkerStatsElem) → n < length ws → behind_first (drop n ws) ≡ drop (suc n) ws
unfolding drop behind_first
behind_first-drop n [] h = absurd (omega (arith, h))
behind_first-drop zero (w ∷ ws) h = refl
behind_first-drop (suc n) (w ∷ ws) h = behind_first-drop n ws (omega (arith, h))

report-last_fifty :
    (e : WorkerStatsElem) (ws : List WorkerStatsElem)
    → report e (last_fifty ws) ≡ last_fifty (ws ++ e ∷ [])
unfolding report drop
report-last_fifty e ws = elim (Bool-cases (leb 50 (length ws))) [
  | inl full ↦
      let k : 50 ≤ length ws = ground (arith, full) in
      let n : ℕ = length ws - 50 in
      let kept : length (drop n ws) ≡ 50 = drop-length n ws (omega arith) ∙ omega (arith, k) in
      let long : leb 50 (length (drop n ws)) ≡ true = ap (leb 50) kept in
      let next : suc n ≡ length (ws ++ e ∷ []) - 50 = omega (arith, k, length-append ws (e ∷ [])) in
      rw long (
        ap (λ t. t ++ e ∷ []) (behind_first-drop n ws (omega (arith, k)))
        ∙ sym (drop-append (suc n) ws (e ∷ []) (omega (arith, k)))
        ∙ ap (λ m. drop m (ws ++ e ∷ [])) next)
  | inr short ↦
      let k : length ws < 50 = ground (arith, short) in
      let whole : length ws - 50 ≡ 0 = omega (arith, k) in
      let added : length (ws ++ e ∷ []) - 50 ≡ 0 = omega (arith, k, length-append ws (e ∷ [])) in
      rw (whole, added, short) refl
]

report_all-last :
    (es ws : List WorkerStatsElem) → report_all es (last_fifty ws) ≡ last_fifty (ws ++ es)
unfolding report_all
report_all-last [] ws = ap last_fifty (sym (append-nil ws))
report_all-last (e ∷ es) ws =
    ap (report_all es) (report-last_fifty e ws)
    ∙ report_all-last es (ws ++ e ∷ [])
    ∙ ap last_fifty (append_assoc ws (e ∷ []) es)

-- After any reports the statistics are the last fifty of them, in their order, or all if there are no more than fifty; there are never more.
pub report_all-last_fifty :
    (es : List WorkerStatsElem)
    → (report_all es [] ≡ last_fifty es) × (length (report_all es []) ≤ 50)
unfolding drop
report_all-last_fifty es =
    let same : report_all es [] ≡ last_fifty es = report_all-last es [] in
    (same, omega (arith, ap length same, drop-length (length es - 50) es (omega arith)))
