-- ===== src/Alerts/Usage/Repeats.antt =====
-- internal/alerts/usage.go: how often a host is reported over its budget.
use ponz_proxy.Prelude.{
  ℕ, ◌-◌, ◌≡◌, refl, sym, ap, inl, inr, Bool, false, not, ◌||◌, Option, none, some, List, [], ◌∷◌,
  arith, ltb, ◌==◌, if◌then◌else◌, Option-cases, Bool-cases,
}
use ponz_proxy.Prelude.Text.{text_eq, text_eq_iff}
use ponz_proxy.Prelude.Maps.{
  lookup, insert, Distinct, lookup-insert, lookup-keep, insert-Distinct, keep-Distinct,
}
use ponz_proxy.Alerts.Usage.{
  usage_repeat, Budget, LastAlert, host_key, should_alert, forget, Usage, check_host,
}

-- A check of one host: the time, and what was found.
pub data Finding : Type 0 where
  over : ℕ → Finding
  under : ℕ → Finding
  skipped : ℕ → Finding

-- What a check finds, by an account that does not look at what was reported before.
abbrev pub found : Usage → ℕ → Budget → Finding
found usage now h =
    if not h.enabled || (h.bytes == 0) then Finding.skipped now else elim (usage h.period_days) [
      | none ↦ Finding.skipped now
      | some used ↦ if ltb (used h.host_id) h.bytes then Finding.under now else Finding.over now
    ]

-- The reports that the findings call for: the first time over the budget, then once a day, and
-- anew after a time under it.
unfoldable pub reports : Option ℕ → List Finding → List ℕ
reports last [] = []
reports last (Finding.skipped now ∷ fs) = reports last fs
reports last (Finding.under now ∷ fs) = reports none fs
reports none (Finding.over now ∷ fs) = now ∷ reports (some now) fs
reports (some last) (Finding.over now ∷ fs) =
    let again = now ∷ reports (some now) fs in
    let silent = reports (some last) fs in if ltb (now - last) usage_repeat then silent else again

-- Checks of one host, each with its own usage, time and budget: when it is reported.
unfoldable pub check_all : ℕ → List (Usage × ℕ × Budget) → LastAlert → List ℕ
check_all host_id [] m = []
check_all host_id ((usage, now, h) ∷ cs) m =
    let (m', alert) = check_host usage now (record h { host_id = host_id }) m in
    let rest = check_all host_id cs m' in if alert then now ∷ rest else rest

abbrev pub findings : ℕ → List (Usage × ℕ × Budget) → List Finding
findings host_id [] = []
findings host_id ((usage, now, h) ∷ cs) =
    found usage now (record h { host_id = host_id }) ∷ findings host_id cs

check_host-Distinct :
    (usage : Usage) (now : ℕ) (h : Budget) (m : LastAlert)
    → Distinct m
    → Distinct (check_host usage now h m).0
unfolding check_host should_alert forget
check_host-Distinct usage now h m d = ground (
  arith,
  d,
  insert-Distinct (host_key h.host_id) now m d,
  keep-Distinct (λ j v. not (text_eq (host_key h.host_id) j)) m d,
)

abbrev Right : ℕ → ℕ → LastAlert → Finding → List Finding → LastAlert × Bool → Type 0
Right host_id now m f fs r = reports (lookup (host_key host_id) m) (f ∷ fs) ≡ (
    if r.1
    then now ∷ reports (lookup (host_key host_id) r.0) fs
    else reports (lookup (host_key host_id) r.0) fs)

lookup-forget_self :
    (host_id : ℕ) (m : LastAlert) → Distinct m → lookup (host_key host_id) (forget host_id m) ≡ none
unfolding forget
lookup-forget_self host_id m d = grind (
  arith,
  text_eq_iff (host_key host_id) (host_key host_id),
  lookup-keep (λ j v. not (text_eq (host_key host_id) j)) (host_key host_id) m d,
)

forget-Right :
    (host_id now : ℕ) (m : LastAlert) (fs : List Finding)
    → Distinct m
    → Right host_id now m (Finding.under now) fs (forget host_id m, false)
unfolding reports
forget-Right host_id now m fs d = ap (λ o. reports o fs) (sym (lookup-forget_self host_id m d))

lookup-told :
    (host_id now : ℕ) (m : LastAlert)
    → lookup (host_key host_id) (insert (host_key host_id) now m) ≡ some now
lookup-told host_id now m = ground (
  arith,
  text_eq_iff (host_key host_id) (host_key host_id),
  lookup-insert (host_key host_id) (host_key host_id) now m,
)

should_alert-Right :
    (host_id now : ℕ) (m : LastAlert) (fs : List Finding)
    → Right host_id now m (Finding.over now) fs (should_alert host_id now m)
unfolding reports should_alert
should_alert-Right host_id now m fs = elim (Option-cases (lookup (host_key host_id) m)) [
  | inl e ↦ ground (arith, e, lookup-told host_id now m)
  | inr (last, e) ↦ ground (arith, e, lookup-told host_id now m)
]

check_host-Right :
    (usage : Usage) (now : ℕ) (h : Budget) (m : LastAlert) (fs : List Finding)
    → Distinct m
    → Right h.host_id now m (found usage now h) fs (check_host usage now h m)
unfolding check_host reports
check_host-Right usage now h m fs d = elim (Bool-cases (not h.enabled || (h.bytes == 0))) [
  | inl e ↦ rw (e, check_host) refl
  | inr e ↦ elim (Option-cases (usage h.period_days)) [
    | inl g ↦ rw (e, g, check_host) refl
    | inr (used, g) ↦ elim (Bool-cases (ltb (used h.host_id) h.bytes)) [
      | inl q ↦ rw (e, g, q, check_host) (forget-Right h.host_id now m fs d)
      | inr q ↦ rw (e, g, q, check_host) (should_alert-Right h.host_id now m fs)
    ]
  ]
]

-- A host is reported at exactly the times that its checks call for: when it goes over its budget, and
-- again once a day while it stays over; a check under the budget makes the next one over it news. A
-- check that finds the budget switched off, or no figures, reports nothing and changes nothing that
-- is remembered, so that a host over its budget, switched off and on again within the day, is not
-- reported anew, although the comment on `shouldAlert` says that switching off forgets it.
pub check_all-reports :
    (host_id : ℕ) (cs : List (Usage × ℕ × Budget)) (m : LastAlert)
    → Distinct m
    → check_all host_id cs m ≡ reports (lookup (host_key host_id) m) (findings host_id cs)
unfolding check_all reports
check_all-reports host_id [] m d = refl
check_all-reports host_id ((usage, now, h) ∷ cs) m d =
    let h' = record h { host_id = host_id } in
    let d' = check_host-Distinct usage now h' m d in
    let e = check_host-Right usage now h' m (findings host_id cs) d in
    let m' = (check_host usage now h' m).0 in ground (arith, e, check_all-reports host_id cs m' d')
