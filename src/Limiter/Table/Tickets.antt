-- ===== src/Limiter/Table/Tickets.antt =====
-- internal/limiter/limiter.go: a shard while requests come and go. The state is the shard and the
-- `Release` functions handed out, in the order in which they were.
use ponz_proxy.Prelude.{
  ℕ, zero, suc, ◌+◌, ◌-◌, ◌≡◌, ◌≤◌, ◌<◌, refl, sym, ap, ◌∙◌, ◌⊎◌, inl, inr, Option, none, some,
  List, [], ◌∷◌, ◌++◌, arith, set, get_elem?, Option-cases,
}
use ponz_proxy.Prelude.Text.{Text}
use ponz_proxy.Prelude.Maps.{lookup, Distinct}
use ponz_proxy.Limiter.Bucket.{Rules, judge, spend}
use ponz_proxy.Limiter.Table.{Shard, Ticket, key_of, acquire, release, sweep_once}
use ponz_proxy.Limiter.Table.Counts.{
  active_of, holds, acquire-active, find-active, acquire-Distinct, give_back-active,
  give_back-Distinct, sweep_once-active, sweep_once-Distinct,
}

pub data Event : Type 0 where
  arrive : ℕ → Option (List ℕ) → Rules → ℕ → Event
  finish : ℕ → Event
  sweep : ℕ → Event

abbrev pub State : Type 0
State = Shard × List Ticket

-- `finish i` calls the `Release` that was handed out `i`-th, perhaps not for the first time.
unfoldable pub step : Event → State → State
step (Event.arrive host_id ip rules now) (s, tickets) =
    let r = acquire host_id ip rules now s in (r.0, tickets ++ (r.2 ∷ []))
step (Event.finish i) (s, tickets) = elim (get_elem? tickets i) [
  | none ↦ (s, tickets)
  | some t ↦ let r = release t s in (r.0, set tickets i r.1)
]
step (Event.sweep now) (s, tickets) = (sweep_once now s, tickets)

unfoldable pub run : List Event → State → State
run [] st = st
run (e ∷ es) st = run es (step e st)

-- The slots of a key that are held and not given back.
abbrev pub outstanding : Text → List Ticket → ℕ
outstanding j [] = 0
outstanding j (t ∷ ts) = holds j t + outstanding j ts

abbrev Counted : State → Type 0
Counted st = Distinct st.0 × ((j : Text) → active_of j st.0 ≡ outstanding j st.1)

outstanding-append :
    (j : Text) (ts : List Ticket) (t : Ticket)
    → outstanding j (ts ++ (t ∷ [])) ≡ outstanding j ts + holds j t
outstanding-append j [] t = omega arith
outstanding-append j (u ∷ ts) t = omega (arith, outstanding-append j ts t)

outstanding-set :
    (j : Text) (ts : List Ticket) (i : ℕ) (t u : Ticket)
    → get_elem? ts i ≡ some t
    → outstanding j (set ts i u) + holds j t ≡ outstanding j ts + holds j u
outstanding-set j [] i t u e = ground (arith, e)
outstanding-set j (v ∷ ts) zero t u e = omega (arith, ap (held j) e)
  where
    held : Text → Option Ticket → ℕ
    held j none = 0
    held j (some w) = holds j w
outstanding-set j (v ∷ ts) (suc i) t u e = omega (arith, outstanding-set j ts i t u e)

release-active :
    (t : Ticket) (s : Shard) (j : Text)
    → let r = release t s in (active_of j r.0 ≡ active_of j s - holds j t) × (holds j r.1 ≡ 0)
unfolding release
release-active t s j = elim (Option-cases t.slot) [
  | inl e ↦ ground (arith, e)
  | inr (k, e) ↦ ground (arith, e, give_back-active k j s)
]

release-Distinct : (t : Ticket) (s : Shard) → Distinct s → Distinct (release t s).0
unfolding release
release-Distinct t s d = elim (Option-cases t.slot) [
  | inl e ↦ ground (arith, e, d)
  | inr (k, e) ↦ ground (arith, e, d, give_back-Distinct k s d)
]

step-Counted : (e : Event) (st : State) → Counted st → Counted (step e st)
unfolding step
step-Counted (Event.arrive host_id ip rules now) (s, tickets) (d, h) = (
  acquire-Distinct host_id ip rules now s d,
  λ j.
      acquire-active host_id ip rules now s j d
      ∙ ap (λ n. n + holds j (acquire host_id ip rules now s).2) (h j)
      ∙ sym (outstanding-append j tickets (acquire host_id ip rules now s).2),
)
step-Counted (Event.finish i) (s, tickets) (d, h) = elim (Option-cases (get_elem? tickets i)) [
  | inl e ↦ rw (e, step) (d, h)
  | inr (t, e) ↦
      rw (e, step)
        (
          release-Distinct t s d,
          λ j.
              omega
                (arith, release-active t s j, h j, outstanding-set j tickets i t (release t s).1 e),
        )
]
step-Counted (Event.sweep now) (s, tickets) (d, h) =
    (sweep_once-Distinct now s d, λ j. sweep_once-active now j s d ∙ h j)

run-Counted : (es : List Event) (st : State) → Counted st → Counted (run es st)
unfolding run
run-Counted [] st h = h
run-Counted (e ∷ es) st h = run-Counted es (step e st) (step-Counted e st h)

start : Counted ([], [])
unfolding lookup
start = (tt, λ j. refl)

-- Whatever requests came and went, whichever records were evicted and swept, a client's count of
-- requests in flight is the number of its `Release` functions not called yet; so no count drifts.
pub run-active :
    (es : List Event) (j : Text)
    → active_of j (run es ([], [])).0 ≡ outstanding j (run es ([], [])).1
run-active es j = (run-Counted es ([], []) start).1 j

acquire-most :
    (host_id : ℕ) (ip : List ℕ) (rules : Rules) (now : ℕ) (s : Shard)
    → 0 < rules.max_concurrent
    → let r = acquire host_id (some ip) rules now s in
      (r.2.slot ≡ none) ⊎ (active_of (key_of host_id ip) s + 1 ≤ rules.max_concurrent)
unfolding acquire judge spend
acquire-most host_id ip rules now s p = ground (arith, find-active (key_of host_id ip) rules now s)

-- After a request arrives, either nothing more is in flight for its client than before, or it was
-- let through and no more than `MaxConcurrent` are in flight.
pub step-outstanding :
    (es : List Event) (host_id : ℕ) (ip : List ℕ) (rules : Rules) (now : ℕ)
    → 0 < rules.max_concurrent
    → let st = run es ([], []) in
      let st' = step (Event.arrive host_id (some ip) rules now) st in
      let k = key_of host_id ip in
      (outstanding k st'.1 ≡ outstanding k st.1) ⊎ (outstanding k st'.1 ≤ rules.max_concurrent)
unfolding step
step-outstanding es host_id ip rules now p =
    let st = run es ([], []) in
    let k = key_of host_id ip in
    let t = (acquire host_id (some ip) rules now st.0).2 in
    ground (
      arith,
      acquire-most host_id ip rules now st.0 p,
      run-active es k,
      outstanding-append k st.1 t,
    )
