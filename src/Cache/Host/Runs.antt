-- ===== src/Cache/Host/Runs.antt =====
-- internal/cache/cache.go, `HostCache`: any run of its operations beside a plain map.
use ponz_proxy.Prelude.{
  ℕ, ◌≡◌, refl, sym, ap, subst, ◌∙◌, inl, inr, Bool, ◌&&◌, Option, none, some, List, [], ◌∷◌, arith,
  ltb, if◌then◌else◌, Bool-cases, Option-cases,
}
use ponz_proxy.Prelude.Text.{Text, text_eq}
use ponz_proxy.Cache.Key.{Key, key_eq, key_eq_iff, find, find-delete}
use ponz_proxy.Cache.Entry.{Entry, fresh}
use ponz_proxy.Cache.Host.{HostCache, remove, look_up, put, invalidate, new_host_cache}
use ponz_proxy.Cache.Host.Sound.{
  Sound, look_up-Sound, look_up-missing, look_up-stale, look_up-fresh,
}
use ponz_proxy.Cache.Host.Stored.{held}
use ponz_proxy.Cache.Host.Puts.{put-Stores, put-refused}
use ponz_proxy.Cache.Host.Dropped.{invalidate-held}

-- One call, or a reload that changes the budget.
pub data Call : Type 0 where
  looks_up : Key → ℕ → Call
  puts : Key → Entry → Call
  invalidates : Text → Text → Call
  sets_budget : ℕ → Call

unfoldable pub call : Call → HostCache → HostCache
call (looks_up k now) h = (look_up k now h).0
call (puts k e) h = put k e h
call (invalidates host path) h = invalidate host path h
call (sets_budget b) h = record h { budget = b }

unfoldable pub calls : List Call → HostCache → HostCache
calls [] h = h
calls (c ∷ cs) h = calls cs (call c h)

-- A map of no bounded size that never forgets, with the budget of the moment.
pub record Plain : Type 0 where
  pub limit : ℕ
  pub at : Key → Option Entry

abbrev plain_put : Key → Entry → Plain → Bool → Plain
plain_put k e m over =
    if over then m else record m { at = λ j. if key_eq j k then some e else m.at j }

abbrev plain_call : Call → Plain → Plain
plain_call (looks_up k now) m = m
plain_call (puts k e) m = plain_put k e m (ltb m.limit e.size)
plain_call (invalidates host path) m = record m {
  at = λ j. if text_eq j.host host && text_eq j.path path then none else m.at j;
}
plain_call (sets_budget b) m = record m { limit = b }

abbrev pub plain_calls : List Call → Plain → Plain
plain_calls [] m = m
plain_calls (c ∷ cs) m = plain_calls cs (plain_call c m)

-- The cache has no entry that the plain map does not have.
abbrev pub Refines : HostCache → Plain → Type 0
Refines h m =
    Sound h × (h.budget ≡ m.limit) × ((k : Key) (e : Entry) → held k h ≡ some e → m.at k ≡ some e)

-- A lookup brings nothing in.
abbrev pub Keeps : HostCache → HostCache → Type 0
Keeps h r = (r.budget ≡ h.budget) × ((j : Key) (e : Entry) → held j r ≡ some e → held j h ≡ some e)

remove-Keeps : (i : ℕ) (h : HostCache) → Keeps h (remove i h)
unfolding remove held
remove-Keeps i h =
    (refl, (λ j e there. grind (arith, find-delete j (h.payload i).0 h.items, there)))

pub look_up-Keeps : (k : Key) (now : ℕ) (h : HostCache) → Keeps h (look_up k now h).0
unfolding held
look_up-Keeps k now h = elim (Option-cases (find k h.items)) [
  | inl e ↦ subst (λ z. Keeps h z.0) (sym (look_up-missing k now h e)) (refl, (λ j d t. t))
  | inr (i, e) ↦ elim (Bool-cases (fresh now (h.payload i).1)) [
    | inl f ↦ subst (λ z. Keeps h z.0) (sym (look_up-fresh k now i h e f)) (refl, (λ j d t. t))
    | inr f ↦
        let (b, keeps) = remove-Keeps i h in
        subst (λ z. Keeps h z.0) (sym (look_up-stale k now i h e f)) (b, keeps)
  ]
]

put-Refines :
    (k : Key) (e : Entry) (h : HostCache) (m : Plain)
    → Refines h m
    → Refines (put k e h) (plain_put k e m (ltb m.limit e.size))
put-Refines k e h m (s, b, r) = elim (Bool-cases (ltb m.limit e.size)) [
  | inl over ↦
      subst (λ z. Refines z (plain_put k e m (ltb m.limit e.size)))
        (sym (put-refused k e h (ap (λ z. ltb z e.size) b ∙ over)))
        (subst (λ z. Refines h (plain_put k e m z)) (sym over) (s, b, r))
  | inr fits ↦
      let (s', _, b', there, others) = put-Stores k e h (ground (arith, fits, b)) s in
      subst (λ z. Refines (put k e h) (plain_put k e m z)) (sym fits)
        (s', b' ∙ b, (λ j d t. grind (arith, key_eq_iff j k, others j d, r j d, there, t)))
]

call-Refines :
    (c : Call) (h : HostCache) (m : Plain) → Refines h m → Refines (call c h) (plain_call c m)
unfolding call held
call-Refines (looks_up k now) h m (s, b, r) =
    let (b', keeps) = look_up-Keeps k now h in
    (look_up-Sound k now h s, b' ∙ b, (λ j e t. r j e (keeps j e t)))
call-Refines (puts k e) h m r = put-Refines k e h m r
call-Refines (invalidates host path) h m (s, b, r) =
    let (s', left, b') = invalidate-held host path h s in
    (s', b' ∙ b, (λ k e t. grind (arith, left k, r k e, t)))
call-Refines (sets_budget n) h m (s, b, r) = (s, refl, r)

-- Through any run of its operations, and of reloads that change the budget, a host's cache stays
-- sound, and an entry that it has is one that a map without a bound has as well: it was put last
-- under that key, within the budget, and no invalidation came since.
pub calls-Refines :
    (cs : List Call) (h : HostCache) (m : Plain)
    → Refines h m
    → Refines (calls cs h) (plain_calls cs m)
unfolding calls
calls-Refines [] h m r = r
calls-Refines (c ∷ cs) h m r = calls-Refines cs (call c h) (plain_call c m) (call-Refines c h m r)

pub new_host_cache-Refines :
    (budget : ℕ) → Refines (new_host_cache budget) (record { limit = budget; at = λ k. none })
unfolding new_host_cache held find
new_host_cache-Refines budget = (
  (
    [],
    ((tt, refl, refl, tt), refl, ((λ k i e. ground (arith, e)), (λ i e. ground (arith, e)), tt)),
    omega arith,
  ),
  refl,
  (λ k e t. ground (arith, t)),
)
