-- ===== src/Proxy/Caching/Served.antt =====
-- internal/proxy/cache.go: what is served was earned, in any order of the steps.
use ponz_proxy.Prelude.{
  ℕ, zero, suc, ◌+◌, ◌≡◌, refl, sym, ap, subst, ◌∙◌, ◌⊎◌, inl, inr, Bool, true, false, not, ◌||◌,
  ◌&&◌, Option, none, some, List, [], ◌∷◌, ◌++◌, arith, ltb, ◌==◌, if◌then◌else◌, length, take,
  get_elem?, set, Bool-cases, Option-cases,
}
use ponz_proxy.Prelude.Text.{Text, codes}
use ponz_proxy.Prelude.Maps.{insert}
use ponz_proxy.Cache.Directives.{Header}
use ponz_proxy.Cache.Policy.{Storability, storable}
use ponz_proxy.Cache.Key.{Key, key_eq, key_eq_iff}
use ponz_proxy.Cache.Entry.{Entry, new_entry}
use ponz_proxy.Cache.Host.{HostCache, put}
use ponz_proxy.Cache.Host.Sound.{Sound}
use ponz_proxy.Cache.Host.Stored.{held}
use ponz_proxy.Cache.Host.Puts.{put-Stores, put-refused}
use ponz_proxy.Proxy.Caching.{Writer, cache_key, commit, started, write_header, write_body}
use ponz_proxy.Proxy.Caching.Earned.{Traffic, Earned}

pub get_elem?-set {ℓ} :
    {A : Type ℓ} (xs : List A) (i j : ℕ) (v w : A)
    → get_elem? (set xs i v) j ≡ some w
    → (w ≡ v) ⊎ (get_elem? xs j ≡ some w)
get_elem?-set [] i j v w e = inr e
get_elem?-set (x ∷ xs) zero zero v w e = inl (ground (arith, e))
get_elem?-set (x ∷ xs) zero (suc j) v w e = inr e
get_elem?-set (x ∷ xs) (suc i) zero v w e = inr e
get_elem?-set (x ∷ xs) (suc i) (suc j) v w e = get_elem?-set xs i j v w e

pub get_elem?-snoc {ℓ} :
    {A : Type ℓ} (xs : List A) (j : ℕ) (v w : A)
    → get_elem? (xs ++ v ∷ []) j ≡ some w
    → (w ≡ v) ⊎ (get_elem? xs j ≡ some w)
get_elem?-snoc [] zero v w e = inl (ground (arith, e))
get_elem?-snoc [] (suc j) v w e = ground (arith, e)
get_elem?-snoc (x ∷ xs) zero v w e = inr e
get_elem?-snoc (x ∷ xs) (suc j) v w e = get_elem?-snoc xs j v w e

abbrev missed : Header → Header
missed h = insert (codes "X-Cache") (codes "MISS" ∷ []) h

module _ (is_zero : Text → Bool) (parse_time : Text → Option ℕ) where
  abbrev pub AllEarned : HostCache → Type 0
  AllEarned hc =
      Sound hc × ((k : Key) (e : Entry) → held k hc ≡ some e → Earned is_zero parse_time k e)

  abbrev Begun : Writer → Type 0
  Begun c =
      (h : Header) × (now : ℕ) × (storable parse_time c.cfg c.request c.status h now ≡ some c.terms)
      × (c.response_header ≡ missed h)

  abbrev pub Honest : Writer → Type 0
  Honest c = (c.key ≡ cache_key is_zero c.request) × (c.capturing ≡ true → Begun c)

  abbrev pub Invariant : Traffic → Type 0
  Invariant t =
      AllEarned t.cache × ((i : ℕ) (c : Writer) → get_elem? t.writers i ≡ some c → Honest c)

  put-AllEarned :
      (k : Key) (e : Entry) (hc : HostCache)
      → Earned is_zero parse_time k e
      → AllEarned hc
      → AllEarned (put k e hc)
  put-AllEarned k e hc new (s, all) = elim (Bool-cases (ltb hc.budget e.size)) [
    | inl over ↦ subst AllEarned (sym (put-refused k e hc over)) (s, all)
    | inr fits ↦
        let (s', _, _, there, others) = put-Stores k e hc (ground (arith, fits)) s in
        (
          s',
          (λ j d t. elim (Bool-cases (key_eq j k)) [
            | inl same ↦
                let j_is_k : j ≡ k = ground (arith, key_eq_iff j k, same) in
                subst (λ z. Earned is_zero parse_time z d) (sym j_is_k)
                  (subst (Earned is_zero parse_time k)
                    (ground (arith, there, sym (ap (λ z. held z (put k e hc)) j_is_k) ∙ t)) new)
            | inr other ↦ all j d (others j d (λ e. ground (arith, key_eq_iff j k, e, other)) t)
          ]),
        )
  ]

  commit_lem :
      (now : ℕ) (c : Writer) (hc : HostCache)
      → c.key ≡ cache_key is_zero c.request
      → Begun c
      → length c.buf ≡ c.terms.length
      → AllEarned hc
      → Honest (commit now c hc).0 × AllEarned (commit now c hc).1
  unfolding commit
  commit_lem now c hc key (h, at, ok, shown) full all = (
    (key, (λ off. ground (arith, off))),
    put-AllEarned c.key (new_entry c.status c.response_header c.buf c.terms now) hc
        (
          c.cfg,
          c.request,
          c.status,
          h,
          at,
          c.terms,
          c.buf,
          now,
          ok,
          key,
          full,
          ap (λ z. new_entry c.status z c.buf c.terms now) shown,
        )
        all,
  )

  started-none :
      (status : ℕ) (h : Header) (now : ℕ) (c : Writer)
      → storable parse_time c.cfg c.request status h now ≡ none
      → started parse_time status h now c ≡ record c { status = status; response_header = missed h }
  unfolding started
  started-none status h now c e = rw (started, e) refl

  started-some :
      (status : ℕ) (h : Header) (now : ℕ) (c : Writer) (terms : Storability)
      → storable parse_time c.cfg c.request status h now ≡ some terms
      → started parse_time status h now c ≡ record c {
        status = status;
        response_header = missed h;
        terms = terms;
        capturing = true;
        buf = [];
      }
  unfolding started
  started-some status h now c terms e = rw (started, e) refl

  abbrev pub Good : Writer × HostCache → Type 0
  Good (c, hc) = Honest c × AllEarned hc

  abbrev finish : ℕ → HostCache → Writer → Writer × HostCache
  finish now hc w = if w.capturing && (w.terms.length == 0) then commit now w hc else (w, hc)

  finish-Good :
      (now : ℕ) (hc : HostCache) (w : Writer)
      → w.key ≡ cache_key is_zero w.request
      → (w.capturing ≡ true → Begun w × (w.buf ≡ []))
      → AllEarned hc
      → Good (finish now hc w)
  finish-Good now hc w key begun all = elim (Bool-cases (w.capturing && (w.terms.length == 0))) [
    | inl ends ↦
        let (b, nothing) = begun (ground (arith, ends)) in
        subst (λ z. Good (if z then commit now w hc else (w, hc))) (sym ends)
          (commit_lem now w hc key b (ground (arith, ap length nothing, ends)) all)
    | inr goes_on ↦
        subst (λ z. Good (if z then commit now w hc else (w, hc))) (sym goes_on)
          ((key, (λ on. (begun on).0)), all)
  ]

  pub header-Good :
      (status : ℕ) (h : Header) (now : ℕ) (c : Writer) (hc : HostCache)
      → c.capturing ≡ false
      → Honest c
      → AllEarned hc
      → Good (write_header parse_time status h now c hc)
  unfolding write_header
  header-Good status h now c hc off (key, _) all =
      elim (Option-cases (storable parse_time c.cfg c.request status h now)) [
        | inl e ↦
            subst (λ z. Good (finish now hc z)) (sym (started-none status h now c e))
              (finish-Good now hc (record c { status = status; response_header = missed h }) key
                (λ on. ground (arith, off, on)) all)
        | inr (terms, e) ↦
            subst (λ z. Good (finish now hc z)) (sym (started-some status h now c terms e))
              (finish-Good now hc
                (record c {
                  status = status;
                  response_header = missed h;
                  terms = terms;
                  capturing = true;
                  buf = [];
                })
                key (λ on. ((h, now, e, refl), refl)) all)
      ]

  pub body-Good :
      (b : Text) (n now : ℕ) (c : Writer) (hc : HostCache)
      → Honest c
      → AllEarned hc
      → Good (write_body b n now c hc)
  unfolding write_body
  body-Good b n now c hc (key, begun) all =
      go (not c.capturing || (n == 0)) (ltb c.terms.length (length c.buf + n))
        (length (c.buf ++ take n b) == c.terms.length) (λ f. ground (arith, f))
        (λ f. ground (arith, f))
    where
      more_buf : Writer
      more_buf = record c { buf = c.buf ++ take n b }

      go :
          (skip over full : Bool)
          → (skip ≡ false → c.capturing ≡ true)
          → (full ≡ true → length (c.buf ++ take n b) ≡ c.terms.length)
          → Good (
              if skip
              then (c, hc)
              else if over
              then (record c { capturing = false; buf = [] }, hc)
              else if full
              then commit now more_buf hc
              else (more_buf, hc))
      go true over full on exact = ((key, begun), all)
      go false true full on exact = ((key, (λ off. ground (arith, off))), all)
      go false false true on exact =
          commit_lem now more_buf hc key (begun (on refl)) (exact refl) all
      go false false false on exact = ((key, begun), all)
