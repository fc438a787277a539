-- ===== src/Proxy/Routing/Prefix.antt =====
-- internal/domain/location.go: one path prefix of a host.
use ponz_proxy.Prelude.{
  append-nil, ℕ, suc, ◌≡◌, ◌↔◌, refl, sym, ap, subst, ◌∙◌, ◌⊎◌, inl, inr, Bool, true, false, not,
  ◌||◌, none, some, List, [], ◌∷◌, ◌++◌, arith, ◌==◌, if◌then◌else◌, length, Option-cases,
  Bool-cases, List-cases,
}
use ponz_proxy.Prelude.Text.{Text, codes, text_eq, text_eq_iff}
use ponz_proxy.Prelude.Strings.{cut_prefix, cut_prefix_iff, has_prefix, trim_prefix, trim_space}
use ponz_proxy.Balancer.Backend.{Upstream}

pub record Location : Type 0 where
  pub path : Text
  pub strip_prefix : Bool
  pub upstreams : List Upstream

abbrev pub slash : Text
slash = codes "/"

-- Nothing is left of the path, or a new segment begins.
abbrev pub at_segment : Text → Bool
at_segment [] = true
at_segment (c ∷ _) = c == 47

unfoldable pub matches : Location → Text → Bool
matches l path =
    if text_eq l.path slash
    then true
    else elim (cut_prefix path l.path) [ some rest ↦ at_segment rest | none ↦ false ]

unfoldable pub forward_path : Location → Text → Text
forward_path l path =
    if not l.strip_prefix || text_eq l.path slash
    then path
    else (let stripped = trim_prefix path l.path in
        if length stripped == 0 then slash else stripped)

unfoldable pub drop_slashes : Text → Text
drop_slashes [] = []
drop_slashes (c ∷ s) = elim (drop_slashes s) [
  | [] ↦ if c == 47 then [] else c ∷ []
  | d ∷ t ↦ c ∷ d ∷ t
]

-- The first byte stays, so a path of slashes becomes `/`.
unfoldable pub trim_slashes : Text → Text
trim_slashes [] = []
trim_slashes (c ∷ s) = c ∷ drop_slashes s

-- `Location.Normalize`, on the path.
unfoldable pub normalize_path : Text → Text
normalize_path path =
    let s = trim_space path in
    if length s == 0
    then slash
    else if has_prefix s slash
    then trim_slashes s
    else trim_slashes (slash ++ s)

abbrev Segment : Text → Type 0
Segment rest = (rest ≡ []) ⊎ ((s : Text) × (rest ≡ 47 ∷ s))

at_segment_iff : (rest : Text) → (at_segment rest ≡ true) ↔ Segment rest
at_segment_iff [] = (λ _. inl refl, λ _. refl)
at_segment_iff (c ∷ s) = (λ h. inr (s, ap (λ x. x ∷ s) (byte h)), back)
  where
    byte : (c == 47) ≡ true → c ≡ 47
    byte h = ground arith

    back : Segment (c ∷ s) → (c == 47) ≡ true
    back (inl h) = ground (arith, h)
    back (inr (t, h)) = ground (arith, h)

matches-rest :
    (l : Location) (path rest : Text)
    → text_eq l.path slash ≡ false
    → cut_prefix path l.path ≡ some rest
    → matches l path ≡ at_segment rest
unfolding matches
matches-rest l path rest e g = rw (e, g) refl

matches-none :
    (l : Location) (path : Text)
    → text_eq l.path slash ≡ false
    → cut_prefix path l.path ≡ none
    → matches l path ≡ false
unfolding matches
matches-none l path e g = rw (e, g) refl

abbrev pub Claims : Location → Text → Type 0
Claims l path = (l.path ≡ slash) ⊎ ((rest : Text) × (path ≡ l.path ++ rest) × Segment rest)

matches-Claims : (l : Location) (path : Text) → matches l path ≡ true → Claims l path
matches-Claims l path h = elim (Bool-cases (text_eq l.path slash)) [
  | inl e ↦ inl ((text_eq_iff l.path slash).0 e)
  | inr e ↦ elim (Option-cases (cut_prefix path l.path)) [
    | inl g ↦ ground (arith, h, matches-none l path e g)
    | inr (rest, g) ↦ inr (
      rest,
      (cut_prefix_iff path l.path rest).0 g,
      (at_segment_iff rest).0 (sym (matches-rest l path rest e g) ∙ h),
    )
  ]
]

Claims-matches : (l : Location) (path : Text) → Claims l path → matches l path ≡ true
unfolding matches
Claims-matches l path (inl e) = ground (arith, text_eq_iff l.path slash, e)
Claims-matches l path (inr (rest, g, seg)) = elim (Bool-cases (text_eq l.path slash)) [
  | inl e ↦ rw e refl
  | inr e ↦
      matches-rest l path rest e ((cut_prefix_iff path l.path rest).1 g)
      ∙ (at_segment_iff rest).1 seg
]

-- A location claims exactly the paths that its own path begins and that go on with a new segment,
-- and every path where its own is `/`.
pub matches_iff : (l : Location) (path : Text) → (matches l path ≡ true) ↔ Claims l path
matches_iff l path = (matches-Claims l path, Claims-matches l path)

abbrev pub Kept : Location → Text → Text → Type 0
Kept l path sent = (sent ≡ path) ⊎ (l.path ++ sent ≡ path) ⊎ ((l.path ≡ path) × (sent ≡ slash))

longer : (r : Text) → (suc (length r) == 0) ≡ false
longer r = ground arith

forward_path-rest :
    (l : Location) (path rest : Text)
    → (not l.strip_prefix || text_eq l.path slash) ≡ false
    → cut_prefix path l.path ≡ some rest
    → path ≡ l.path ++ rest
    → Segment rest
    → ((t : Text) × (forward_path l path ≡ 47 ∷ t)) × Kept l path (forward_path l path)
unfolding forward_path trim_prefix
forward_path-rest l path [] e c g seg =
    rw (e, c, forward_path, trim_prefix)
      (([], refl), inr (inr (sym (append-nil l.path) ∙ sym g, refl)))
forward_path-rest l path (b ∷ r) e c g (inl q) = ground (arith, q)
forward_path-rest l path (b ∷ r) e c g (inr (t, q)) =
    rw (e, c, forward_path, trim_prefix, longer r) ((t, q), inr (inl (sym g)))

-- What is sent upstream for a path that the location claims begins with a slash if the path does,
-- and it is the path or what follows the location's path in it.
pub forward_path_lem :
    (l : Location) (s : Text)
    → matches l (47 ∷ s) ≡ true
    → ((t : Text) × (forward_path l (47 ∷ s) ≡ 47 ∷ t)) × Kept l (47 ∷ s) (forward_path l (47 ∷ s))
unfolding forward_path trim_prefix
forward_path_lem l s h = elim (Bool-cases (not l.strip_prefix || text_eq l.path slash)) [
  | inl e ↦ rw (e, forward_path) ((s, refl), inl refl)
  | inr e ↦ elim (matches-Claims l (47 ∷ s) h) [
    | inl g ↦ ground (arith, e, g, text_eq_iff l.path slash)
    | inr (rest, g, seg) ↦
        forward_path-rest l (47 ∷ s) rest e ((cut_prefix_iff (47 ∷ s) l.path rest).1 g) g seg
  ]
]

abbrev ends_in : ℕ → Text → Bool
ends_in c [] = false
ends_in c (d ∷ []) = d == c
ends_in c (d ∷ e ∷ s) = ends_in c (e ∷ s)

drop_slashes-end : (s : Text) → ends_in 47 (drop_slashes s) ≡ false
unfolding drop_slashes
drop_slashes-end [] = refl
drop_slashes-end (c ∷ s) = elim (List-cases (drop_slashes s)) [
  | inl e ↦ ground (arith, e)
  | inr (d, t, e) ↦ rw (e, drop_slashes) (ap (ends_in 47) (sym e) ∙ drop_slashes-end s)
]

-- `/`, or a slash and a path that does not end in one.
abbrev pub Normal : Text → Type 0
Normal path = (path ≡ slash) ⊎ ((s : Text) × (path ≡ 47 ∷ s) × (ends_in 47 path ≡ false))

trim_slashes-Normal : (s : Text) → Normal (trim_slashes (47 ∷ s))
unfolding trim_slashes
trim_slashes-Normal s = elim (List-cases (drop_slashes s)) [
  | inl e ↦ inl (rw (e, trim_slashes) refl)
  | inr (d, t, e) ↦ inr (
    d ∷ t,
    rw (e, trim_slashes) refl,
    rw (e, trim_slashes) (ap (ends_in 47) (sym e) ∙ drop_slashes-end s),
  )
]

slash_first : (s : Text) → has_prefix s slash ≡ true → (t : Text) × (s ≡ 47 ∷ t)
unfolding has_prefix
slash_first s h = elim (Option-cases (cut_prefix s slash)) [
  | inl e ↦ ground (arith, h, e)
  | inr (t, e) ↦ (t, (cut_prefix_iff s slash t).0 e)
]

-- A normalised path begins with a slash and, unless it is `/`, does not end with one.
pub normalize_path-Normal : (path : Text) → Normal (normalize_path path)
unfolding normalize_path
normalize_path-Normal path = elim (Bool-cases (length (trim_space path) == 0)) [
  | inl e ↦ inl (rw (e, normalize_path) refl)
  | inr e ↦ elim (Bool-cases (has_prefix (trim_space path) slash)) [
    | inl g ↦
        let (t, q) = slash_first (trim_space path) g in
        rw (e, g, normalize_path)
          (subst (λ x. Normal (trim_slashes x)) (sym q) (trim_slashes-Normal t))
    | inr g ↦ rw (e, g, normalize_path) (trim_slashes-Normal (trim_space path))
  ]
]
