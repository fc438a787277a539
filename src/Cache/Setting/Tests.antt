-- ===== src/Cache/Setting/Tests.antt =====
-- internal/domain/cache.go: settings as an operator might write them.
use ponz_proxy.Prelude.{◌≡◌, refl, true, some, [], ◌∷◌}
use ponz_proxy.Prelude.Text.{codes, text_eq}
use ponz_proxy.Prelude.Entries.{cleaned, member}
use ponz_proxy.Prelude.Strings.{trim_space, trim_left, trim_right, is_space, lower}
use ponz_proxy.Cache.Setting.{
  Setting, is_extension, normalize_entry, normalize, entry_problems, entries_problems,
  range_problems, all_problems, validate,
}

abbrev written : Setting
written = record {
  enabled = true;
  paths = codes " .JS" ∷ codes "/assets/" ∷ codes "" ∷ codes ".js " ∷ [];
  ttl = 0;
  max_ttl = 0;
  max_object_bytes = 0;
  max_bytes = 0;
}

two_paths : (normalize written).paths ≡ codes ".js" ∷ codes "/assets/" ∷ []
unfolding normalize cleaned member text_eq normalize_entry is_extension trim_space trim_left
    trim_right is_space lower
two_paths = refl

accepted : validate (normalize written) ≡ some []
unfolding normalize cleaned member text_eq normalize_entry is_extension trim_space trim_left
    trim_right is_space lower validate entry_problems entries_problems range_problems all_problems
accepted = refl
