-- ===== src/Proxy/Caching/Tests.antt =====
-- internal/proxy/cache.go: a script of two bytes is fetched once and then served.
use ponz_proxy.Prelude.{
  ℕ, ◌+◌, ◌*◌, ◌≡◌, ◌≤◌, refl, ap, get_elem?, true, false, Bool, Option, none, some, List, [], ◌∷◌,
  ◌++◌, arith, length,
}
use ponz_proxy.Prelude.Text.{Text, codes, text_eq}
use ponz_proxy.Prelude.Strings.{
  cut_prefix, cut, cut_last, trim_left, trim_right, trim_space, trim_last, lower, is_space,
  is_digit,
}
use ponz_proxy.Prelude.Maps.{lookup, insert, keep}
use ponz_proxy.Prelude.Fields.{equal_fold, split, read_digits, parse_int, max_int64}
use ponz_proxy.Cache.Setting.{Setting, second, hour}
use ponz_proxy.Cache.Directives.{
  Header, values, field, present, name_and_argument, apply_directive, apply_directives,
  apply_values, parse_cache_control, no_cache_in, has_no_cache_pragma, request_directives,
}
use ponz_proxy.Cache.Policy.{
  Request, Storability, credentialed, servable, vary_is_cacheable, values_vary, clamped,
  content_length, requested_ttl, freshness, storable, named_by_connection, named_by_any,
  fold_member, skip_header, copy_storable_header,
}
use ponz_proxy.Cache.Revalidation.{parse_accept_encoding}
use ponz_proxy.Cache.Key.{key_eq, encodings_eq, find, delete}
use ponz_proxy.Cache.Entry.{Entry, new_entry, values_size, header_size, fresh}
use ponz_proxy.Cache.Host.{remove, look_up, evict, add, put, new_host_cache}
use ponz_proxy.Cache.Recency.{push_front, set_prev, set_next}
use ponz_proxy.Proxy.Routing.{normalize_host_header, unbracketed, without_port, all_digits}
use ponz_proxy.Proxy.Caching.{
  Writer, Reply, answered, cache_key, new_writer, serve_cached, answer, started, commit,
  write_header, write_body,
}
use ponz_proxy.Proxy.Caching.Earned.{
  Traffic, Steps, here, more, asked, wrote_header, wrote_body, after, after_answer,
}
use ponz_proxy.Proxy.Caching.Safe.{Safe, answer-Safe}
use ponz_proxy.Proxy.Caching.Capture.{Stored, write_all, joined, write_all-Stored}

abbrev never_zero : Text → Bool
never_zero s = false

abbrev no_time : Text → Option ℕ
no_time s = none

abbrev scripts : Setting
scripts = record {
  enabled = true;
  paths = codes ".js" ∷ [];
  ttl = 300 * second;
  max_ttl = 24 * hour;
  max_object_bytes = 1024;
  max_bytes = 4096;
}

abbrev for_script : Request
for_script = record {
  method = codes "GET";
  host = codes "a.b";
  path = codes "/x.js";
  query = [];
  tls = false;
  header = [];
}

abbrev two_bytes : Header
two_bytes =
    (codes "Content-Length", codes "2" ∷ []) ∷ (codes "Cache-Control", codes "public" ∷ []) ∷ []

abbrev at_first : Traffic
at_first = record { cache = new_host_cache 4096; writers = [] }

abbrev was_asked : Traffic
was_asked =
    after_answer at_first (answer never_zero no_time 0 scripts for_script 5 [] at_first.cache)

abbrev writer : Writer
writer = new_writer never_zero scripts for_script

asked_writer : was_asked.writers ≡ writer ∷ []
unfolding answer look_up new_host_cache find
asked_writer = refl

abbrev was_begun : Traffic
was_begun = after 0 was_asked.writers (write_header no_time 200 two_bytes 6 writer was_asked.cache)

abbrev terms : Storability
terms = record { expires_at = 300 * second + 6; public = true; length = 2 }

abbrev begun : Writer
begun = record writer {
  status = 200;
  response_header = insert (codes "X-Cache") (codes "MISS" ∷ []) two_bytes;
  terms = terms;
  capturing = true;
}

storable_script : storable no_time scripts for_script 200 two_bytes 6 ≡ some terms
unfolding storable text_eq content_length field values lookup parse_int read_digits is_digit
    vary_is_cacheable values_vary parse_cache_control apply_values apply_directives apply_directive
    name_and_argument split cut trim_space trim_left trim_right is_space equal_fold lower
    credentialed present freshness requested_ttl clamped
storable_script = refl

begun_writer : was_begun.writers ≡ begun ∷ []
unfolding answer look_up new_host_cache find write_header started insert new_writer storable text_eq
    content_length field values lookup parse_int read_digits is_digit vary_is_cacheable values_vary
    parse_cache_control apply_values apply_directives apply_directive name_and_argument split cut
    trim_space trim_left trim_right is_space equal_fold lower credentialed present freshness
    requested_ttl clamped
begun_writer = refl

abbrev was_sent : Traffic
was_sent = after 0 was_begun.writers (write_body (codes "ab") 2 7 begun was_begun.cache)

abbrev script : Entry
script = new_entry 200 (insert (codes "X-Cache") (codes "MISS" ∷ []) two_bytes) (codes "ab") terms 7

script_found :
    (answer never_zero no_time 0 scripts for_script 10 [] was_sent.cache).1
    ≡ answered (serve_cached no_time 0 for_script script 10 [])
unfolding answer look_up new_host_cache find write_header started insert new_writer write_body
    commit put add evict delete remove key_eq encodings_eq cache_key normalize_host_header
    unbracketed without_port all_digits cut_prefix cut_last trim_last parse_accept_encoding servable
    request_directives fresh new_entry header_size values_size copy_storable_header keep skip_header
    named_by_any named_by_connection fold_member push_front set_prev set_next no_cache_in
    has_no_cache_pragma storable text_eq content_length field values lookup parse_int read_digits
    is_digit vary_is_cacheable values_vary parse_cache_control apply_values apply_directives
    apply_directive name_and_argument split cut trim_space trim_left trim_right is_space equal_fold
    lower credentialed present freshness requested_ttl clamped
script_found = refl

sent-Steps : Steps never_zero no_time at_first was_sent
unfolding new_writer
sent-Steps =
    more at_first was_begun was_sent
      (more at_first was_asked was_begun
        (more at_first at_first was_asked (here at_first)
          (asked at_first 0 scripts for_script 5 []))
        (wrote_header was_asked 0 writer 200 two_bytes 6 (ap (λ z. get_elem? z 0) asked_writer)
          refl))
      (wrote_body was_begun 0 begun (codes "ab") 2 7 (ap (λ z. get_elem? z 0) begun_writer))

answer-Safe_example :
    Safe never_zero no_time 0 for_script 10 [] (serve_cached no_time 0 for_script script 10 [])
answer-Safe_example =
    answer-Safe never_zero no_time 4096 was_sent 0 scripts for_script 10 []
      (serve_cached no_time 0 for_script script 10 []) sent-Steps script_found

-- In two pieces of one byte.
abbrev pieces : List (Text × ℕ)
pieces = (codes "a", 7) ∷ (codes "b", 8) ∷ []

write_all-Stored_example :
    Stored begun
      (new_host_cache 4096)
      (begun.buf ++ joined pieces)
      (write_all pieces begun (new_host_cache 4096)).1
unfolding new_writer
write_all-Stored_example =
    write_all-Stored pieces begun (new_host_cache 4096) refl (omega arith)
      (omega arith, (omega arith, tt))

abbrev served_script : Reply
served_script = serve_cached no_time 0 for_script script 10 []

two_bytes_fit : length script.body ≤ max_int64
unfolding new_entry
two_bytes_fit = omega arith
