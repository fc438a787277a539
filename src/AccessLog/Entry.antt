-- ===== src/AccessLog/Entry.antt =====
-- internal/domain/accesslog.go: an entry and the clamping of its texts, and the page of a query;
-- internal/proxy/accesslog.go: what of a finished request is recorded.
--
-- A time is a number of nanoseconds; the zero time of a query is none.
pub mod Clamped
use ponz_proxy.Prelude.{
  ℕ, zero, suc, ◌-◌, ◌/◌, Bool, true, false, not, ◌&&◌, ◌||◌, Option, none, some, List, [], ◌∷◌,
  ◌++◌, ltb, leb, ◌==◌, if◌then◌else◌, length, take, get_or,
}
use ponz_proxy.Prelude.Int.{ℤ, pos, ltb_ℤ}
use ponz_proxy.Prelude.Text.{Text, codes}
use ponz_proxy.Prelude.Strings.{trim_space}

pub record Entry : Type 0 where
  pub id : ℕ
  pub timestamp : ℕ
  pub host_id : ℕ
  pub method : Text
  pub path : Text
  pub status : ℕ
  pub duration_ms : ℕ
  pub bytes_out : ℕ
  pub client_ip : Text
  pub upstream : Text
  pub user_agent : Text
  pub error : Text

abbrev pub max_logged_field : ℕ
max_logged_field = 512

-- The bits above the lowest six are not those of a continuation byte.
unfoldable pub is_utf8_start : ℕ → Bool
is_utf8_start b = not (b / 64 == 2)

unfoldable pub cut_at : Text → ℕ → ℕ
cut_at s zero = 0
cut_at s (suc k) =
    let rest = cut_at s k in if is_utf8_start (get_or s (suc k) 0) then suc k else rest

-- The three bytes of the character that marks a clamped text.
abbrev pub ellipsis : Text
ellipsis = 0xE2 ∷ 0x80 ∷ 0xA6 ∷ []

unfoldable pub clamp : Text → ℕ → Text
clamp s max = if leb (length s) max then s else take (cut_at s max) s ++ ellipsis

unfoldable pub truncate : Entry → Entry
truncate e = record e {
  path = clamp e.path max_logged_field;
  user_agent = clamp e.user_agent max_logged_field;
  error = clamp e.error max_logged_field;
  client_ip = clamp e.client_ip 64;
  method = clamp e.method 16;
  upstream = clamp e.upstream 128;
}

pub record AccessLogSettings : Type 0 where
  pub enabled : Bool
  pub include_query : Bool

-- What `recordAccess` reads of a request, the host that served it and the outcome.
pub record Finished : Type 0 where
  pub settings : AccessLogSettings
  pub host_id : ℕ
  pub method : Text
  pub path : Text
  pub raw_query : Text
  pub client_ip : Text
  pub user_agent : Text
  pub backend_key : Option Text
  pub cause : Option Text
  pub status : ℕ
  pub bytes_out : ℕ
  pub start : ℕ
  pub now : ℕ

unfoldable pub text_or_empty : Option Text → Text
text_or_empty none = []
text_or_empty (some t) = t

unfoldable pub recorded_path : Finished → Text
recorded_path r =
    if r.settings.include_query && not (length r.raw_query == 0)
    then r.path ++ codes "?" ++ r.raw_query
    else r.path

-- None where the host does not record its requests.
unfoldable pub record_access : Finished → Option Entry
record_access r =
    if not r.settings.enabled
    then none
    else some (record {
      id = 0;
      timestamp = r.start;
      host_id = r.host_id;
      method = r.method;
      path = recorded_path r;
      status = r.status;
      duration_ms = (r.now - r.start) / 1_000_000;
      bytes_out = r.bytes_out;
      client_ip = r.client_ip;
      upstream = text_or_empty r.backend_key;
      user_agent = r.user_agent;
      error = text_or_empty r.cause;
    })

abbrev pub default_page : ℕ
default_page = 100

abbrev pub max_page : ℕ
max_page = 500

pub record Query : Type 0 where
  pub host_id : ℕ
  pub from : Option ℕ
  pub to : Option ℕ
  pub status_class : ℤ
  pub search : Text
  pub failed_only : Bool
  pub limit : ℤ
  pub offset : ℤ

abbrev pub day : ℕ
day = 86_400_000_000_000

unfoldable pub time_or : Option ℕ → ℕ → ℕ
time_or none t = t
time_or (some s) t = s

unfoldable pub page_limit : ℤ → ℤ
page_limit l = if not (ltb_ℤ (pos 0) l) || ltb_ℤ (pos max_page) l then pos default_page else l

unfoldable pub page_offset : ℤ → ℤ
page_offset o = if ltb_ℤ o (pos 0) then pos 0 else o

-- A class of 0 is any, so that the source leaves it out of the test.
unfoldable pub status_band : ℤ → ℤ
status_band c = if ltb_ℤ c (pos 2) || ltb_ℤ (pos 5) c then pos 0 else c

unfoldable pub normalize_query : ℕ → Query → Query
normalize_query now q =
    let end = time_or q.to now in
    record q {
      search = trim_space q.search;
      limit = page_limit q.limit;
      offset = page_offset q.offset;
      status_class = status_band q.status_class;
      to = some end;
      from = some (time_or q.from (end - day));
    }
