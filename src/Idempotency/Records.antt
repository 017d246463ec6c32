-- ===== src/Idempotency/Records.antt =====
-- The records of libs/platform/http/idempotency/idempotency.core.ts, the texts that they are stored as,
-- and parseRecord. JSON is a library: a stored text is what JSON.parse makes of it.
use backend_core_kit.Prelude.{
  ℕ, ◌+◌, ◌==◌, ◌≡◌, arith, refl, Bool, false, not, ◌&&◌, Option, none, some, List, [], ◌∷◌, map,
  is_some, Bool-cases, inl, inr, Text, text_eq, trim, is_space, is_empty, if◌then◌else◌,
}

-- A number of JavaScript: its sign, whole part and decimals, or an infinity, which JSON.parse makes of a
-- number that is too large.
pub data Number : Type 0 where
  finite : Bool → ℕ → ℕ → Number
  infinite : Number

abbrev pub natural : ℕ → Number
natural n = finite false n 0

-- Math.trunc
abbrev pub trunc : Number → Number
trunc (finite negative whole decimals) = finite negative whole 0
trunc infinite = infinite

-- A SHA-256 hash in base64url, in a text: one symbol, above all code units, for its 43 characters.
abbrev pub digest : ℕ → Text
digest hash = (65536 + hash) ∷ []

-- The value of a property, as far as parseRecord tells values apart.
pub data Property : Type 0 where
  number_property : Number → Property
  boolean_property : Bool → Property
  string_property : Text → Property
  other_property : Property

pub data HeadersProperty : Type 0 where
  header_object : List (ℕ × Property) → HeadersProperty
  other_headers : HeadersProperty

-- The properties of an object that parseRecord reads, none for a missing one. A body is any JSON value.
pub record Fields : Type 0 where
  pub v : Option Property
  pub state : Option Property
  pub request_hash : Option Property
  pub started_at : Option Property
  pub status : Option Property
  pub has_body : Option Property
  pub body : Option ℕ
  pub headers : Option HeadersProperty
  pub completed_at : Option Property

pub data StoredText : Type 0 where
  object_text : Fields → StoredText
  -- No JSON, or JSON that is no object.
  other_text : StoredText

pub record CompletedRecord : Type 0 where
  pub request_hash : Text
  pub status : Number
  pub has_body : Bool
  pub body : Option ℕ
  pub headers : List (ℕ × Text)
  pub completed_at : Number

pub data StoredRecord : Type 0 where
  in_progress : Text → Number → StoredRecord
  completed : CompletedRecord → StoredRecord

abbrev pub hash_of : StoredRecord → Text
hash_of (in_progress hash started_at) = hash
hash_of (completed r) = r.request_hash

-- `in_progress`
abbrev pub in_progress_state : Text
in_progress_state = 105 ∷ 110 ∷ 95 ∷ 112 ∷ 114 ∷ 111 ∷ 103 ∷ 114 ∷ 101 ∷ 115 ∷ 115 ∷ []

-- `completed`
abbrev pub completed_state : Text
completed_state = 99 ∷ 111 ∷ 109 ∷ 112 ∷ 108 ∷ 101 ∷ 116 ∷ 101 ∷ 100 ∷ []

abbrev pub filled : Text → Option Text
filled [] = none
filled (c ∷ t) = some (c ∷ t)

abbrev pub as_non_empty_string : Option Property → Option Text
as_non_empty_string (some (string_property t)) = filled (trim t)
as_non_empty_string _ = none

abbrev pub as_finite_number : Option Property → Option Number
as_finite_number (some (number_property (finite negative whole decimals))) =
    some (finite negative whole decimals)
as_finite_number _ = none

abbrev pub as_boolean : Option Property → Option Bool
as_boolean (some (boolean_property b)) = some b
as_boolean _ = none

-- parsed.v === 1
abbrev pub is_version_1 : Option Property → Bool
is_version_1 (some (number_property (finite negative whole decimals))) =
    not negative && whole == 1 && decimals == 0
is_version_1 _ = false

abbrev pub add_header : ℕ → Option Text → List (ℕ × Text) → List (ℕ × Text)
add_header name none headers = headers
add_header name (some value) headers = (name, value) ∷ headers

unfoldable pub parse_header_entries : List (ℕ × Property) → List (ℕ × Text)
parse_header_entries [] = []
parse_header_entries ((name, value) ∷ entries) =
    add_header name (as_non_empty_string (some value)) (parse_header_entries entries)

abbrev pub parse_headers : Option HeadersProperty → List (ℕ × Text)
parse_headers (some (header_object entries)) = parse_header_entries entries
parse_headers _ = []

abbrev pub parse_in_progress : Text → Option Number → Option StoredRecord
parse_in_progress hash none = none
parse_in_progress hash (some started_at) = some (in_progress hash started_at)

abbrev pub parse_completed :
    Fields → Text → Option Number → Option Bool → Option Number → Option StoredRecord
parse_completed f hash (some status) (some has_body) (some completed_at) = some (
    completed (record {
      request_hash = hash;
      status = trunc status;
      has_body = has_body;
      body = if has_body then f.body else none;
      headers = parse_headers f.headers;
      completed_at = completed_at;
    }))
parse_completed f hash _ _ _ = none

abbrev pub parse_state : Fields → Option Text → Option Text → Option StoredRecord
parse_state f (some state) (some hash) =
    if text_eq state in_progress_state
    then parse_in_progress hash (as_finite_number f.started_at)
    else if not (text_eq state completed_state)
    then none
    else parse_completed f hash (as_finite_number f.status) (as_boolean f.has_body)
        (as_finite_number f.completed_at)
parse_state f _ _ = none

unfoldable pub parse_record : StoredText → Option StoredRecord
parse_record other_text = none
parse_record (object_text f) =
    if not (is_version_1 f.v)
    then none
    else parse_state f (as_non_empty_string f.state) (as_non_empty_string f.request_hash)

-- JSON.stringify writes null for an infinity.
abbrev number_written : Number → Property
number_written (finite negative whole decimals) = number_property (finite negative whole decimals)
number_written infinite = other_property

abbrev pub header_written : ℕ × Text → ℕ × Property
header_written (name, value) = (name, string_property value)

-- A record without headers has no such property.
abbrev pub headers_written : List (ℕ × Text) → Option HeadersProperty
headers_written [] = none
headers_written (h ∷ headers) = some (header_object (map header_written (h ∷ headers)))

-- What JSON.parse makes of JSON.stringify of a record.
abbrev pub stringify_record : StoredRecord → StoredText
stringify_record (in_progress hash started_at) = object_text (record {
  v = some (number_property (natural 1));
  state = some (string_property in_progress_state);
  request_hash = some (string_property hash);
  started_at = some (number_written started_at);
  status = none;
  has_body = none;
  body = none;
  headers = none;
  completed_at = none;
})
stringify_record (completed r) = object_text (record {
  v = some (number_property (natural 1));
  state = some (string_property completed_state);
  request_hash = some (string_property r.request_hash);
  started_at = none;
  status = some (number_written r.status);
  has_body = some (boolean_property r.has_body);
  body = r.body;
  headers = headers_written r.headers;
  completed_at = some (number_written r.completed_at);
})

abbrev pub create_in_progress_record : ℕ → ℕ → StoredRecord
create_in_progress_record request_hash now = in_progress (digest request_hash) (natural now)

-- A body is kept unless the status is 204.
unfoldable pub create_completed_record : ℕ → ℕ → Option ℕ → List (ℕ × Text) → ℕ → CompletedRecord
create_completed_record request_hash status body headers now = record {
  request_hash = digest request_hash;
  status = trunc (natural status);
  has_body = is_some body && not (status == 204);
  body = if is_some body && not (status == 204) then body else none;
  headers = headers;
  completed_at = natural now;
}

-- The headers that a replay has: each value trimmed, and none that is blank.
unfoldable pub clean_headers : List (ℕ × Text) → List (ℕ × Text)
clean_headers [] = []
clean_headers ((name, value) ∷ headers) =
    if is_empty (trim value)
    then clean_headers headers
    else (name, trim value) ∷ clean_headers headers

filled-digest : (hash : ℕ) → filled (trim (digest hash)) ≡ some (digest hash)
filled-digest hash =
    let plain : is_space (65536 + hash) ≡ false = ground arith in rw (plain, plain) refl

pub text_eq-digest : (a b : ℕ) → text_eq (digest a) (digest b) ≡ (a == b)
text_eq-digest a b = ground arith

add_header-filled :
    (name : ℕ) (t : Text) (headers : List (ℕ × Text))
    → add_header name (filled t) headers ≡ (if is_empty t then headers else (name, t) ∷ headers)
add_header-filled name [] headers = refl
add_header-filled name (c ∷ t) headers = refl

parse_header_entries-clean_headers :
    (headers : List (ℕ × Text))
    → parse_header_entries (map header_written headers) ≡ clean_headers headers
unfolding parse_header_entries clean_headers
parse_header_entries-clean_headers [] = refl
parse_header_entries-clean_headers ((name, value) ∷ headers) =
    rw
      (
        parse_header_entries-clean_headers headers,
        add_header-filled name (trim value) (clean_headers headers),
      )
      refl

parse_headers-clean_headers :
    (headers : List (ℕ × Text)) → parse_headers (headers_written headers) ≡ clean_headers headers
unfolding clean_headers
parse_headers-clean_headers [] = refl
parse_headers-clean_headers (h ∷ headers) = parse_header_entries-clean_headers (h ∷ headers)

pub parse_record-in_progress :
    (request_hash now : ℕ)
    → parse_record (stringify_record (create_in_progress_record request_hash now))
      ≡ some (create_in_progress_record request_hash now)
unfolding parse_record
parse_record-in_progress request_hash now = rw (filled-digest request_hash) refl

pub parse_record-completed :
    (request_hash status : ℕ) (body : Option ℕ) (headers : List (ℕ × Text)) (now : ℕ)
    → let r = create_completed_record request_hash status body headers now in
      parse_record (stringify_record (completed r))
      ≡ some (completed (record r { headers = clean_headers headers }))
unfolding parse_record create_completed_record
parse_record-completed request_hash status body headers now =
    let kept = is_some body && not (status == 204) in
    rw (filled-digest request_hash, parse_headers-clean_headers headers)
      (elim (Bool-cases kept) [ inl h ↦ rw h refl | inr h ↦ rw h refl ])
