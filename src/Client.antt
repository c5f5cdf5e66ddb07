-- ===== src/Client.antt =====
-- polygon/client.py: the retries of one request, and the pages of a listing. A duration counts
-- milliseconds. The vendor's answers are arguments: `server` is what the n-th attempt meets, and
-- `serve` is what `_request` makes of a target.
pub mod Retries
pub mod Resume
mod Tests
use bifrost_platform_plugin.Prelude.{
  ℕ, zero, suc, ◌+◌, ◌-◌, ◌*◌, ◌^◌, String, Option, none, some, List, [], ◌∷◌, ◌++◌, Bool, true,
  false, not, ◌&&◌, has, str_eq, leb, ◌==◌, if◌then◌else◌, min,
}
use bifrost_platform_plugin.Prelude.Text.{is_blank}
use bifrost_platform_plugin.Json.{Json, null, bool, num, str, arr, obj, get, truthy}

-- _backoff_seconds
unfoldable pub backoff : ℕ → ℕ
backoff attempt = min (400 * 2 ^ attempt) 30000

pub data Message : Type 0 where
  said : String → Message
  http : ℕ → Message
  transient : ℕ → Message
  rate_limited exhausted_retries : Message

-- PolygonAPIError, with the URL and the body left out.
pub record ApiError : Type 0 where
  pub message : Message
  pub status_code : Option ℕ

-- What one `_request_once` meets.
pub data Answer : Type 0 where
  too_many : (retry_after : Option ℕ) → Answer
  transport_error : Answer
  answered : (status : ℕ) → (body : Json) → Answer

pub data Requested : Type 0 where
  received : Json → Requested
  api_error : ApiError → Requested

-- The two ways out of one round of the loop in `_request`.
pub data Round : Type 0 where
  again : ApiError → (wait : ℕ) → Round
  decided : Requested → Round

abbrev pub is_transient : ℕ → Bool
is_transient status = has (λ s. s == status) (408 ∷ 425 ∷ 500 ∷ 502 ∷ 503 ∷ 504 ∷ [])

abbrev pub is_logic_error : String → Bool
is_logic_error s = has (str_eq s) ("ERROR" ∷ "NOT_AUTHORIZED" ∷ "FAILED" ∷ [])

-- `upper` is `str.upper`, `show` what `str` makes of a value that is no text.
module _ (upper : String → String) (show : Json → String) where
  abbrev pub text : Json → String
  text null = show null
  text (bool b) = show (bool b)
  text (num n) = show (num n)
  text (str s) = s
  text (arr xs) = show (arr xs)
  text (obj fs) = show (obj fs)

  abbrev pub status_of : Json → String
  status_of v = upper (if truthy v then text v else "")

  abbrev pub unclear : String → Json → Option String
  unclear status (str err) =
      if not (is_blank err)
      then (if not (str_eq status "")
            && not (has (str_eq status) ("OK" ∷ "DELAYED" ∷ "SUCCESS" ∷ []))
          then some err
          else none)
      else none
  unclear status _ = none

  unfoldable pub polygon_body_error_message : Json → Option String
  unfolding get
  polygon_body_error_message (obj fs) =
      let status = status_of (get "status" fs) in
      let err = get "error" fs in
      let message = get "message" fs in
      if is_logic_error status
      then some (if truthy err then text err else if truthy message then text message else status)
      else unclear status err
  polygon_body_error_message _ = none

  -- A message that `if logic_err:` takes for one.
  abbrev pub body_error : Json → Option String
  body_error v = elim (polygon_body_error_message v) [
    | none ↦ none
    | some m ↦ if str_eq m "" then none else some m
  ]

  abbrev pub failure : Message → ℕ → ApiError
  failure m status = record { message = m; status_code = some status }

  unfoldable pub judge : ℕ → Answer → Round
  unfolding backoff polygon_body_error_message
  judge attempt (too_many retry_after) =
      again (failure rate_limited 429)
        (elim retry_after [ some wait ↦ wait | none ↦ backoff attempt ])
  judge attempt transport_error =
      again (record { message = exhausted_retries; status_code = none }) (backoff attempt)
  judge attempt (answered status body) =
      if is_transient status
      then again (failure (transient status) status) (backoff attempt)
      else elim (body_error body) [
        | some m ↦ decided (api_error (failure (said m) status))
        | none ↦
            if leb 400 status
            then decided (api_error (failure (http status) status))
            else decided (received body)
      ]

  abbrev pub after_round : Round → (ApiError → Requested × List ℕ) → Requested × List ℕ
  after_round (decided r) next = (r, [])
  after_round (again e wait) next = let rest = next e in (rest.0, wait ∷ rest.1)

  -- The `for attempt in range(max_retries)`, with what it slept.
  unfoldable pub request_loop : (ℕ → Answer) → ℕ → ℕ → ApiError → Requested × List ℕ
  unfolding judge
  request_loop server zero attempt last_error = (api_error last_error, [])
  request_loop server (suc left) attempt last_error =
      after_round (judge attempt (server attempt)) (λ e. request_loop server left (attempt + 1) e)

  unfoldable pub request : (ℕ → Answer) → ℕ → Requested × List ℕ
  unfolding request_loop
  request server max_retries =
      request_loop server max_retries 0 (record { message = exhausted_retries; status_code = none })

-- A decoded page: the results, and `next_url` where it is not empty.
pub record Page (A : Type 0) : Type 0 where
  pub results : List A
  pub next_url : Option String

pub data Target : Type 0 where
  from_start : (cursor : Option String) → Target
  at_url : String → Target

pub data Fetched (A : Type 0) : Type 0 where
  dict : Page A → Fetched A
  bare : List A → Fetched A
  other : Fetched A
  refused : ApiError → Fetched A

-- The keys that `_paginate` sets in its payload.
pub record Payload (A : Type 0) : Type 0 where
  pub results : List A
  pub next_cursor : Option String
  pub pages : ℕ
  pub truncated : Bool

pub data Paginated (A : Type 0) : Type 0 where
  merged : Payload A → Paginated A
  bare_list : List A → Paginated A
  unexpected : Paginated A
  value_error : Paginated A
  failed : ApiError → Paginated A

-- The first `cursor` of a query that is not empty.
abbrev pub cursor_in : List (String × String) → Option String
cursor_in [] = none
cursor_in (kv ∷ rest) =
    if str_eq kv.0 "cursor" && not (str_eq kv.1 "") then some kv.1 else cursor_in rest

-- `query_of` is `parse_qsl(urlparse(url).query)`.
module _ {A : Type 0} (query_of : String → List (String × String))
    (serve : Target → Fetched A) where
  unfoldable pub cursor_of : String → Option String
  cursor_of url = cursor_in (query_of url)

  abbrev pub payload_of : List A → ℕ → Option String → Payload A
  unfolding cursor_of
  payload_of results pages none = record {
    results = results;
    next_cursor = none;
    pages = pages;
    truncated = false;
  }
  payload_of results pages (some url) = record {
    results = results;
    next_cursor = cursor_of url;
    pages = pages;
    truncated = true;
  }

  -- A page that has to be a dict.
  abbrev pub with_page : (Page A → Paginated A) → Fetched A → Paginated A
  with_page k (dict p) = k p
  with_page k (bare xs) = unexpected
  with_page k other = unexpected
  with_page k (refused e) = failed e

  -- The `while next_url and pages < max_pages`: `left` is `max_pages - pages`.
  unfoldable pub follow : ℕ → ℕ → List A → Option String → Paginated A
  unfolding payload_of
  follow zero pages results next_url = merged (payload_of results pages next_url)
  follow (suc left) pages results none = merged (payload_of results pages none)
  follow (suc left) pages results (some url) =
      with_page (λ p. follow left (pages + 1) (results ++ p.results) p.next_url)
        (serve (at_url url))

  abbrev pub first_page : (Page A → Paginated A) → Fetched A → Paginated A
  first_page k (dict p) = k p
  first_page k (bare xs) = bare_list xs
  first_page k other = unexpected
  first_page k (refused e) = failed e

  -- `if start_cursor:`
  abbrev pub given : Option String → Option String
  given none = none
  given (some c) = if str_eq c "" then none else some c

  unfoldable pub paginate : ℕ → Option String → Paginated A
  unfolding follow
  paginate zero start_cursor = value_error
  paginate (suc more) start_cursor =
      first_page (λ p. follow more 1 p.results p.next_url) (serve (from_start (given start_cursor)))
