-- ===== src/Client/Tests.antt =====
-- A vendor that fails twice before it answers, and a listing of three pages.
use bifrost_platform_plugin.Prelude.{
  ℕ, zero, suc, ◌+◌, ◌≡◌, refl, String, none, some, List, [], ◌∷◌, true, false, length, str_eq,
  if◌then◌else◌, arith, Bool-cases, inl, inr, sym, ap, ◌<◌,
}
use bifrost_platform_plugin.Json.{Json, obj, str, end, field, empty_object}
use bifrost_platform_plugin.Client.{
  Answer, too_many, transport_error, answered, received, request, judge, Page, Target, from_start,
  at_url, Fetched, dict, Payload, merged, cursor_of, paginate,
}
use bifrost_platform_plugin.Client.Retries.{is_again, round, request_decided}
use bifrost_platform_plugin.Client.Resume.{joined, paginate-joined}

abbrev upper : String → String
upper s = s

abbrev show : Json → String
show v = ""

abbrev recovers : ℕ → Answer
recovers zero = too_many (some 1500)
recovers (suc zero) = transport_error
recovers (suc (suc n)) = answered 200 empty_object

abbrev unavailable : ℕ → Answer
unavailable n = answered 503 empty_object

sleeps : request upper show recovers 5 ≡ (received empty_object, 1500 ∷ 800 ∷ [])
unfolding request
sleeps = refl

-- An error in the body of an answer with status 200 is an error.
not_authorized :
    judge upper show 0 (answered 200 (obj (field "status" (str "NOT_AUTHORIZED") end)))
    ≡ judge upper show 3 (answered 200 (obj (field "status" (str "NOT_AUTHORIZED") end)))
unfolding judge
not_authorized = refl

request_decided_example :
    ((request upper show recovers 5).0 ≡ received empty_object)
    × (length (request upper show recovers 5).1 ≡ 2)
unfolding judge
request_decided_example =
    request_decided upper show recovers 5 2 (received empty_object) (omega arith) first_two refl
  where
    first_two : (j : ℕ) → j < 2 → is_again (round upper show recovers j) ≡ true
    first_two zero h = refl
    first_two (suc zero) h = refl
    first_two (suc (suc j)) h = absurd (omega arith)

-- An address is its cursor here.
abbrev query_of : String → List (String × String)
query_of url = ("cursor", url) ∷ []

abbrev page_at : String → Page ℕ
page_at c =
    if str_eq c "b"
    then record { results = 3 ∷ []; next_url = some "c" }
    else record { results = 4 ∷ 5 ∷ []; next_url = none }

abbrev serve : Target → Fetched ℕ
serve (from_start none) = dict (record { results = 1 ∷ 2 ∷ []; next_url = some "b" })
serve (from_start (some c)) = dict (page_at c)
serve (at_url u) = dict (page_at u)

abbrev first_two_pages : Payload ℕ
first_two_pages = record {
  results = 1 ∷ 2 ∷ 3 ∷ [];
  next_cursor = some "c";
  pages = 2;
  truncated = true;
}

abbrev last_page : Payload ℕ
last_page = record { results = 4 ∷ 5 ∷ []; next_cursor = none; pages = 1; truncated = false }

cursor-inj : (u c : String) → cursor_of query_of serve u ≡ some c → u ≡ c
unfolding cursor_of
cursor-inj u c h = elim (Bool-cases (str_eq u "")) [
  | inl t ↦ ground (arith, rw t at h)
  | inr f ↦ ap (λ o. elim o [ none ↦ u | some x ↦ x ]) (rw f at h)
]

paginate-joined_example :
    paginate query_of serve (2 + 4) none ≡ merged (joined first_two_pages last_page)
unfolding paginate cursor_of
paginate-joined_example =
    paginate-joined query_of serve 2 4 none "c" first_two_pages last_page
      (λ u k h. ap (λ x. dict (page_at x)) (sym (cursor-inj u k h))) refl refl refl
