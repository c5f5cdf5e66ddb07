-- ===== src/Client/Retries.antt =====
-- The retries of `_request` in polygon/client.py.
use bifrost_platform_plugin.Prelude.{
  ℕ, zero, suc, ◌+◌, ◌<◌, ◌≡◌, refl, sym, ap, ◌∙◌, String, none, Bool, true, false, length, arith,
}
use bifrost_platform_plugin.Json.{Json}
use bifrost_platform_plugin.Client.{
  Answer, ApiError, Requested, api_error, Round, again, decided, judge, exhausted_retries,
  request_loop, request,
}

abbrev pub is_again : Round → Bool
is_again (again e wait) = true
is_again (decided r) = false

abbrev nothing_yet : ApiError
nothing_yet = record { message = exhausted_retries; status_code = none }

is_again-cases : (r : Round) → is_again r ≡ true → (e : ApiError) × (wait : ℕ) × (r ≡ again e wait)
is_again-cases (again e wait) h = (e, wait, refl)
is_again-cases (decided r) h = ground (arith, h)

module _ (upper : String → String) (show : Json → String) (server : ℕ → Answer) where
  abbrev pub round : ℕ → Round
  unfolding judge
  round i = judge upper show i (server i)

  loop_decided :
      (k left attempt : ℕ) (last : ApiError) (r : Requested)
      → k < left
      → ((j : ℕ) → j < k → is_again (round (attempt + j)) ≡ true)
      → round (attempt + k) ≡ decided r
      → ((request_loop upper show server left attempt last).0 ≡ r)
        × (length (request_loop upper show server left attempt last).1 ≡ k)
  unfolding request_loop round
  loop_decided k zero attempt last r lt before e = absurd (omega (arith, lt))
  loop_decided zero (suc left) attempt last r lt before e =
      let here : attempt + 0 ≡ attempt = omega arith in rw (sym (ap round here) ∙ e) (refl, refl)
  loop_decided (suc k) (suc left) attempt last r lt before e =
      let (failure, wait, first) = is_again-cases (round (attempt + 0)) (before 0 (omega arith)) in
      let here : attempt + 0 ≡ attempt = omega arith in
      let there : attempt + suc k ≡ attempt + 1 + k = omega arith in
      let (same, count) =
        loop_decided k left (attempt + 1) failure r (omega (arith, lt))
          (λ j h.
            let shift : attempt + suc j ≡ attempt + 1 + j = omega arith in
            rw shift at (before (suc j) (omega (arith, h))))
          (sym (ap round there) ∙ e) in
      rw (sym (ap round here) ∙ first) (same, ap suc count)

  loop_exhausted :
      (left attempt : ℕ) (last failure : ApiError) (wait : ℕ)
      → ((j : ℕ) → j < left → is_again (round (attempt + j)) ≡ true)
      → round (attempt + left) ≡ again failure wait
      → ((request_loop upper show server (suc left) attempt last).0 ≡ api_error failure)
        × (length (request_loop upper show server (suc left) attempt last).1 ≡ suc left)
  unfolding request_loop round
  loop_exhausted zero attempt last failure wait before e =
      let here : attempt + 0 ≡ attempt = omega arith in rw (sym (ap round here) ∙ e) (refl, refl)
  loop_exhausted (suc left) attempt last failure wait before e =
      let (failure', wait', first) =
        is_again-cases (round (attempt + 0)) (before 0 (omega arith)) in
      let here : attempt + 0 ≡ attempt = omega arith in
      let there : attempt + suc left ≡ attempt + 1 + left = omega arith in
      let (same, count) =
        loop_exhausted left (attempt + 1) failure' failure wait
          (λ j h.
            let shift : attempt + suc j ≡ attempt + 1 + j = omega arith in
            rw shift at (before (suc j) (omega (arith, h))))
          (sym (ap round there) ∙ e) in
      rw (sym (ap round here) ∙ first) (same, ap suc count)

  -- If the first attempts are to be repeated and the next, within the limit, decides, then that
  -- decision is the answer: neither an earlier failure nor a later answer of the vendor counts, and
  -- the client has slept once for each attempt that failed.
  pub request_decided :
      (max_retries k : ℕ) (r : Requested)
      → k < max_retries
      → ((j : ℕ) → j < k → is_again (round j) ≡ true)
      → round k ≡ decided r
      → ((request upper show server max_retries).0 ≡ r)
        × (length (request upper show server max_retries).1 ≡ k)
  unfolding request
  request_decided max_retries k r lt before e =
      let none_before : (j : ℕ) → 0 + j ≡ j = λ j. omega arith in
      loop_decided k max_retries 0 nothing_yet r lt
        (λ j h. ap is_again (ap round (none_before j)) ∙ before j h) (ap round (none_before k) ∙ e)

  -- If every attempt within the limit is to be repeated, the request raises the failure of the last
  -- one, after as many sleeps as attempts.
  pub request_exhausted :
      (more : ℕ) (failure : ApiError) (wait : ℕ)
      → ((j : ℕ) → j < more → is_again (round j) ≡ true)
      → round more ≡ again failure wait
      → ((request upper show server (suc more)).0 ≡ api_error failure)
        × (length (request upper show server (suc more)).1 ≡ suc more)
  unfolding request
  request_exhausted more failure wait before e =
      let none_before : (j : ℕ) → 0 + j ≡ j = λ j. omega arith in
      loop_exhausted more 0 nothing_yet failure wait
        (λ j h. ap is_again (ap round (none_before j)) ∙ before j h)
        (ap round (none_before more) ∙ e)
