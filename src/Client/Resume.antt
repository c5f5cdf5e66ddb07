-- ===== src/Client/Resume.antt =====
-- Paging by `next_cursor` in polygon/client.py: a run that stopped at its limit, and the run that
-- goes on from its cursor, together give what one longer run gives.
use bifrost_platform_plugin.Prelude.{
  ℕ, zero, suc, ◌+◌, ◌≤◌, ◌≡◌, refl, sym, ap, ◌∙◌, String, Option, none, some, List, [], ◌∷◌, ◌++◌,
  Bool, true, false, not, ◌&&◌, str_eq, arith, Bool-cases, inl, inr,
}
use bifrost_platform_plugin.Client.{
  Page, Target, from_start, at_url, Fetched, dict, bare, other, refused, Payload, Paginated, merged,
  bare_list, unexpected, value_error, failed, cursor_in, cursor_of, payload_of, with_page, follow,
  first_page, given, paginate,
}

append_assoc : {A : Type 0} (xs ys zs : List A) → xs ++ ys ++ zs ≡ xs ++ (ys ++ zs)
append_assoc [] ys zs = refl
append_assoc (x ∷ xs) ys zs = ap (λ rest. x ∷ rest) (append_assoc xs ys zs)

-- Two payloads, the second of which went on where the first one stopped.
abbrev pub joined : {A : Type 0} → Payload A → Payload A → Payload A
joined a b = record {
  results = a.results ++ b.results;
  next_cursor = b.next_cursor;
  pages = a.pages + b.pages;
  truncated = b.truncated;
}

abbrev payload_or : {A : Type 0} → Payload A → Paginated A → Payload A
payload_or d (merged a) = a
payload_or d (bare_list xs) = d
payload_or d unexpected = d
payload_or d value_error = d
payload_or d (failed e) = d

merged_inj : {A : Type 0} (a b : Payload A) → merged a ≡ merged b → a ≡ b
merged_inj a b e = ap (payload_or a) e

abbrev is_merged : {A : Type 0} → Paginated A → Bool
is_merged (merged a) = true
is_merged (bare_list xs) = false
is_merged unexpected = false
is_merged value_error = false
is_merged (failed e) = false

abbrev after : {A : Type 0} → ℕ → List A → Paginated A → Paginated A
after pages xs (merged b) = merged (record b { results = xs ++ b.results; pages = pages + b.pages })
after pages xs (bare_list ys) = bare_list ys
after pages xs unexpected = unexpected
after pages xs value_error = value_error
after pages xs (failed e) = failed e

no_cursor : {P : Type 0} (o : Option String) (c : String) → o ≡ none → o ≡ some c → P
no_cursor none c e n = ground (arith, n)
no_cursor (some x) c e n = ground (arith, e)

cursor_in-filled :
    (q : List (String × String)) (c : String) → cursor_in q ≡ some c → str_eq c "" ≡ false
cursor_in-filled [] c h = ground (arith, h)
cursor_in-filled (kv ∷ q) c h = elim (Bool-cases (str_eq kv.0 "cursor" && not (str_eq kv.1 ""))) [
  | inl t ↦
      let e : some kv.1 ≡ some c = rw t at h in
      let same : kv.1 ≡ c = ap (λ o. elim o [ none ↦ c | some x ↦ x ]) e in
      let is_filled : str_eq kv.1 "" ≡ false = ground (arith, t) in rw same at is_filled
  | inr f ↦ cursor_in-filled q c (rw f at h)
]

module _ {A : Type 0} (query_of : String → List (String × String))
    (serve : Target → Fetched A) where
  with_page-merged :
      (k : Page A → Paginated A) (f : Fetched A) (a : Payload A)
      → with_page query_of serve k f ≡ merged a
      → (p : Page A) × (f ≡ dict p) × (k p ≡ merged a)
  with_page-merged k (dict p) a h = (p, refl, h)
  with_page-merged k (bare xs) a h = ground (arith, ap is_merged h)
  with_page-merged k other a h = ground (arith, ap is_merged h)
  with_page-merged k (refused e) a h = ground (arith, ap is_merged h)

  -- What was collected before does not change how a run goes on.
  follow-joined :
      (left : ℕ) (pages more : ℕ) (xs ys : List A) (url : Option String) (b : Payload A)
      → follow query_of serve left more ys url ≡ merged b
      → follow query_of serve left (pages + more) (xs ++ ys) url
        ≡ merged (record b { results = xs ++ b.results; pages = pages + b.pages })
  unfolding follow payload_of
  follow-joined zero pages more xs ys none b h = ap (after pages xs) h
  follow-joined zero pages more xs ys (some url) b h = ap (after pages xs) h
  follow-joined (suc left) pages more xs ys none b h = ap (after pages xs) h
  follow-joined (suc left) pages more xs ys (some url) b h =
      let k : Page A → Paginated A =
        λ p. follow query_of serve left (more + 1) (ys ++ p.results) p.next_url in
      let (p, e, r) = with_page-merged k (serve (at_url url)) b h in
      let count : pages + more + 1 ≡ pages + (more + 1) = omega arith in
      rw e (
        rw count (
          rw (append_assoc xs ys p.results)
            (follow-joined left pages (more + 1) xs (ys ++ p.results) p.next_url b r)))

  -- A run that stopped with a cursor stopped at an address with that cursor, and a longer run goes
  -- on from there.
  follow-truncated :
      (left more pages : ℕ) (xs : List A) (url : Option String) (a : Payload A) (c : String)
      → follow query_of serve left pages xs url ≡ merged a
      → a.next_cursor ≡ some c
      → (u : String) × (cursor_of query_of serve u ≡ some c)
        × (follow query_of serve (left + more) pages xs url
            ≡ follow query_of serve more a.pages a.results (some u))
  unfolding follow payload_of
  follow-truncated zero more pages xs none a c h n =
      no_cursor a.next_cursor c (sym (ap (λ q. q.next_cursor) (merged_inj _ a h))) n
  follow-truncated zero more pages xs (some url) a c h n =
      let e = merged_inj (payload_of query_of serve xs pages (some url)) a h in
      let none_left : 0 + more ≡ more = omega arith in
      (
        url,
        ap (λ q. q.next_cursor) e ∙ n,
        rw none_left (ap (λ q. follow query_of serve more q.pages q.results (some url)) e),
      )
  follow-truncated (suc left) more pages xs none a c h n =
      no_cursor a.next_cursor c (sym (ap (λ q. q.next_cursor) (merged_inj _ a h))) n
  follow-truncated (suc left) more pages xs (some url) a c h n =
      let k : Page A → Paginated A =
        λ p. follow query_of serve left (pages + 1) (xs ++ p.results) p.next_url in
      let (p, e, r) = with_page-merged k (serve (at_url url)) a h in
      let (u, cu, go) =
        follow-truncated left more (pages + 1) (xs ++ p.results) p.next_url a c r n in
      let one_more : suc left + more ≡ suc (left + more) = omega arith in
      (u, cu, rw one_more (rw e go))

  first_page-merged :
      (k : Page A → Paginated A) (f : Fetched A) (a : Payload A)
      → first_page query_of serve k f ≡ merged a
      → (p : Page A) × (f ≡ dict p) × (k p ≡ merged a)
  first_page-merged k (dict p) a h = (p, refl, h)
  first_page-merged k (bare xs) a h = ground (arith, ap is_merged h)
  first_page-merged k other a h = ground (arith, ap is_merged h)
  first_page-merged k (refused e) a h = ground (arith, ap is_merged h)

  -- Where the vendor serves for a cursor what it serves for the address that carries it: if a run
  -- of up to m pages stopped at its limit with a cursor, and a run of up to n pages goes on from
  -- that cursor, then one run of up to m + n pages returns the results of both, in order, the
  -- pages of both together, and the second one's cursor.
  pub paginate-joined :
      (m n : ℕ) (start : Option String) (c : String) (a b : Payload A)
      → ((u k : String)
          → cursor_of query_of serve u ≡ some k
          → serve (from_start (some k)) ≡ serve (at_url u))
      → paginate query_of serve m start ≡ merged a
      → a.next_cursor ≡ some c
      → paginate query_of serve n (some c) ≡ merged b
      → paginate query_of serve (m + n) start ≡ merged (joined a b)
  unfolding paginate cursor_of follow
  paginate-joined zero n start c a b vendor h cur g = ground (arith, ap is_merged h)
  paginate-joined (suc m) zero start c a b vendor h cur g = ground (arith, ap is_merged g)
  paginate-joined (suc m) (suc n) start c a b vendor h cur g =
      let k : Page A → Paginated A = λ p. follow query_of serve m 1 p.results p.next_url in
      let (p, e, r) = first_page-merged k (serve (from_start (given query_of serve start))) a h in
      let (u, cu, go) = follow-truncated m (suc n) 1 p.results p.next_url a c r cur in
      let k2 : Page A → Paginated A = λ q. follow query_of serve n 1 q.results q.next_url in
      let resumed = given query_of serve (some c) in
      let (q, e2, r2) = first_page-merged k2 (serve (from_start resumed)) b g in
      let at_c : resumed ≡ some c = rw (cursor_in-filled (query_of u) c cu) refl in
      let page_at : serve (at_url u) ≡ dict q =
        sym (vendor u c cu) ∙ sym (ap (λ o. serve (from_start o)) at_c) ∙ e2 in
      let total : suc m + suc n ≡ suc (m + suc n) = omega arith in
      rw total
        (rw e (go ∙ rw page_at (follow-joined n a.pages 1 a.results q.results q.next_url b r2)))

  follow-pages :
      (left pages : ℕ) (xs : List A) (url : Option String) (a : Payload A)
      → follow query_of serve left pages xs url ≡ merged a
      → (pages ≤ a.pages) × (a.pages ≤ pages + left) × (a.truncated ≡ true → a.pages ≡ pages + left)
  unfolding follow payload_of
  follow-pages zero pages xs none a h =
      let e = ap (λ q. q.pages) (merged_inj (payload_of query_of serve xs pages none) a h) in
      (omega (arith, e), omega (arith, e), λ t. omega (arith, e))
  follow-pages zero pages xs (some url) a h =
      let e = ap (λ q. q.pages) (merged_inj (payload_of query_of serve xs pages (some url)) a h) in
      (omega (arith, e), omega (arith, e), λ t. omega (arith, e))
  follow-pages (suc left) pages xs none a h =
      let e = merged_inj (payload_of query_of serve xs pages none) a h in
      let count = ap (λ q. q.pages) e in
      (
        omega (arith, count),
        omega (arith, count),
        λ t. absurd (ground (arith, ap (λ q. q.truncated) e, t)),
      )
  follow-pages (suc left) pages xs (some url) a h =
      let k : Page A → Paginated A =
        λ p. follow query_of serve left (pages + 1) (xs ++ p.results) p.next_url in
      let (p, e, r) = with_page-merged k (serve (at_url url)) a h in
      let (lo, hi, full) = follow-pages left (pages + 1) (xs ++ p.results) p.next_url a r in
      (omega (arith, lo), omega (arith, hi), λ t. omega (arith, full t))

  -- A listing that returns has read at least one page and at most the limit, and it is marked as
  -- truncated only where the limit was used up.
  pub paginate-pages :
      (max_pages : ℕ) (start : Option String) (a : Payload A)
      → paginate query_of serve max_pages start ≡ merged a
      → (1 ≤ a.pages) × (a.pages ≤ max_pages) × (a.truncated ≡ true → a.pages ≡ max_pages)
  unfolding paginate
  paginate-pages zero start a h = ground (arith, ap is_merged h)
  paginate-pages (suc more) start a h =
      let k : Page A → Paginated A = λ p. follow query_of serve more 1 p.results p.next_url in
      let (p, e, r) = first_page-merged k (serve (from_start (given query_of serve start))) a h in
      let (lo, hi, full) = follow-pages more 1 p.results p.next_url a r in
      (lo, omega (arith, hi), λ t. omega (arith, full t))
