-- ===== src/Pool/Owners.antt =====
-- Who owns a connection of worker/pool.py, over every interleaving of the threads' steps.
use bifrost_platform_plugin.Prelude.{
  ℕ, suc, ◌+◌, ◌≤◌, ◌≡◌, refl, ap, List, [], ◌∷◌, ◌++◌, Bool, true, false, length, length-append,
  leb, ◌==◌, if◌then◌else◌, arith, Bool-cases, inl, inr, ==_iff,
}
use bifrost_platform_plugin.Prelude.Int.{ℤ, pos, negsuc}
use bifrost_platform_plugin.Pool.{
  ConnectionPool, new_pool, without, popleft, close_quietly, connect_new, put_back, close_idle,
}

unfoldable pub count : ℕ → List ℕ → ℕ
count c [] = 0
count c (x ∷ xs) = let rest = count c xs in if x == c then suc rest else rest

pub count-append : (c : ℕ) (xs ys : List ℕ) → count c (xs ++ ys) ≡ count c xs + count c ys
unfolding count
count-append c [] ys = omega arith
count-append c (x ∷ xs) ys = ground (arith, count-append c xs ys)

pub count-without_le : (c d : ℕ) (xs : List ℕ) → count c (without d xs) ≤ count c xs
unfolding count
count-without_le c d [] = omega arith
count-without_le c d (x ∷ xs) = ground (arith, count-without_le c d xs)

pub count-without_own : (c : ℕ) (xs : List ℕ) → count c (without c xs) ≡ 0
unfolding count
count-without_own c [] = refl
count-without_own c (x ∷ xs) = ground (arith, count-without_own c xs)

-- How many places hold a connection.
abbrev pub owners : ℕ → ConnectionPool → ℕ
owners c p = count c p.idle + count c p.held

pub record Sound (p : ConnectionPool) : Type 0 where
  pub exclusive : (c : ℕ) → owners c p ≤ 1
  pub numbered : (c : ℕ) → p.opened ≤ c → owners c p ≡ 0
  pub bounded : length p.idle ≤ p.size

-- One step of some thread. Only the owner of a connection puts it back.
pub data Step : ConnectionPool → ConnectionPool → Type 0 where
  pops : {p : ConnectionPool} → Step p (popleft p)
  closes : {p : ConnectionPool} (c : ℕ) → Step p (close_quietly c p)
  connects : {p : ConnectionPool} (up : Bool) → Step p (connect_new up p).1
  puts_back : {p : ConnectionPool} (c : ℕ) → 1 ≤ count c p.held → Step p (put_back c p).1
  clears : {p : ConnectionPool} → Step p (close_idle p)

pub data Reach (p : ConnectionPool) : ConnectionPool → Type 0 where
  stay : Reach p p
  next : {q r : ConnectionPool} → Reach p q → Step q r → Reach p r

popleft-Sound : (p : ConnectionPool) → Sound p → Sound (popleft p)
unfolding popleft count
popleft-Sound p s =
    elim p.idle
        as (λ xs.
          xs ≡ p.idle
          → Sound (elim xs [ [] ↦ p | c ∷ cs ↦ record p { idle = cs; held = c ∷ p.held } ])) [
            | [] ↦ λ e. s
            | c ∷ cs ↦ λ e. record {
              exclusive = λ d. ground (arith, s.exclusive d, ap (count d) e);
              numbered = λ d h. ground (arith, s.numbered d h, ap (count d) e);
              bounded = omega (arith, s.bounded, ap length e);
            }
          ]
      refl

close_quietly-Sound : (p : ConnectionPool) (c : ℕ) → Sound p → Sound (close_quietly c p)
unfolding close_quietly
close_quietly-Sound p c s = record {
  exclusive = λ d. omega (arith, s.exclusive d, count-without_le d c p.held);
  numbered = λ d h. omega (arith, s.numbered d h, count-without_le d c p.held);
  bounded = s.bounded;
}

connect_new-Sound : (p : ConnectionPool) (up : Bool) → Sound p → Sound (connect_new up p).1
unfolding connect_new count
connect_new-Sound p false s = record {
  exclusive = s.exclusive;
  numbered = λ d h. s.numbered d (omega arith);
  bounded = s.bounded;
}
connect_new-Sound p true s = record {
  exclusive = λ d. ground (arith, s.exclusive d, s.numbered p.opened (omega arith));
  numbered = λ d h. ground (arith, s.numbered d (omega arith));
  bounded = s.bounded;
}

count-moved :
    (d c : ℕ) (idle held : List ℕ)
    → 1 ≤ count c held
    → count d (idle ++ c ∷ []) + count d (without c held) ≤ count d idle + count d held
unfolding count
count-moved d c idle held h = elim (Bool-cases (c == d)) [
  | inl t ↦
      let e : c ≡ d = (==_iff c d).0 t in
      let one : count d (c ∷ []) ≡ 1 = ground (arith, t) in
      let own : count d (without c held) ≡ 0 = rw e (count-without_own d held) in
      let most : 1 ≤ count d held = rw e at h in
      omega (arith, count-append d idle (c ∷ []), one, own, most)
  | inr f ↦
      let zero_of : count d (c ∷ []) ≡ 0 = ground (arith, f) in
      omega (arith, count-append d idle (c ∷ []), zero_of, count-without_le d c held)
]

put_back-Sound :
    (p : ConnectionPool) (c : ℕ) → 1 ≤ count c p.held → Sound p → Sound (put_back c p).1
unfolding put_back
put_back-Sound p c h s = elim (Bool-cases (leb p.size (length p.idle))) [
  | inl t ↦ rw t s
  | inr f ↦ rw f (record {
    exclusive = λ d. omega (arith, s.exclusive d, count-moved d c p.idle p.held h);
    numbered = λ d k. omega (arith, s.numbered d k, count-moved d c p.idle p.held h);
    bounded = ground (arith, f, length-append p.idle (c ∷ []));
  })
]

pub Step-Sound : (p q : ConnectionPool) → Step p q → Sound p → Sound q
unfolding close_idle count
Step-Sound p _ pops s = popleft-Sound p s
Step-Sound p _ (closes c) s = close_quietly-Sound p c s
Step-Sound p _ (connects up) s = connect_new-Sound p up s
Step-Sound p _ (puts_back c h) s = put_back-Sound p c h s
Step-Sound p _ clears s = record {
  exclusive = λ d. omega (arith, s.exclusive d);
  numbered = λ d h. omega (arith, s.numbered d h);
  bounded = omega arith;
}

pub Reach-Sound : (p q : ConnectionPool) → Reach p q → Sound p → Sound q
Reach-Sound p _ stay s = s
Reach-Sound p r (next {q} h k) s = Step-Sound q r k (Reach-Sound p q h s)

new_pool-Sound : (size : ℤ) → Sound (new_pool size)
unfolding new_pool count
new_pool-Sound (pos n) = record {
  exclusive = λ d. omega arith;
  numbered = λ d h. omega arith;
  bounded = omega arith;
}
new_pool-Sound (negsuc n) = record {
  exclusive = λ d. omega arith;
  numbered = λ d h. omega arith;
  bounded = omega arith;
}

-- However the steps of the threads are interleaved: from a new pool of whatever size, no connection
-- is idle or owned twice, or idle and owned at once, and no more connections are idle than the size.
pub new_pool-Reach :
    (size : ℤ) (p : ConnectionPool)
    → Reach (new_pool size) p
    → ((c : ℕ) → count c p.idle + count c p.held ≤ 1) × (length p.idle ≤ p.size)
new_pool-Reach size p h =
    let s = Reach-Sound (new_pool size) p h (new_pool-Sound size) in (s.exclusive, s.bounded)
