-- ===== src/Freshness/Shape.antt =====
-- A job and the row of columns that stands for it name the same slot (freshness.py).
use bifrost_platform_plugin.Prelude.{
  ◌≡◌, refl, ◌∙◌, String, Option, none, some, Bool, true, false, not, ◌&&◌, ◌||◌, str_eq, arith,
}
use bifrost_platform_plugin.Json.{Json, null, bool, num, str, arr, obj, Fields, get, truthy}
use bifrost_platform_plugin.Freshness.{
  policed_slot_of_option_contract, policed_slot_for_job, column, shape_of, payload_from_shape,
  is_given, mode_fields,
}

-- What the slots enqueue: a mode is a text, `expired` a boolean, a date a text that is not empty,
-- and each of them may be missing or null.
abbrev pub plain_mode : Json → Bool
plain_mode null = true
plain_mode (str s) = true
plain_mode _ = false

abbrev pub plain_flag : Json → Bool
plain_flag null = true
plain_flag (bool b) = true
plain_flag _ = false

abbrev pub plain_date : Json → Bool
plain_date null = true
plain_date (str s) = not (str_eq s "")
plain_date _ = false

unfoldable pub is_plain : Fields → Bool
unfolding get
is_plain p =
    plain_mode (get "mode" p)
    && plain_flag (get "expired" p)
    && plain_date (get "expiration_date" p)
    && plain_date (get "expiration_date_gte" p)
    && plain_date (get "expiration_date_lte" p)

given-truthy :
    (print : Json → String) (v : Json) → plain_date v ≡ true → is_given print v ≡ truthy v
given-truthy print null h = refl
given-truthy print (str s) h = ground (arith, h)
given-truthy print (bool b) h = ground (arith, h)
given-truthy print (num n) h = ground (arith, h)
given-truthy print (arr xs) h = ground (arith, h)
given-truthy print (obj fs) h = ground (arith, h)

mode_of_shape :
    (print : Json → String) (v : Json) (expired : Option String) (dated : Bool)
    → plain_mode v ≡ true
    → get "mode" (payload_from_shape (column print v) expired dated) ≡ v
unfolding payload_from_shape get
mode_of_shape print null none true h = refl
mode_of_shape print null none false h = refl
mode_of_shape print null (some t) true h = refl
mode_of_shape print null (some t) false h = refl
mode_of_shape print (str s) expired dated h = refl
mode_of_shape print (bool b) expired dated h = ground (arith, h)
mode_of_shape print (num n) expired dated h = ground (arith, h)
mode_of_shape print (arr xs) expired dated h = ground (arith, h)
mode_of_shape print (obj fs) expired dated h = ground (arith, h)

get-mode_fields :
    (key : String) (mode : Option String) (rest : Fields)
    → str_eq "mode" key ≡ false
    → get key (mode_fields mode rest) ≡ get key rest
unfolding get
get-mode_fields key none rest h = refl
get-mode_fields key (some m) rest h = rw h refl

expired_of_shape :
    (print : Json → String) (v : Json) (dated : Bool)
    → plain_flag v ≡ true
    → get "expired" (payload_from_shape none (column print v) dated) ≡ v
unfolding payload_from_shape get
expired_of_shape print null true h = refl
expired_of_shape print null false h = refl
expired_of_shape print (bool true) dated h = refl
expired_of_shape print (bool false) dated h = refl
expired_of_shape print (str s) dated h = ground (arith, h)
expired_of_shape print (num n) dated h = ground (arith, h)
expired_of_shape print (arr xs) dated h = ground (arith, h)
expired_of_shape print (obj fs) dated h = ground (arith, h)

flag_of_shape :
    (print : Json → String) (v : Json) (mode : Option String) (dated : Bool)
    → plain_flag v ≡ true
    → get "expired" (payload_from_shape mode (column print v) dated) ≡ v
unfolding payload_from_shape
flag_of_shape print v mode dated h =
    get-mode_fields "expired" mode _ refl ∙ expired_of_shape print v dated h

dated_of_shape :
    (mode expired : Option String) (dated : Bool)
    → (truthy (get "expiration_date" (payload_from_shape mode expired dated))
        || truthy (get "expiration_date_gte" (payload_from_shape mode expired dated))
        || truthy (get "expiration_date_lte" (payload_from_shape mode expired dated)))
      ≡ dated
unfolding payload_from_shape get
dated_of_shape none none true = refl
dated_of_shape none none false = refl
dated_of_shape none (some t) true = refl
dated_of_shape none (some t) false = refl
dated_of_shape (some m) none true = refl
dated_of_shape (some m) none false = refl
dated_of_shape (some m) (some t) true = refl
dated_of_shape (some m) (some t) false = refl

-- All that the slot of a job depends on: its mode, its flag, and whether it carries a date.
same_shape :
    (kind : String) (p q : Fields)
    → get "mode" p ≡ get "mode" q
    → get "expired" p ≡ get "expired" q
    → (truthy (get "expiration_date" p)
        || truthy (get "expiration_date_gte" p)
        || truthy (get "expiration_date_lte" p))
      ≡ (truthy (get "expiration_date" q)
          || truthy (get "expiration_date_gte" q)
          || truthy (get "expiration_date_lte" q))
    → policed_slot_for_job kind p ≡ policed_slot_for_job kind q
unfolding policed_slot_for_job policed_slot_of_option_contract
same_shape kind p q mode expired dated = rw mode (rw expired (rw dated refl))

-- Where the mode is a text, `expired` a boolean and each date a text that is not empty, all of which
-- may be missing or null: the payload that is rebuilt from the job's columns names the same slot as
-- the payload itself, whatever the kind.
pub policed_slot_for_job-payload_from_shape :
    (print : Json → String) (kind : String) (p : Fields)
    → is_plain p ≡ true
    → policed_slot_for_job kind
        (payload_from_shape (shape_of print p).0 (shape_of print p).1 (shape_of print p).2)
      ≡ policed_slot_for_job kind p
unfolding get shape_of is_plain
policed_slot_for_job-payload_from_shape print kind p h =
    let mode = column print (get "mode" p) in
    let expired = column print (get "expired" p) in
    let dated = (shape_of print p).2 in
    let of_mode : plain_mode (get "mode" p) ≡ true = ground (arith, h) in
    let of_flag : plain_flag (get "expired" p) ≡ true = ground (arith, h) in
    let one : plain_date (get "expiration_date" p) ≡ true = ground (arith, h) in
    let two : plain_date (get "expiration_date_gte" p) ≡ true = ground (arith, h) in
    let three : plain_date (get "expiration_date_lte" p) ≡ true = ground (arith, h) in
    same_shape kind (payload_from_shape mode expired dated) p
      (mode_of_shape print (get "mode" p) expired dated of_mode)
      (flag_of_shape print (get "expired" p) mode dated of_flag)
      (dated_of_shape mode expired dated
        ∙ rw (given-truthy print (get "expiration_date" p) one) (
            rw (given-truthy print (get "expiration_date_gte" p) two)
              (rw (given-truthy print (get "expiration_date_lte" p) three) refl)))
