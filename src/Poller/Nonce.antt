-- ===== src/Poller/Nonce.antt =====
-- canister_poller.rs, `get_nonce_from_message`: the number at the end of a message's key.
-- Keys are lists of bytes; the separator and the digits are ASCII.
use ic_websocket_gateway.Prelude.{
  ℕ, zero, suc, ◌+◌, ◌-◌, ◌*◌, ◌/◌, ◌%◌, ◌^◌, ◌≤◌, ◌<◌, ◌≡◌, ◌≢◌, refl, ◌⊎◌, inl, inr, Bool, ◌&&◌,
  List, [], ◌∷◌, ◌++◌, Option, none, some, arith, ltb, leb, ◌==◌, if◌then◌else◌, All, Result, ok,
  err, Bool-cases, ◌∙◌, Result-cases,
}
use ic_websocket_gateway.CanisterUtils.{Bytes}

-- `str::split` at a character, and `Iterator::last`.
push_head : ℕ → List Bytes → List Bytes
push_head c [] = (c ∷ []) ∷ []
push_head c (w ∷ ws) = (c ∷ w) ∷ ws

unfoldable pub split : ℕ → Bytes → List Bytes
unfolding push_head
split sep [] = [] ∷ []
split sep (c ∷ s) = if c == sep then [] ∷ split sep s else push_head c (split sep s)

unfoldable pub last {ℓ} : {A : Type ℓ} → List A → Option A
last [] = none
last (x ∷ []) = some x
last (x ∷ y ∷ l) = last (y ∷ l)

-- `u64::from_str`: an optional plus sign, then decimal digits.
pub data ParseIntError : Type 0 where
  no_digits invalid_digit pos_overflow : ParseIntError

abbrev pub u64_mod : ℕ
u64_mod = 2 ^ 64

abbrev is_digit : ℕ → Bool
is_digit c = leb b'0' c && leb c b'9'

parse_digits : ℕ → Bytes → Result ℕ ParseIntError
parse_digits acc [] = ok acc
parse_digits acc (c ∷ s) =
    if is_digit c
    then (if ltb (acc * 10 + (c - b'0')) u64_mod
        then parse_digits (acc * 10 + (c - b'0')) s
        else err pos_overflow)
    else err invalid_digit

unsigned_digits : Bytes → Result ℕ ParseIntError
unfolding parse_digits
unsigned_digits [] = err no_digits
unsigned_digits (c ∷ s) = parse_digits 0 (c ∷ s)

after_plus : Bytes → Result ℕ ParseIntError
unfolding parse_digits
after_plus [] = err invalid_digit
after_plus (c ∷ s) = parse_digits 0 (c ∷ s)

unfoldable pub parse_u64 : Bytes → Result ℕ ParseIntError
unfolding unsigned_digits after_plus
parse_u64 [] = err no_digits
parse_u64 (c ∷ s) = if c == b'+' then after_plus s else unsigned_digits (c ∷ s)

pub data NonceError : Type 0 where
  could_not_parse : ParseIntError → NonceError
  not_formatted : NonceError

unfoldable pub get_nonce_from_message : Bytes → Result ℕ NonceError
unfolding split last parse_u64
get_nonce_from_message key = elim (last (split b'_' key)) [
  | none ↦ err not_formatted
  | some message_nonce_str ↦ elim (parse_u64 message_nonce_str) [
    | ok message_nonce ↦ ok message_nonce
    | err e ↦ err (could_not_parse e)
  ]
]

-- The decimal form of a number, by `f` divisions at most.
print_onto : ℕ → ℕ → Bytes → Bytes
print_onto zero n s = s
print_onto (suc f) n s =
    let rest = print_onto f (n / 10) ((b'0' + n % 10) ∷ s) in
    if ltb n 10 then (b'0' + n) ∷ s else rest

unfoldable pub print : ℕ → Bytes
unfolding print_onto
print n = print_onto (suc n) n []

-- The form that the CDK gives to a message's key.
abbrev pub message_key : Bytes → ℕ → Bytes
message_key gateway_principal nonce = gateway_principal ++ b'_' ∷ print nonce

parse_digits-print_onto :
    (f n : ℕ) (s : Bytes)
    → n < f
    → n < u64_mod
    → parse_digits 0 (print_onto f n s) ≡ parse_digits n s
unfolding parse_digits print_onto
parse_digits-print_onto zero n s h small = elim h [ ]
parse_digits-print_onto (suc f) n s h small =
    ground (arith, parse_digits-print_onto f (n / 10) ((b'0' + n % 10) ∷ s))

-- A decimal form begins with a digit, so with no sign, and holds no separator.
abbrev IsDecimal : Bytes → Type 0
IsDecimal [] = ⊥
IsDecimal (c ∷ s) = (b'0' ≤ c) × (c ≤ b'9') × All (λ d. d ≢ b'_') s

print_onto-IsDecimal :
    (f n : ℕ) (s : Bytes) → n < f → All (λ d. d ≢ b'_') s → IsDecimal (print_onto f n s)
unfolding print_onto
print_onto-IsDecimal zero n s h clean = elim h [ ]
print_onto-IsDecimal (suc f) n s h clean = elim (Bool-cases (ltb n 10)) [
  | inl small ↦ rw small ((omega arith, ground arith, clean))
  | inr big ↦
      rw big
        (print_onto-IsDecimal f (n / 10) ((b'0' + n % 10) ∷ s) (ground arith) (omega arith, clean))
]

last-split_clean : (s : Bytes) → All (λ d. d ≢ b'_') s → split b'_' s ≡ s ∷ []
unfolding split push_head
last-split_clean [] h = refl
last-split_clean (c ∷ s) h = ground (arith, last-split_clean s h.1)

split_key :
    (p s : Bytes)
    → All (λ d. d ≢ b'_') s
    → (w v : Bytes) × (l : List Bytes) × (split b'_' (p ++ b'_' ∷ s) ≡ w ∷ v ∷ l)
      × (last (v ∷ l) ≡ some s)
unfolding split push_head last
split_key [] s clean = ([], s, [], rw (last-split_clean s clean), refl)
split_key (c ∷ p) s clean =
    let (w, v, l, parts, ends) = split_key p s clean in
    elim (Bool-cases (c == b'_')) [
      | inl at ↦ ([], w, v ∷ l, rw (at, parts), ends)
      | inr away ↦ (c ∷ w, v, l, rw (away, parts), ends)
    ]

parse_u64_decimal : (s : Bytes) → IsDecimal s → parse_u64 s ≡ parse_digits 0 s
unfolding parse_u64 unsigned_digits after_plus
parse_u64_decimal [] d = elim d [ ]
parse_u64_decimal (c ∷ s) d = ground arith

IsDecimal-clean : (s : Bytes) → IsDecimal s → All (λ d. d ≢ b'_') s
IsDecimal-clean [] d = tt
IsDecimal-clean (c ∷ s) d = (omega arith, d.2)

print-IsDecimal : (n : ℕ) → IsDecimal (print n)
unfolding print
print-IsDecimal n = print_onto-IsDecimal (suc n) n [] (omega arith) tt

parse_u64-print : (n : ℕ) → n < u64_mod → parse_u64 (print n) ≡ ok n
unfolding print parse_digits
parse_u64-print n h =
    parse_u64_decimal (print n) (print-IsDecimal n)
    ∙ parse_digits-print_onto (suc n) n [] (omega arith) h

get_nonce_of_parts :
    (key : Bytes) (w v s : Bytes) (l : List Bytes)
    → split b'_' key ≡ w ∷ v ∷ l
    → last (v ∷ l) ≡ some s
    → get_nonce_from_message key
      ≡ (elim (parse_u64 s) [ ok n ↦ ok n | err e ↦ err (could_not_parse e) ])
unfolding get_nonce_from_message last
get_nonce_of_parts key w v s l parts ends = rw (parts, get_nonce_from_message, ends)

-- The nonce of a key that the CDK has made, a prefix, an underscore and a decimal number, is
-- exactly this number, whatever the prefix holds, if the number fits 64 bits.
pub get_nonce-message_key :
    (gateway_principal : Bytes) (nonce : ℕ)
    → nonce < u64_mod
    → get_nonce_from_message (message_key gateway_principal nonce) ≡ ok nonce
get_nonce-message_key p n h =
    let (w, v, l, parts, ends) =
      split_key p (print n) (IsDecimal-clean (print n) (print-IsDecimal n)) in
    get_nonce_of_parts _ w v (print n) l parts ends ∙ rw (parse_u64-print n h)

split_cons : (sep : ℕ) (s : Bytes) → (w : Bytes) × (l : List Bytes) × (split sep s ≡ w ∷ l)
unfolding split push_head
split_cons sep [] = ([], [], refl)
split_cons sep (c ∷ s) =
    let (w, l, parts) = split_cons sep s in
    elim (Bool-cases (c == sep)) [
      | inl at ↦ ([], split sep s, rw at)
      | inr away ↦ (c ∷ w, l, rw (away, parts))
    ]

last_cons {ℓ} : {A : Type ℓ} (x : A) (l : List A) → (y : A) × (last (x ∷ l) ≡ some y)
unfolding last
last_cons x [] = (x, refl)
last_cons x (y ∷ l) = last_cons y l

parse_digits-lt :
    (acc : ℕ) (s : Bytes) (n : ℕ) → acc < u64_mod → parse_digits acc s ≡ ok n → n < u64_mod
unfolding parse_digits
parse_digits-lt acc [] n h e = ground arith
parse_digits-lt acc (c ∷ s) n h e = ground (arith, parse_digits-lt (acc * 10 + (c - b'0')) s n)

parse_u64-lt : (s : Bytes) (n : ℕ) → parse_u64 s ≡ ok n → n < u64_mod
unfolding parse_u64 unsigned_digits after_plus
parse_u64-lt [] n e = ground arith
parse_u64-lt (c ∷ []) n e = ground (arith, parse_digits-lt 0 (c ∷ []) n)
parse_u64-lt (c ∷ d ∷ s) n e =
    ground (arith, parse_digits-lt 0 (c ∷ d ∷ s) n, parse_digits-lt 0 (d ∷ s) n)

-- Every nonce that is read fits 64 bits, and the error for a key that is not formatted correctly is
-- never returned: a key that yields no nonce fails to parse as a number.
pub get_nonce_total :
    (key : Bytes)
    → ((n : ℕ) × (get_nonce_from_message key ≡ ok n) × (n < u64_mod))
      ⊎ ((e : ParseIntError) × (get_nonce_from_message key ≡ err (could_not_parse e)))
unfolding get_nonce_from_message
get_nonce_total key =
    let (w, l, parts) = split_cons b'_' key in
    let (s, ends) = last_cons w l in
    elim (Result-cases (parse_u64 s)) [
      | inl (n, e) ↦ inl (
        n,
        rw (parts, get_nonce_from_message, ends, get_nonce_from_message, e),
        parse_u64-lt s n e,
      )
      | inr (e, f) ↦ inr (e, rw (parts, get_nonce_from_message, ends, get_nonce_from_message, f))
    ]
