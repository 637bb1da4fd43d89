-- ===== src/Common/Decimal.antt =====
-- Unsigned numbers in decimal: how they are printed, and `str::parse::<u32>`.
use laya_codex.Common.{
  ℕ, zero, suc, ◌+◌, ◌-◌, ◌*◌, ◌/◌, ◌%◌, ◌^◌, ◌<◌, ◌≡◌, refl, ◌∙◌, ap, fun_ext, ltb→lt, false, ◌&&◌,
  Option, none, some, [], ◌∷◌, ◌++◌, arith, ltb, ◌==◌, if◌then◌else◌, Bool-cases, inl, inr,
}
use laya_codex.Common.Options.{◌>>=◌, bind-some, bind_assoc}
use laya_codex.Common.Text.{Text, is_ascii_digit, is_empty}

digits : ℕ → ℕ → Text
digits zero n = []
digits (suc fuel) n =
    let more = digits fuel (n / 10) in
    if ltb n 10 then (b'0' + n) ∷ [] else more ++ (b'0' + n % 10) ∷ []

-- A number has no more digits than its value plus one.
unfoldable pub decimal : ℕ → Text
unfolding digits
decimal n = digits (suc n) n

add_digit : ℕ → ℕ → Option ℕ
unfolding is_ascii_digit
add_digit n c =
    if is_ascii_digit c && ltb (n * 10 + (c - b'0')) (2 ^ 32)
    then some (n * 10 + (c - b'0'))
    else none

parse_from : ℕ → Text → Option ℕ
unfolding add_digit
parse_from n [] = some n
parse_from n (c ∷ s) = do m ← add_digit n c; parse_from m s

-- A single leading `+` is allowed.
unfoldable pub parse_u32 : Text → Option ℕ
unfolding parse_from
parse_u32 [] = none
parse_u32 (c ∷ []) = parse_from 0 (c ∷ [])
parse_u32 (c ∷ d ∷ s) = if c == b'+' then parse_from 0 (d ∷ s) else parse_from 0 (c ∷ d ∷ s)

parse_from-append :
    (n : ℕ) (s : Text) (c : ℕ) → parse_from n (s ++ c ∷ []) ≡ parse_from n s >>= λ m. add_digit m c
unfolding parse_from
parse_from-append n [] c = bind-some (add_digit n c)
parse_from-append n (d ∷ s) c =
    ap (λ f. add_digit n d >>= f) (fun_ext (λ m. parse_from-append m s c))
    ∙ bind_assoc (add_digit n d) (λ m. parse_from m s) (λ m. add_digit m c)

add_digit-digit :
    (n d : ℕ) → d < 10 → n * 10 + d < 2 ^ 32 → add_digit n (b'0' + d) ≡ some (n * 10 + d)
unfolding add_digit is_ascii_digit
add_digit-digit n d h b = ground (arith, h, b)

parse_from-digits : (fuel n : ℕ) → n < fuel → n < 2 ^ 32 → parse_from 0 (digits fuel n) ≡ some n
unfolding digits parse_from
parse_from-digits zero n h b = absurd (omega (arith, h))
parse_from-digits (suc fuel) n h b = elim (Bool-cases (ltb n 10)) [
  | inl e ↦ rw (e, add_digit-digit 0 n (ltb→lt n 10 e) (omega (arith, b))) (ap some (omega arith))
  | inr e ↦
      rw
        (
          e,
          parse_from-append 0 (digits fuel (n / 10)) (b'0' + n % 10),
          parse_from-digits fuel (n / 10) (ground (arith, h)) (omega (arith, b)),
          add_digit-digit (n / 10) (n % 10) (omega arith) (omega (arith, b)),
        )
        (ap some (omega arith))
]

parse_u32-parse_from :
    (s : Text) (n : ℕ) → is_empty s ≡ false → parse_from 0 s ≡ some n → parse_u32 s ≡ some n
unfolding parse_u32 parse_from add_digit is_ascii_digit is_empty
parse_u32-parse_from [] n e h = cc
parse_u32-parse_from (c ∷ []) n e h = h
parse_u32-parse_from (c ∷ d ∷ s) n e h = ground arith

is_empty-snoc : (s : Text) (c : ℕ) → is_empty (s ++ c ∷ []) ≡ false
unfolding is_empty
is_empty-snoc [] c = refl
is_empty-snoc (d ∷ s) c = refl

is_empty-digits : (fuel n : ℕ) → is_empty (digits (suc fuel) n) ≡ false
unfolding digits is_empty
is_empty-digits fuel n = elim (Bool-cases (ltb n 10)) [
  | inl e ↦ rw e refl
  | inr e ↦ rw e (is_empty-snoc (digits fuel (n / 10)) (b'0' + n % 10))
]

-- Parsing undoes printing.
pub parse_u32-decimal : (n : ℕ) → n < 2 ^ 32 → parse_u32 (decimal n) ≡ some n
unfolding decimal
parse_u32-decimal n b =
    parse_u32-parse_from (digits (suc n) n) n (is_empty-digits n n)
      (parse_from-digits (suc n) n (omega arith) b)
