-- ===== src/Domain/Ids.antt =====
-- domain/common/ids.py. Texts are lists of code points. A UUID is the 128-bit number that it stands for.
use mathlib.Core.List.{append_assoc}
use aistock.Common.{
  ◌≤◌, ◌⊎◌, inl, inr, ◌↔◌, All, sym, subst, ap, ◌∙◌, Bool-cases, ok-injective, ap₂, ℕ, ◌+◌, ◌-◌,
  ◌≡◌, refl, Bool, true, ◌&&◌, ◌||◌, not, [], ◌∷◌, ◌++◌, map, arith, leb, nat_eq, if◌then◌else◌,
  Text, length, all, any, Result, ok, raise, value_error,
}

abbrev pub Uuid : Type 0
Uuid = ℕ

-- `c.upper()` of one character, in capitals from A to Z: the small letters, and the letters and
-- ligatures outside ASCII that become a text of ASCII. No other letter becomes one, and it stays as it
-- is, which a test against a text of ASCII cannot tell from its capital.
abbrev pub upper_char : ℕ → Text
upper_char c =
    if leb b'a' c && leb c b'z'
    then (c - 32) ∷ []
    else if nat_eq c 223
    then b'S' ∷ b'S' ∷ []
    else if nat_eq c 305
    then b'I' ∷ []
    else if nat_eq c 383
    then b'S' ∷ []
    else if nat_eq c 64256
    then b'F' ∷ b'F' ∷ []
    else if nat_eq c 64257
    then b'F' ∷ b'I' ∷ []
    else if nat_eq c 64258
    then b'F' ∷ b'L' ∷ []
    else if nat_eq c 64259
    then b'F' ∷ b'F' ∷ b'I' ∷ []
    else if nat_eq c 64260
    then b'F' ∷ b'F' ∷ b'L' ∷ []
    else if nat_eq c 64261 || nat_eq c 64262
    then b'S' ∷ b'T' ∷ []
    else c ∷ []

-- `c.lower()` in the same way: the capitals, and the sign of the kelvin.
abbrev pub lower_char : ℕ → ℕ
lower_char c = if leb b'A' c && leb c b'Z' then c + 32 else if nat_eq c 8490 then b'k' else c

-- `value.upper()` and `value.lower()`
abbrev pub upper : Text → Text
upper [] = []
upper (c ∷ s) = upper_char c ++ upper s

abbrev pub lower : Text → Text
lower = map lower_char

-- `str.isspace` of one character.
abbrev pub is_space : ℕ → Bool
is_space c =
    leb 9 c && leb c 13
    || leb 28 c && leb c 32
    || any (nat_eq c) (133 ∷ 160 ∷ 5760 ∷ 8232 ∷ 8233 ∷ 8239 ∷ 8287 ∷ 12288 ∷ [])
    || leb 8192 c && leb c 8202

-- `value.strip()` without its left and its right space.
abbrev pub strip_left : Text → Text
strip_left [] = []
strip_left (c ∷ s) = if is_space c then strip_left s else c ∷ s

abbrev keep_unless_blank : ℕ → Text → Text
keep_unless_blank c [] = if is_space c then [] else c ∷ []
keep_unless_blank c (d ∷ s) = c ∷ d ∷ s

abbrev pub strip_right : Text → Text
strip_right [] = []
strip_right (c ∷ s) = keep_unless_blank c (strip_right s)

unfoldable pub strip : Text → Text
strip s = strip_right (strip_left s)

-- `not value.strip()`
unfoldable pub is_blank : Text → Bool
is_blank s = all is_space s

unfoldable pub is_symbol_char : ℕ → Bool
is_symbol_char c = leb b'A' c && leb c b'Z' || nat_eq c b'.'

-- The regular expression [A-Z.]{1,10} on a whole text.
unfoldable pub matches_symbol : Text → Bool
unfolding is_symbol_char
matches_symbol s = leb 1 (length s) && leb (length s) 10 && all is_symbol_char s

-- `Symbol(value)`
unfoldable pub symbol : Text → Result Text
symbol value =
    if matches_symbol (upper value)
    then ok (upper value)
    else raise (value_error "symbol must match [A-Z.]{1,10}")

unfoldable pub is_letter : ℕ → Bool
is_letter c = leb b'A' c && leb c b'Z' || leb b'a' c && leb c b'z'

-- `len(currency) == 3 and currency.isalpha()`, after `upper`, with the letters of ASCII
unfoldable pub iso_currency : Text → Result Text
unfolding is_letter
iso_currency value =
    if not (nat_eq (length (upper value)) 3) || not (all is_letter (upper value))
    then raise (value_error "currency must be a three-letter ISO code")
    else ok (upper value)

upper_symbol_char : (c : ℕ) → is_symbol_char c ≡ true → upper_char c ≡ c ∷ []
unfolding is_symbol_char
upper_symbol_char c h = ground arith

upper_symbol : (s : Text) → all is_symbol_char s ≡ true → upper s ≡ s
upper_symbol [] h = refl
upper_symbol (c ∷ s) h =
    rw (upper_symbol_char c (ground arith))
      (ap (λ (t : Text). c ∷ t) (upper_symbol s (ground arith)))

upper_lower_char : (c : ℕ) → is_symbol_char c ≡ true → upper_char (lower_char c) ≡ c ∷ []
unfolding is_symbol_char
upper_lower_char c h = ground arith

upper-lower : (s : Text) → all is_symbol_char s ≡ true → upper (lower s) ≡ s
upper-lower [] h = refl
upper-lower (c ∷ s) h =
    rw (upper_lower_char c (ground arith)) (ap (λ (t : Text). c ∷ t) (upper-lower s (ground arith)))

matches_symbol-all : (s : Text) → matches_symbol s ≡ true → all is_symbol_char s ≡ true
unfolding matches_symbol
matches_symbol-all s h = ground arith

-- A symbol that `Symbol` returned is returned unchanged, so that the constructors of the domain may
-- normalise it again.
pub symbol_idem : (value s : Text) → symbol value ≡ ok s → symbol s ≡ ok s
unfolding symbol
symbol_idem value s h = ground (arith, upper_symbol (upper value), matches_symbol-all (upper value))

-- One to ten characters, each a capital from A to Z or a full stop.
abbrev pub IsTicker : Text → Type 0
IsTicker s = (1 ≤ length s) × (length s ≤ 10) × All (λ (c : ℕ). (65 ≤ c) × (c ≤ 90) ⊎ (c ≡ 46)) s

all-ticker :
    (s : Text) → all is_symbol_char s ≡ true → All (λ (c : ℕ). (65 ≤ c) × (c ≤ 90) ⊎ (c ≡ 46)) s
unfolding is_symbol_char
all-ticker [] h = tt
all-ticker (c ∷ s) h = (ground arith, all-ticker s (ground arith))

ticker-all :
    (s : Text) → All (λ (c : ℕ). (65 ≤ c) × (c ≤ 90) ⊎ (c ≡ 46)) s → all is_symbol_char s ≡ true
unfolding is_symbol_char
ticker-all [] h = refl
ticker-all (c ∷ s) h = ground (arith, h.0, ticker-all s h.1)

matches-IsTicker : (s : Text) → matches_symbol s ≡ true → IsTicker s
unfolding matches_symbol
matches-IsTicker s h = (ground arith, ground arith, all-ticker s (ground arith))

IsTicker-matches : (s : Text) → IsTicker s → matches_symbol s ≡ true
unfolding matches_symbol
IsTicker-matches s h = ground (arith, h.0, h.1, ticker-all s h.2)

symbol-ok : (value s : Text) → s ≡ upper value → IsTicker s → symbol value ≡ ok s
unfolding symbol
symbol-ok value s e h =
    let m : matches_symbol (upper value) ≡ true =
      subst (λ (x : Text). matches_symbol x ≡ true) e (IsTicker-matches s h) in
    rw m (ap ok (sym e))

symbol-returned : (value s : Text) → symbol value ≡ ok s → (s ≡ upper value) × IsTicker s
unfolding symbol
symbol-returned value s h = elim (Bool-cases (matches_symbol (upper value))) [
  | inl m ↦
      let e : ok (upper value) ≡ ok s = ground arith in
      (sym (ok-injective e), subst IsTicker (ok-injective e) (matches-IsTicker (upper value) m))
  | inr m ↦ absurd (ground arith)
]

lower_ticker : (s : Text) → IsTicker s → symbol (lower s) ≡ ok s
lower_ticker s h =
    symbol-ok (lower s) s (sym (upper-lower s (matches_symbol-all s (IsTicker-matches s h)))) h

-- `Symbol` returns a text exactly when it is the value in capitals and has one to ten characters, all
-- of them capitals from A to Z or full stops; else it raises. A text is returned for its own small
-- letters exactly when it is of that form.
pub symbol_lem :
    (value s : Text)
    → ((symbol value ≡ ok s) ↔ ((s ≡ upper value) × IsTicker s))
      × ((symbol value ≡ ok (upper value))
          ⊎ (symbol value ≡ raise (value_error "symbol must match [A-Z.]{1,10}")))
      × ((symbol (lower s) ≡ ok s) ↔ IsTicker s)
unfolding symbol
symbol_lem value s = (
  (symbol-returned value s, λ h. symbol-ok value s h.0 h.1),
  ground arith,
  (λ h. (symbol-returned (lower s) s h).1, lower_ticker s),
)

upper-append : (s t : Text) → upper (s ++ t) ≡ upper s ++ upper t
upper-append [] t = refl
upper-append (c ∷ s) t =
    ap (λ (x : Text). upper_char c ++ x) (upper-append s t)
    ∙ sym (append_assoc (upper_char c) (upper s) (upper t))

upper_char_idem : (c : ℕ) → upper (upper_char c) ≡ upper_char c
upper_char_idem c = ground arith

pub upper_idem : (s : Text) → upper (upper s) ≡ upper s
upper_idem [] = refl
upper_idem (c ∷ s) =
    upper-append (upper_char c) (upper s)
    ∙ ap₂ (λ (x y : Text). x ++ y) (upper_char_idem c) (upper_idem s)

-- So is a currency code.
pub iso_currency_idem : (value s : Text) → iso_currency value ≡ ok s → iso_currency s ≡ ok s
unfolding iso_currency
iso_currency_idem value s h = ground (arith, upper_idem value)
