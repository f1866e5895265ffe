-- ===== src/Harness/Task/Names.antt =====
-- Which names of arguments the gateway of agents/harness/policy.py lets through.
use aistock.Common.{
  ap, Exception, ◌≢◌, ◌⊎◌, inl, inr, ◌+◌, ◌&&◌, ◌||◌, leb, nat_eq, all, ap₂, Bool-cases, String,
  raise, ℕ, ◌≤◌, ◌≡◌, ◌↔◌, refl, sym, ◌∙◌, Bool, true, false, List, [], ◌∷◌, any, Text, ◌==◌,
  text_eq, Result, ok, tool_policy_denied, codes, arith, All,
}
use text.Mathlib.TextEquality.{eq_iff}
use mathlib.Core.List.{head-eq_of_cons-eq, tail-eq_of_cons-eq, nil≢cons}
use aistock.Domain.Ids.{lower, lower_char}
use aistock.Harness.Task.{member, forbidden_arguments, is_forbidden, authorize}

-- A character that stands for the small letter or the underscore `d`: itself, its capital, or the sign
-- of the kelvin for k.
abbrev pub SpellsLetter : ℕ → ℕ → Type 0
SpellsLetter c d = (c ≡ d) ⊎ (97 ≤ d) × (d ≤ 122) × (c + 32 ≡ d) ⊎ (c ≡ 8490) × (d ≡ 107)

-- A text that spells a name, letter by letter.
abbrev pub Spells : Text → Text → Type 0
Spells [] [] = Unit
Spells (c ∷ s) (d ∷ name) = SpellsLetter c d × Spells s name
Spells [] (d ∷ name) = ⊥
Spells (c ∷ s) [] = ⊥

-- A name of an argument that spells none of the six that no tool may be given.
pub record IsHarmless (key : Text) : Type 0 where
  pub no_url : ¬ Spells key (codes "url")
  pub no_sql : ¬ Spells key (codes "sql")
  pub no_python : ¬ Spells key (codes "python")
  pub no_shell : ¬ Spells key (codes "shell")
  pub no_api_key : ¬ Spells key (codes "api_key")
  pub no_command : ¬ Spells key (codes "command")

-- Small letters and underscores.
abbrev is_plain : ℕ → Bool
is_plain d = leb 97 d && leb d 122 || nat_eq d 95

spells_char : (c d : ℕ) → is_plain d ≡ true → lower_char c ≡ d → SpellsLetter c d
spells_char c d p h = ground arith

lower_spelled_char : (c d : ℕ) → is_plain d ≡ true → SpellsLetter c d → lower_char c ≡ d
lower_spelled_char c d p h = ground arith

lower-Spells : (s name : Text) → all is_plain name ≡ true → lower s ≡ name → Spells s name
lower-Spells [] [] p h = tt
lower-Spells (c ∷ s) (d ∷ name) p h = (
  spells_char c d (ground arith) (head-eq_of_cons-eq h),
  lower-Spells s name (ground arith) (tail-eq_of_cons-eq h),
)
lower-Spells [] (d ∷ name) p h = nil≢cons h
lower-Spells (c ∷ s) [] p h = nil≢cons (sym h)

Spells-lower : (s name : Text) → all is_plain name ≡ true → Spells s name → lower s ≡ name
Spells-lower [] [] p h = refl
Spells-lower (c ∷ s) (d ∷ name) p h =
    ap₂ (λ (x : ℕ) (t : Text). x ∷ t) (lower_spelled_char c d (ground arith) h.0)
      (Spells-lower s name (ground arith) h.1)
Spells-lower [] (d ∷ name) p h = absurd h
Spells-lower (c ∷ s) [] p h = absurd h

-- Whether a key is a name, by its small letters and by its spelling.
unspelled : (s name : Text) → all is_plain name ≡ true → (name == lower s) ≡ false → ¬ Spells s name
unspelled s name p h q = ground (arith, text_eq.beq_iff name (lower s), Spells-lower s name p q)

other_name :
    (s name : Text) → all is_plain name ≡ true → ¬ Spells s name → (name == lower s) ≡ false
other_name s name p h = elim (Bool-cases (name == lower s)) [
  | inl e ↦ absurd (h (lower-Spells s name p (sym ((text_eq.beq_iff name (lower s)).0 e))))
  | inr e ↦ e
]

true≢false : ◌≢◌ {A = Bool} true false
true≢false h = cc

any-false {ℓ} :
    {A : Type ℓ} (p : A → Bool) (xs : List A) → any p xs ≡ false → All (λ (x : A). p x ≡ false) xs
any-false p [] h = tt
any-false p (x ∷ xs) h = elim (Bool-cases (p x)) [
  | inl e ↦ absurd (true≢false (sym (ap (λ (b : Bool). b || any p xs) e) ∙ h))
  | inr e ↦ (e, any-false p xs (sym (ap (λ (b : Bool). b || any p xs) e) ∙ h))
]

is_forbidden-IsHarmless : (key : Text) → is_forbidden key ≡ false → IsHarmless key
is_forbidden-IsHarmless key h =
    let each = any-false (λ (x : Text). x == lower key) forbidden_arguments h in
    record {
      no_url = unspelled key (codes "url") refl each.0;
      no_sql = unspelled key (codes "sql") refl each.1.0;
      no_python = unspelled key (codes "python") refl each.1.1.0;
      no_shell = unspelled key (codes "shell") refl each.1.1.1.0;
      no_api_key = unspelled key (codes "api_key") refl each.1.1.1.1.0;
      no_command = unspelled key (codes "command") refl each.1.1.1.1.1.0;
    }

not_forbidden : (key : Text) → IsHarmless key → is_forbidden key ≡ false
not_forbidden key h = rw (other_name key (codes "url") refl h.no_url) (
    rw (other_name key (codes "sql") refl h.no_sql) (
      rw (other_name key (codes "python") refl h.no_python) (
        rw (other_name key (codes "shell") refl h.no_shell) (
          rw (other_name key (codes "api_key") refl h.no_api_key)
            (rw (other_name key (codes "command") refl h.no_command) refl)))))

all-IsHarmless :
    (keys : List Text) → All (λ (k : Text). is_forbidden k ≡ false) keys → All IsHarmless keys
all-IsHarmless [] h = tt
all-IsHarmless (k ∷ keys) h = (is_forbidden-IsHarmless k h.0, all-IsHarmless keys h.1)

none_forbidden : (keys : List Text) → All IsHarmless keys → any is_forbidden keys ≡ false
none_forbidden [] h = refl
none_forbidden (k ∷ keys) h = rw (not_forbidden k h.0) (none_forbidden keys h.1)

abbrev pub denied : String → Result (Unit {0})
denied message = raise (tool_policy_denied message)

raise≢ok : {e : Exception} → ◌≢◌ {A = Result (Unit {0})} (raise e) (ok tt)
raise≢ok h = cc

two_messages : denied "tool not allowed" ≢ denied "forbidden tool arguments"
two_messages h = ground (arith, eq_iff "tool not allowed" "forbidden tool arguments")

-- A call is authorized exactly when its tool is allowed and none of its argument names spells url,
-- sql, python, shell, api_key or command, in small letters, in capitals or mixed, or with the sign of
-- the kelvin for k. Any other call is denied: for its tool when that is not allowed, else for its
-- arguments.
pub authorize_lem :
    (allowed_tools : List Text) (tool_name : Text) (arguments : List Text)
    → ((authorize allowed_tools tool_name arguments ≡ ok tt)
        ↔ ((member allowed_tools tool_name ≡ true) × All IsHarmless arguments))
      × ((authorize allowed_tools tool_name arguments ≡ denied "tool not allowed")
          ↔ (member allowed_tools tool_name ≡ false))
      × ((authorize allowed_tools tool_name arguments ≡ denied "forbidden tool arguments")
          ↔ ((member allowed_tools tool_name ≡ true) × (¬ All IsHarmless arguments)))
unfolding authorize
authorize_lem allowed_tools tool_name arguments =
    elim (Bool-cases (member allowed_tools tool_name)) [
      | inr e ↦ rw e (
        (λ h. absurd (raise≢ok h), λ h. absurd (true≢false (sym h.0))),
        (λ h. refl, λ h. refl),
        (λ h. absurd (two_messages h), λ h. absurd (true≢false (sym h.0))),
      )
      | inl e ↦ rw e (elim (Bool-cases (any is_forbidden arguments)) [
        | inr f ↦
            let fine = all-IsHarmless arguments (any-false is_forbidden arguments f) in
            rw f (
              (λ h. (refl, fine), λ h. refl),
              (λ h. absurd (raise≢ok (sym h)), λ h. absurd (true≢false h)),
              (λ h. absurd (raise≢ok (sym h)), λ h. absurd (h.1 fine)),
            )
        | inl f ↦
            let bad : ¬ All IsHarmless arguments =
              λ h. true≢false (sym f ∙ none_forbidden arguments h) in
            rw f (
              (λ h. absurd (raise≢ok h), λ h. absurd (bad h.1)),
              (λ h. absurd (two_messages (sym h)), λ h. absurd (true≢false h)),
              (λ h. (refl, bad), λ h. refl),
            )
      ])
    ]
