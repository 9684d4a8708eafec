-- ===== src/Texts/Enums/Distinct.antt =====
-- No two values of an enumeration, and no two error codes, are printed alike.
use pnet2csv.Common.{
  ℕ, ◌≡◌, ◌≢◌, inl, inr, refl, ◌∙◌, sym, List, [], ◌∷◌, arith, ◌==◌, Bool-cases, ==→eq, Bool, true,
  ◌&&◌, not, false,
}
use pnet2csv.FileLogger.Names.{Text}
use pnet2csv.Texts.Enums.{
  switch, no_text, event_to_string, events, abort_codes, rta_protocol, not_decoded,
  get_error_code_strings,
}

unfoldable pub text_eq : Text → Text → Bool
text_eq [] [] = true
text_eq [] (b ∷ bs) = false
text_eq (a ∷ as') [] = false
text_eq (a ∷ as') (b ∷ bs) = a == b && text_eq as' bs

text_eq_self : (t : Text) → text_eq t t ≡ true
unfolding text_eq
text_eq_self [] = refl
text_eq_self (a ∷ t) = ground (arith, text_eq_self t)

-- Does no case have this text?
unfoldable pub absent : Text → List (ℕ × Text) → Bool
absent t [] = true
absent t ((k, u) ∷ cases) = not (text_eq t u) && absent t cases

-- All texts of a switch differ, and from the one where no case fits.
unfoldable pub distinct : List (ℕ × Text) → Text → Bool
distinct [] other = true
distinct ((k, t) ∷ cases) other = not (text_eq t other) && (absent t cases && distinct cases other)

-- A text that no case has is not printed, but for the one where no case fits.
absent-switch :
    (t : Text) (cases : List (ℕ × Text)) (other : Text) (n : ℕ)
    → absent t cases ≡ true
    → text_eq t other ≡ false
    → switch cases other n ≢ t
unfolding absent switch
absent-switch t [] other n a d e = cc (e, d, text_eq_self t)
absent-switch t ((k, u) ∷ cases) other n a d e = elim (Bool-cases (n == k)) [
  | inl same ↦ ground (arith, text_eq_self t, rw (same, switch) at e)
  | inr differ ↦ absent-switch t cases other n (ground arith) d (rw (differ, switch) at e)
]

pub switch_injective :
    (cases : List (ℕ × Text)) (other : Text) (a b : ℕ)
    → distinct cases other ≡ true
    → switch cases other a ≢ other
    → switch cases other a ≡ switch cases other b
    → a ≡ b
unfolding switch distinct
switch_injective [] other a b d n e = absurd (n refl)
switch_injective ((k, t) ∷ cases) other a b d n e =
    let first : text_eq t other ≡ false = ground arith in
    let later : absent t cases ≡ true = ground arith in
    elim (Bool-cases (a == k)) [
      | inl a_k ↦ elim (Bool-cases (b == k)) [
        | inl b_k ↦ ==→eq a k a_k ∙ sym (==→eq b k b_k)
        | inr b_not ↦ absurd (
            absent-switch t cases other b later first
              (sym (rw (b_not, switch) at (rw (a_k, switch) at e))))
      ]
      | inr a_not ↦ elim (Bool-cases (b == k)) [
        | inl b_k ↦ absurd (
            absent-switch t cases other a later first
              (rw (b_k, switch) at (rw (a_not, switch) at e)))
        | inr b_not ↦
            switch_injective cases other a b (ground arith) (rw (a_not, switch) at n)
              (rw (b_not, switch) at (rw (a_not, switch) at e))
      ]
    ]

-- Two events have the same text, other than "<error>", only if they are equal.
pub event_to_string_injective :
    (a b : ℕ) → event_to_string a ≢ no_text → event_to_string a ≡ event_to_string b → a ≡ b
unfolding event_to_string distinct absent text_eq
event_to_string_injective a b n e = switch_injective events no_text a b refl n e

-- So it is for the error codes of an abort.
pub get_error_code_strings_injective :
    (a b : ℕ)
    → (get_error_code_strings rta_protocol a).1 ≢ not_decoded
    → (get_error_code_strings rta_protocol a).1 ≡ (get_error_code_strings rta_protocol b).1
    → a ≡ b
unfolding get_error_code_strings distinct absent text_eq
get_error_code_strings_injective a b n e = switch_injective abort_codes not_decoded a b refl n e
