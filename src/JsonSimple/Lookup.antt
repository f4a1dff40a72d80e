-- ===== src/JsonSimple/Lookup.antt =====
-- What the lookups of src/ingestion/JsonSimpleDataParser.cpp find.
use back_tester.Prelude.{
  ℕ, ◌≡◌, ◌≢◌, refl, sym, ap, subst, ◌∙◌, Bool, true, false, ◌==◌, ==_iff, Bool-cases, inl, inr, [],
  ◌∷◌, ◌++◌, All, Option, none, some, arith,
}
use back_tester.JsonNative.Scan.{Text, skip_while, take_while, is_space, not_quote}
use back_tester.JsonSimple.{
  after_prefix, or_else, find_after, needle, skip_spaces, find_value, ended, unquoted, get_string,
}

after_prefix-split : (n t r : Text) → after_prefix n t ≡ some r → t ≡ n ++ r
unfolding after_prefix
after_prefix-split [] t r h = ground arith
after_prefix-split (c ∷ n) [] r h = absurd (cc)
after_prefix-split (c ∷ n) (d ∷ t) r h = ground (arith, ==_iff c d, after_prefix-split n t r)

find_after-split : (n t r : Text) → find_after n t ≡ some r → (pre : Text) × (t ≡ pre ++ (n ++ r))
unfolding find_after
find_after-split n [] r h = ([], after_prefix-split n [] r h)
find_after-split n (c ∷ t) r h = at (after_prefix n (c ∷ t)) refl h (find_after-split n t r)
  where
    at :
        (o : Option Text)
        → after_prefix n (c ∷ t) ≡ o
        → or_else o (find_after n t) ≡ some r
        → (find_after n t ≡ some r → (pre : Text) × (t ≡ pre ++ (n ++ r)))
        → (pre : Text) × (c ∷ t ≡ pre ++ (n ++ r))
    at (some q) e h later = ([], after_prefix-split n (c ∷ t) r (e ∙ h))
    at none e h later = let found = later h in (c ∷ found.0, ap (λ x. c ∷ x) found.1)

skip_while-split : (test : ℕ → Bool) (p : Text) → p ≡ take_while test p ++ skip_while test p
unfolding take_while skip_while
skip_while-split test [] = refl
skip_while-split test (c ∷ p) = elim (Bool-cases (test c)) [
  | inl goes ↦ rw goes (ap (λ x. c ∷ x) (skip_while-split test p))
  | inr stops ↦ rw stops refl
]

take_while-All : (test : ℕ → Bool) (p : Text) → All (λ c. test c ≡ true) (take_while test p)
unfolding take_while
take_while-All test [] = tt
take_while-All test (c ∷ p) = elim (Bool-cases (test c)) [
  | inl goes ↦ rw goes (goes, take_while-All test p)
  | inr stops ↦ rw stops tt
]

skip_while-stop :
    (test : ℕ → Bool) (p : Text) (c : ℕ) (r : Text) → skip_while test p ≡ c ∷ r → test c ≡ false
unfolding skip_while
skip_while-stop test [] c r h = absurd (cc)
skip_while-stop test (d ∷ p) c r h = ground (arith, skip_while-stop test p c r)

-- A value between quotes, in what follows the needle.
abbrev pub IsQuotedAt : Text → Text → Type 0
IsQuotedAt v value =
    (rest : Text) × (value ≡ b'"' ∷ (v ++ b'"' ∷ rest)) × All (λ c. not_quote c ≡ true) v

ended-found :
    (value after v : Text)
    → skip_while not_quote value ≡ after
    → ended (take_while not_quote value) after ≡ some v
    → (rest : Text) × (value ≡ v ++ b'"' ∷ rest) × All (λ c. not_quote c ≡ true) v
ended-found value [] v e h = absurd (cc)
ended-found value (c ∷ r) v e h =
    let text : take_while not_quote value ≡ v = cc in
    let quote : c ≡ b'"' = ground (arith, skip_while-stop not_quote value c r e, ==_iff c b'"') in
    (
      r,
      skip_while-split not_quote value
          ∙ ap (λ x. take_while not_quote value ++ x) e
          ∙ ap (λ x. x ++ c ∷ r) text
          ∙ ap (λ (d : ℕ). v ++ d ∷ r) quote,
      subst (λ x. All (λ c. not_quote c ≡ true) x) text (take_while-All not_quote value),
    )

unquoted-found : (value v : Text) → unquoted value ≡ some v → IsQuotedAt v value
unquoted-found [] v h = absurd (cc)
unquoted-found (c ∷ value) v h = elim (Bool-cases (c == b'"')) [
  | inl quote ↦
      let found = ended-found value (skip_while not_quote value) v refl (rw quote at h) in
      (
        found.0,
        ap (λ (d : ℕ). d ∷ value) ((==_iff c b'"').0 quote) ∙ ap (λ x. b'"' ∷ x) found.1,
        found.2,
      )
  | inr other ↦ absurd (let nothing = rw other at h in cc)
]

-- Where the key is found, and the spaces after it.
IsFoundAt : Text → Text → Text → Type 0
IsFoundAt line key value =
    (pre : Text) × (spaces : Text) × (line ≡ pre ++ (needle key ++ (spaces ++ value)))
    × All (λ c. is_space c ≡ true) spaces

skip_spaces-found :
    (line key value : Text) (found : Option Text)
    → find_after (needle key) line ≡ found
    → skip_spaces found ≡ value
    → value ≢ []
    → IsFoundAt line key value
unfolding skip_spaces IsFoundAt
skip_spaces-found line key value none e h some_value = absurd (some_value (sym h))
skip_spaces-found line key value (some rest) e h some_value =
    let at = find_after-split (needle key) line rest e in
    (
      at.0,
      take_while is_space rest,
      at.1
          ∙ ap (λ x. at.0 ++ (needle key ++ x)) (skip_while-split is_space rest)
          ∙ ap (λ x. at.0 ++ (needle key ++ (take_while is_space rest ++ x))) h,
      take_while-All is_space rest,
    )

-- A text that `getString` finds stands in the line between quotes, after the key in quotes, a colon and
-- spaces, and has no quote in it.
pub get_string-found :
    (line key v : Text)
    → get_string line key ≡ some v
    → (pre : Text) × (spaces : Text) × (rest : Text) × (line
        ≡ pre ++ (needle key ++ (spaces ++ b'"' ∷ (v ++ b'"' ∷ rest))))
      × All (λ c. is_space c ≡ true) spaces
      × All (λ c. not_quote c ≡ true) v
unfolding get_string find_value IsFoundAt
get_string-found line key v h =
    let value : Text = find_value line key in
    let quoted = unquoted-found value v h in
    let there : value ≢ [] = λ e. cc quoted.1 in
    let at = skip_spaces-found line key value (find_after (needle key) line) refl refl there in
    (
      at.0,
      at.1,
      quoted.0,
      at.2 ∙ ap (λ x. at.0 ++ (needle key ++ (at.1 ++ x))) quoted.1,
      at.3,
      quoted.2,
    )
