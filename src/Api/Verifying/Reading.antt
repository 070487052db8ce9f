-- ===== src/Api/Verifying/Reading.antt =====
-- What the handler `wish_api_identity_verify` of src/wish_api_identity.c reads of a signature.
use Prim.Native.String.{String}
use package.text.Mathlib.Text
use wish_c.Prelude.{
  ℕ, ◌≡◌, refl, ap, ◌∙◌, Bool, true, false, ◌&&◌, ◌||◌, List, [], ◌∷◌, ◌++◌, Option, none, some,
  length, ◌==◌,
}
use wish_c.Connection.Types.{wish_id_len, signature_len}
use wish_c.Connection.Handshake.Outcome.{if_cases}
use wish_c.Api.{Item, Value, bin_value, string_value, other_value, binary, text}
use wish_c.Api.Verifying.{Signed, read_field, read_fields}
use wish_c.Api.Verifying.Verdicts.{is_true}

-- Some item of an answer is a Boolean that is true.
unfoldable pub any_true : List Item → Bool
unfolding is_true
any_true [] = false
any_true (item ∷ items) = is_true item || any_true items

or_assoc : (a : Bool) {b : Bool} (c d : Bool) → b ≡ c || d → a || b ≡ (a || c) || d
or_assoc true c d e = refl
or_assoc false c d e = e

pub any_true-append : (l k : List Item) → any_true (l ++ k) ≡ any_true l || any_true k
unfolding any_true
any_true-append [] k = refl
any_true-append (x ∷ l) k = or_assoc (is_true x) (any_true l) (any_true k) (any_true-append l k)

-- The object has a binary field with this name.
pub data IsField (name : String) (xs : List ℕ) : List (String × Value) → Type 0 where
  here :
      {key : String} {rest : List (String × Value)}
      → Text.◌==◌ key name ≡ true
      → IsField name xs ((key, bin_value xs) ∷ rest)
  later :
      {field : String × Value} {rest : List (String × Value)}
      → IsField name xs rest
      → IsField name xs (field ∷ rest)

-- A field of the object, or none.
pub data Found (name : String) (fields : List (String × Value)) : Option (List ℕ) → Type 0 where
  missing : Found name fields none
  present : {xs : List ℕ} → IsField name xs fields → Found name fields (some xs)

and_left : (a b : Bool) → (a && b) ≡ true → a ≡ true
and_left true b e = refl
and_left false b e = e

value_or_nil : Option (List ℕ) → List ℕ
value_or_nil none = []
value_or_nil (some xs) = xs

pub some_eq : {xs ys : List ℕ} → some xs ≡ some ys → xs ≡ ys
unfolding value_or_nil
some_eq e = ap value_or_nil e

pub either-true {ℓ} :
    {A : Type ℓ} (a : Bool) {b : Bool} → a || b ≡ true → (a ≡ true → A) → (b ≡ true → A) → A
either-true true e f g = f refl
either-true false e f g = g e

pub or_false-left : (a : Bool) → a || false ≡ true → a ≡ true
or_false-left true e = refl
or_false-left false e = e

-- What was read is in the object, and nothing that was copied is a Boolean.
pub record IsRead (all : List (String × Value)) (s : Signed) : Type 0 where
  pub sign_found : Found "sign" all s.sign
  pub uid_found : Found "uid" all s.uid
  pub claim_found : Found "claim" all s.claim
  pub no_verdict : any_true s.copies ≡ false

copied-no_verdict :
    (l : List Item) (x : Item)
    → any_true l ≡ false
    → is_true x ≡ false
    → any_true (l ++ x ∷ []) ≡ false
unfolding any_true
copied-no_verdict l x e h = any_true-append l (x ∷ []) ∙ rw (e, h) refl

module _ (all : List (String × Value)) where
  bin-IsRead :
      (s : Signed) (key : String) (xs : List ℕ)
      → ((name : String) → Text.◌==◌ key name ≡ true → IsField name xs all)
      → IsRead all s
      → IsRead all (read_field s key (bin_value xs))
  unfolding read_field is_true
  bin-IsRead s key xs at r =
      let copied = copied-no_verdict s.copies (binary key xs) r.no_verdict refl in
      if_cases (IsRead all) (Text.◌==◌ key "sign" && length xs == signature_len)
        (λ e. record {
          sign_found = present (at "sign" (and_left _ _ e));
          uid_found = r.uid_found;
          claim_found = r.claim_found;
          no_verdict = r.no_verdict;
        })
        (λ _.
          if_cases (IsRead all) (Text.◌==◌ key "uid" && length xs == wish_id_len)
            (λ e. record {
              sign_found = r.sign_found;
              uid_found = present (at "uid" (and_left _ _ e));
              claim_found = r.claim_found;
              no_verdict = copied;
            })
            (λ _.
              if_cases (IsRead all) (Text.◌==◌ key "claim") {y = s}
                (λ e. record {
                  sign_found = r.sign_found;
                  uid_found = r.uid_found;
                  claim_found = present (at "claim" e);
                  no_verdict = copied;
                })
                (λ _. r)))

  text-IsRead :
      (s : Signed) (key : String) (xs : List ℕ)
      → IsRead all s
      → IsRead all (read_field s key (string_value xs))
  unfolding read_field is_true
  text-IsRead s key xs r =
      if_cases (IsRead all) (Text.◌==◌ key "algo") {y = s}
        (λ _. record {
          sign_found = r.sign_found;
          uid_found = r.uid_found;
          claim_found = r.claim_found;
          no_verdict = copied-no_verdict s.copies (text key xs) r.no_verdict refl;
        })
        (λ _. r)

  pub read_fields-IsRead :
      (fields : List (String × Value)) (s : Signed)
      → ((name : String) (xs : List ℕ) → IsField name xs fields → IsField name xs all)
      → IsRead all s
      → IsRead all (read_fields s fields)
  unfolding read_fields read_field
  read_fields-IsRead [] s at r = r
  read_fields-IsRead ((key, bin_value xs) ∷ fields) s at r =
      read_fields-IsRead fields _ (λ name ys f. at name ys (later f))
        (bin-IsRead s key xs (λ name e. at name xs (here e)) r)
  read_fields-IsRead ((key, string_value xs) ∷ fields) s at r =
      read_fields-IsRead fields _ (λ name ys f. at name ys (later f)) (text-IsRead s key xs r)
  read_fields-IsRead ((key, other_value) ∷ fields) s at r =
      read_fields-IsRead fields s (λ name ys f. at name ys (later f)) r
