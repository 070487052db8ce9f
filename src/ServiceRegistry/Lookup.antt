-- ===== src/ServiceRegistry/Lookup.antt =====
-- The registry of src/wish_service_registry.c as a map from service ids to entries.
use wish_c.Prelude.{
  ℕ, zero, suc, ◌+◌, ◌≤◌, ◌≡◌, ◌≢◌, refl, sym, ap, ◌∙◌, Bool, true, false, not, List, [], ◌∷◌,
  Option, none, some, arith, same, same_refl, same→eq, Bool-cases, inl, inr, if◌then◌else◌,
}
use wish_c.Pool.{find, find_from, update_at}
use wish_c.ServiceRegistry.{
  AppEntry, zero_entry, entry_is_valid, is_service, get_entry, fill_entry, add_new, add_unless,
  register_add, remove_at, register_remove,
}

-- The number of entries that pass a test.
unfoldable pub count : {A : Type 0} → (A → Bool) → List A → ℕ
count test [] = 0
count test (e ∷ rest) = if test e then 1 + count test rest else count test rest

-- Every service id is that of at most one entry in use.
pub record IsMap (registry : List AppEntry) : Type 0 where
  pub once : (wsid : List ℕ) → count (is_service wsid) registry ≤ 1

module _ {A : Type 0} (test : A → Bool) where
  find-none : (l : List A) (i : ℕ) → find_from test l i ≡ none → count test l ≡ 0
  unfolding find_from count
  find-none [] i h = refl
  find-none (e ∷ l) i h = ground (arith, find-none l (i + 1))

  none-find : (l : List A) (i : ℕ) → count test l ≡ 0 → find_from test l i ≡ none
  unfolding find_from count
  none-find [] i h = refl
  none-find (e ∷ l) i h = ground (arith, none-find l (i + 1))

  find_bound : (l : List A) (i n : ℕ) → find_from test l i ≡ some n → i ≤ n
  unfolding find_from
  find_bound [] i n h = absurd (ground arith)
  find_bound (e ∷ l) i n h = ground (arith, find_bound l (i + 1) n)

  -- Writing an entry that fails the test makes no more of them.
  pub count-cleared :
      (f : A → A) (l : List A) (n : ℕ)
      → ((e : A) → test (f e) ≡ false)
      → count test (update_at n f l) ≤ count test l
  unfolding count update_at
  count-cleared f [] n h = omega arith
  count-cleared f (e ∷ l) zero h = ground (arith, h e)
  count-cleared f (e ∷ l) (suc n) h = ground (arith, count-cleared f l n h)

  -- Any one entry counts once at most.
  pub count-written :
      (f : A → A) (l : List A) (n : ℕ) → count test (update_at n f l) ≤ 1 + count test l
  unfolding count update_at
  count-written f [] n = omega arith
  count-written f (e ∷ l) zero = ground arith
  count-written f (e ∷ l) (suc n) = ground (arith, count-written f l n)

  -- Where an entry that passes is cleared, there is one less.
  count-found :
      (f : A → A) (l : List A) (i n : ℕ)
      → ((e : A) → test (f e) ≡ false)
      → find_from test l i ≡ some (i + n)
      → count test (update_at n f l) + 1 ≡ count test l
  unfolding count update_at find_from
  count-found f [] i n h e = absurd (ground arith)
  count-found f (x ∷ l) i zero h e = ground (arith, h x, find_bound l (i + 1) (i + 0))
  count-found f (x ∷ l) i (suc n) h e = ground (arith, count-found f l (i + 1) n h)

  -- An entry written where none was found is found.
  find-written :
      (free : A → Bool) (f : A → A) (l : List A) (i n : ℕ)
      → ((e : A) → test (f e) ≡ true)
      → find_from free l i ≡ some (i + n)
      → find_from test l i ≡ none
      → find_from test (update_at n f l) i ≡ some (i + n)
  unfolding update_at find_from
  find-written free f [] i n h e none_found = absurd (ground arith)
  find-written free f (x ∷ l) i zero h e none_found = ground (arith, h x)
  find-written free f (x ∷ l) i (suc n) h e none_found =
      ground (arith, find-written free f l (i + 1) n h)

from_zero : (i : ℕ) → some i ≡ some (0 + i)
from_zero i = ap some (omega arith)

zero-fails : (wsid : List ℕ) → is_service wsid zero_entry ≡ false
unfolding is_service entry_is_valid
zero-fails wsid = refl

fill-other :
    (id wsid name : List ℕ) (find_string : ℕ → Option (List ℕ)) (e : AppEntry)
    → same id wsid ≡ false
    → is_service id (fill_entry wsid name find_string e) ≡ false
unfolding is_service fill_entry entry_is_valid
fill-other id wsid name find_string e h = ground arith

fill-passes :
    (wsid name : List ℕ) (find_string : ℕ → Option (List ℕ)) (e : AppEntry)
    → name ≢ []
    → is_service wsid (fill_entry wsid name find_string e) ≡ true
unfolding is_service fill_entry entry_is_valid
fill-passes wsid [] find_string e h = absurd (h refl)
fill-passes wsid (x ∷ name) find_string e h = rw (same_refl wsid) (ground arith)

add_new-IsMap :
    (registry : List AppEntry) (wsid name : List ℕ) (find_string : ℕ → Option (List ℕ))
    (o : Option ℕ)
    → IsMap registry
    → count (is_service wsid) registry ≡ 0
    → IsMap (add_new registry wsid name find_string o)
unfolding add_new
add_new-IsMap registry wsid name find_string none m h = m
add_new-IsMap registry wsid name find_string (some i) m h = record {
  once = λ id. elim (Bool-cases (same id wsid)) [
    | inl e ↦
        let fresh = ap (λ x. count (is_service x) registry) (same→eq id wsid e) in
        omega (
          arith,
          fresh,
          count-written (is_service id) (fill_entry wsid name find_string) registry i,
        )
    | inr e ↦
        let old = m.once id in
        omega (
          arith,
          old,
          count-cleared (is_service id) (fill_entry wsid name find_string) registry i
              (λ x. fill-other id wsid name find_string x e),
        )
  ];
}

-- Adding a service, whether it is known already, the registry is full or there is room, keeps the
-- registry a map: no service id has two entries in use.
pub register_add-IsMap :
    (registry : List AppEntry) (wsid name : List ℕ) (find_string : ℕ → Option (List ℕ))
    → IsMap registry
    → IsMap (register_add registry wsid name find_string)
unfolding register_add add_unless get_entry find
register_add-IsMap registry wsid name find_string m = by_lookup (get_entry registry wsid) refl
  where
    by_lookup :
        (o : Option ℕ)
        → get_entry registry wsid ≡ o
        → IsMap (add_unless registry wsid name find_string o)
    by_lookup none e =
        add_new-IsMap registry wsid name find_string _ m (find-none (is_service wsid) registry 0 e)
    by_lookup (some i) e = m

-- A service that is not known, with a name that is not empty, is found after it was added in the
-- first free entry.
pub get_entry-register_add :
    (registry : List AppEntry) (wsid name : List ℕ) (find_string : ℕ → Option (List ℕ)) (i : ℕ)
    → name ≢ []
    → get_entry registry wsid ≡ none
    → find (λ e. not (entry_is_valid e)) registry ≡ some i
    → get_entry (register_add registry wsid name find_string) wsid ≡ some i
unfolding register_add add_unless add_new get_entry find
get_entry-register_add registry wsid name find_string i named unknown free = rw unknown (
    rw free (
      find-written (is_service wsid) (λ e. not (entry_is_valid e))
        (fill_entry wsid name find_string) registry 0 i
        (λ e. fill-passes wsid name find_string e named) (free ∙ from_zero i) unknown
      ∙ sym (from_zero i)))

-- In a registry that is a map, a service is unknown after it was removed, whether it was known or
-- not, and the registry is a map still.
pub get_entry-register_remove :
    (registry : List AppEntry) (wsid : List ℕ)
    → IsMap registry
    → (get_entry (register_remove registry wsid).0 wsid ≡ none)
      × IsMap (register_remove registry wsid).0
unfolding register_remove remove_at get_entry find
get_entry-register_remove registry wsid m = by_lookup (get_entry registry wsid) refl
  where
    by_lookup :
        (o : Option ℕ)
        → get_entry registry wsid ≡ o
        → (get_entry (remove_at registry o).0 wsid ≡ none) × IsMap (remove_at registry o).0
    by_lookup none e = (e, m)
    by_lookup (some i) e =
        let less =
          count-found (is_service wsid) (λ x. zero_entry) registry 0 i (λ x. zero-fails wsid)
            (e ∙ from_zero i) in
        let one = m.once wsid in
        (
          none-find (is_service wsid) _ 0 (omega arith),
          record {
            once = λ id.
                let old = m.once id in
                omega (
                  arith,
                  old,
                  count-cleared (is_service id) (λ x. zero_entry) registry i (λ x. zero-fails id),
                );
          },
        )
