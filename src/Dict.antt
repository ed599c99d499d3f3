-- ===== src/Dict.antt =====
-- Python's `dict` with text keys, in insertion order: a new key goes to the end, a write to an
-- old key stays in its place. Also the tables of app/storage/database.py with a text primary key.
use agentic_firewall.Base.{
  String, ◌≡◌, refl, Bool, Option, none, some, List, [], ◌∷◌, arith, ◌==◌, eq_iff, eq_refl,
  if◌then◌else◌,
}

abbrev pub Dict {ℓ} : Type ℓ → Type ℓ
Dict V = List (String × V)

module _ {ℓ} {V : Type ℓ} where
  -- d.get(key)
  unfoldable pub lookup : String → Dict V → Option V
  lookup key [] = none
  lookup key ((name, value) ∷ rest) = if name == key then some value else lookup key rest

  -- d[key] = value
  unfoldable pub insert : String → V → Dict V → Dict V
  insert key value [] = (key, value) ∷ []
  insert key value ((name, old) ∷ rest) =
      if name == key then (name, value) ∷ rest else (name, old) ∷ insert key value rest

  -- The entries for which `p` holds: a dict after `del d[k]` for each other key.
  unfoldable pub keep_entries : (V → Bool) → Dict V → Dict V
  keep_entries p [] = []
  keep_entries p ((j, v) ∷ m) = let rest = keep_entries p m in if p v then (j, v) ∷ rest else rest

  pub lookup-insert :
      (key other : String) (value : V) (d : Dict V)
      → lookup other (insert key value d) ≡ (if key == other then some value else lookup other d)
  unfolding insert lookup
  lookup-insert key other value [] = refl
  lookup-insert key other value ((name, old) ∷ rest) = ground (
    arith,
    lookup-insert key other value rest,
    eq_iff name key,
    eq_iff name other,
    eq_iff key other,
  )

  pub lookup-insert_self : (k : String) (v : V) (m : Dict V) → lookup k (insert k v m) ≡ some v
  lookup-insert_self k v m = simp (lookup-insert, eq_refl)

  -- The keys of a dict are distinct.
  abbrev pub Distinct : Dict V → Type ℓ
  Distinct [] = Unit
  Distinct ((j, v) ∷ m) = (lookup j m ≡ none) × Distinct m

  pub insert-Distinct : (k : String) (v : V) (m : Dict V) → Distinct m → Distinct (insert k v m)
  unfolding lookup insert
  insert-Distinct k v [] d = (refl, tt)
  insert-Distinct k v ((j, w) ∷ m) d =
      ground (arith, lookup-insert k j v m, eq_iff k j, eq_iff j k, insert-Distinct k v m d.1)

  -- What `p` says of the value under a key.
  abbrev pub kept : (V → Bool) → Option V → Option V
  kept p none = none
  kept p (some v) = if p v then some v else none

  pub lookup-keep_entries :
      (p : V → Bool) (k : String) (m : Dict V)
      → Distinct m
      → lookup k (keep_entries p m) ≡ kept p (lookup k m)
  unfolding lookup keep_entries
  lookup-keep_entries p k [] d = refl
  lookup-keep_entries p k ((j, v) ∷ m) d = ground (arith, eq_iff j k, lookup-keep_entries p k m d.1)

  pub keep_entries-Distinct : (p : V → Bool) (m : Dict V) → Distinct m → Distinct (keep_entries p m)
  unfolding keep_entries
  keep_entries-Distinct p [] d = tt
  keep_entries-Distinct p ((j, v) ∷ m) d =
      ground (arith, lookup-keep_entries p j m d.1, keep_entries-Distinct p m d.1)
