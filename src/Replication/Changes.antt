-- ===== src/Replication/Changes.antt =====
-- Changes of values, and what becomes of them at a slave that learns only of the values of now.
use php.Prelude.{
  ◌≡◌, refl, sym, ap, ◌∙◌, Bool, true, false, ◌||◌, Option, none, some, List, [], ◌∷◌, arith,
  Bool-cases, Option-cases, inl, inr, ◌⊎◌,
}
use php.Bytes.{Bytes, eqb}
use php.Bytes.Compare.{eqb_iff}
use php.Kv.Map.{Map, insert, remove}

-- A change of a value.
pub data Change : Type 0 where
  written : Bytes → Bytes → Change
  removed : Bytes → Change

abbrev pub key_of : Change → Bytes
key_of (written k v) = k
key_of (removed k) = k

-- What the changes make of the master's values.
abbrev pub changed : Map → List Change → Map
changed m [] = m
changed m (written k v ∷ cs) = changed (insert m k v) cs
changed m (removed k ∷ cs) = changed (remove m k) cs

-- What a slave's values become, where the master's are now f.
abbrev pub put_found : Map → Bytes → Option Bytes → Map
put_found n k none = n
put_found n k (some w) = insert n k w

abbrev pub replayed : Map → Map → List Change → Map
replayed f n [] = n
replayed f n (written k v ∷ cs) = replayed f (put_found n k (f k)) cs
replayed f n (removed k ∷ cs) = replayed f (remove n k) cs

abbrev touches : Bytes → List Change → Bool
touches j [] = false
touches j (c ∷ cs) = eqb (key_of c) j || touches j cs

untouched : (m : Map) (cs : List Change) (j : Bytes) → touches j cs ≡ false → changed m cs j ≡ m j
untouched m [] j e = refl
untouched m (written k v ∷ cs) j e = untouched (insert m k v) cs j (ground arith) ∙ ground arith
untouched m (removed k ∷ cs) j e = untouched (remove m k) cs j (ground arith) ∙ ground arith

-- A slave's value differs from the one that the master had only where a later change touches it.
abbrev Behind : Map → Map → List Change → Type 0
Behind m n cs = (j : Bytes) → (n j ≡ m j) ⊎ (touches j cs ≡ true)

Behind-written :
    (f m n : Map) (k v : Bytes) (cs : List Change)
    → ((j : Bytes) → changed (insert m k v) cs j ≡ f j)
    → Behind m n (written k v ∷ cs)
    → Behind (insert m k v) (put_found n k (f k)) cs
Behind-written f m n k v cs final h j = elim (Bool-cases (touches j cs)) [
  | inl t ↦ inr t
  | inr t ↦ elim (Bool-cases (eqb k j)) [
    | inl e ↦
        let same : k ≡ j = (eqb_iff k j).0 e in
        let now : f j ≡ some v = sym (final j) ∙ untouched (insert m k v) cs j t ∙ rw e refl in
        let there : f k ≡ some v = ap f same ∙ now in inl (rw (there, e) refl)
    | inr e ↦ elim (h j) [
      | inl o ↦ elim (Option-cases (f k)) [
        | inl p ↦ inl (rw (p, e) o)
        | inr (w, p) ↦ inl (rw (p, e) o)
      ]
      | inr x ↦ ground (arith, e, t, x)
    ]
  ]
]

Behind-removed :
    (f m n : Map) (k : Bytes) (cs : List Change)
    → Behind m n (removed k ∷ cs)
    → Behind (remove m k) (remove n k) cs
Behind-removed f m n k cs h j = elim (Bool-cases (touches j cs)) [
  | inl t ↦ inr t
  | inr t ↦ elim (Bool-cases (eqb k j)) [
    | inl e ↦ inl (rw e refl)
    | inr e ↦ elim (h j) [ inl o ↦ inl (rw e o) | inr x ↦ ground (arith, e, t, x) ]
  ]
]

pub replayed-changed :
    (f m n : Map) (cs : List Change)
    → ((j : Bytes) → changed m cs j ≡ f j)
    → Behind m n cs
    → (j : Bytes) → replayed f n cs j ≡ f j
replayed-changed f m n [] final h j = elim (h j) [ inl o ↦ o ∙ final j | inr x ↦ cc ]
replayed-changed f m n (written k v ∷ cs) final h j =
    replayed-changed f (insert m k v) (put_found n k (f k)) cs final
      (Behind-written f m n k v cs final h) j
replayed-changed f m n (removed k ∷ cs) final h j =
    replayed-changed f (remove m k) (remove n k) cs final (Behind-removed f m n k cs h) j
