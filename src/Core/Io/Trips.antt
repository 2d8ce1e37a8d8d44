-- ===== src/Core/Io/Trips.antt =====
-- neo/Core/IO: a write is undone by a read, whatever stands behind it in the stream.
pub mod Values
pub mod Integers
use mathlib.Core.List.{append_assoc}
use neo_python.Core.Io.Streams.{Reader, read_many, result, write_all, ◌&◌, ◌▷◌}
use neo_python.Prelude.{List, Option, [], ap, length, none, refl, some, ℕ, ◌++◌, ◌∙◌, ◌∷◌, ◌≡◌}

-- What was written is read as a value.
pub record Trips {A : Type 0} (w : Option (List ℕ)) (read : Reader A) (a : A) : Type 0 where
  pub bytes : List ℕ
  pub wrote : w ≡ some bytes
  pub reads : (rest : List ℕ) → read (bytes ++ rest) ≡ some (a, rest)

pub Trips-next :
    {A B : Type 0}
    → {v w : Option (List ℕ)} → {read : Reader A} → {a : A} → {b : B} → (next : A → Reader B)
    → Trips v read a
    → Trips w (next a) b
    → Trips (v & w) (read ▷ next) b
unfolding ◌&◌ ◌▷◌
Trips-next {read = read} next t u = record {
  bytes = t.bytes ++ u.bytes;
  wrote = rw (t.wrote, u.wrote) refl;
  reads = λ rest.
      ap (read ▷ next) (append_assoc t.bytes u.bytes rest)
      ∙ ap (λ o. elim o [ none ↦ none | some (x, left) ↦ next x left ]) (t.reads (u.bytes ++ rest))
      ∙ u.reads rest;
}

-- A value that is made of what was read.
pub Trips-last :
    {A B : Type 0}
    → {w : Option (List ℕ)} → {read : Reader A} → {a : A} → (f : A → B) → Trips w read a
    → Trips w (read ▷ λ x. result (f x)) (f a)
unfolding ◌▷◌ result
Trips-last f t = record {
  bytes = t.bytes;
  wrote = t.wrote;
  reads =
      λ rest. ap (λ o. elim o [ none ↦ none | some (x, left) ↦ some (f x, left) ]) (t.reads rest);
}

-- Every item of a list is read as it was written.
abbrev pub AllTrips : {A : Type 0} → (A → Option (List ℕ)) → Reader A → List A → Type 0
AllTrips write read [] = Unit
AllTrips write read (a ∷ items) = Trips (write a) read a × AllTrips write read items

-- A loop of writes is undone by as many reads.
pub Trips-all :
    {A : Type 0}
    → (write : A → Option (List ℕ)) (read : Reader A) (items : List A) → AllTrips write read items
    → Trips (write_all write items) (read_many read (length items)) items
unfolding write_all read_many result
Trips-all write read [] t = record { bytes = []; wrote = refl; reads = λ rest. refl }
Trips-all write read (a ∷ items) (t, ts) =
    Trips-next _ t (Trips-last (λ more. a ∷ more) (Trips-all write read items ts))
